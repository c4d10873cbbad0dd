-- ===== src/Trajectory/Descriptors/Sameness.antt =====
-- Equality of the schedules of src/ddsleuth/trajectory.py.
use ddsleuth.Prelude.{
  List, Option, String, [], arith, eq_iff, eq_int_iff, none, refl, some, true, ◌↔◌, ◌∷◌, ◌≡◌,
}
use ddsleuth.Trajectory.Causal.{CausalActionMutation}
use ddsleuth.Trajectory.Descriptors.{
  TrajectoryDescriptor, same_descriptor, same_mutation, same_optional, same_texts,
}

same_texts_iff : (xs ys : List String) → (same_texts xs ys ≡ true) ↔ (xs ≡ ys)
same_texts_iff [] [] = (λ h. refl, λ h. refl)
same_texts_iff [] (y ∷ ys) = (λ h. cc, λ h. cc)
same_texts_iff (x ∷ xs) [] = (λ h. cc, λ h. cc)
same_texts_iff (x ∷ xs) (y ∷ ys) = ground (arith, eq_iff x y, same_texts_iff xs ys)

same_mutation_iff : (m n : CausalActionMutation) → (same_mutation m n ≡ true) ↔ (m ≡ n)
same_mutation_iff m n = ground (
  arith,
  eq_iff m.actor n.actor,
  eq_iff m.action_id n.action_id,
  eq_iff m.anchor_action_id n.anchor_action_id,
  eq_iff m.relation n.relation,
  eq_iff m.operation n.operation,
  eq_iff m.anchor_operation n.anchor_operation,
)

same_optional_iff : (m n : Option CausalActionMutation) → (same_optional m n ≡ true) ↔ (m ≡ n)
same_optional_iff none none = (λ h. refl, λ h. refl)
same_optional_iff none (some n) = (λ h. cc, λ h. cc)
same_optional_iff (some m) none = (λ h. cc, λ h. cc)
same_optional_iff (some m) (some n) = ground (arith, same_mutation_iff m n)

pub same_descriptor_iff : (d e : TrajectoryDescriptor) → (same_descriptor d e ≡ true) ↔ (d ≡ e)
same_descriptor_iff d e = ground (
  arith,
  same_texts_iff d.order e.order,
  eq_int_iff d.spacing_ms e.spacing_ms,
  eq_iff d.barrier_mode e.barrier_mode,
  eq_int_iff d.action_jitter_ms e.action_jitter_ms,
  eq_int_iff d.boundary_offset_ms e.boundary_offset_ms,
  same_optional_iff d.causal_mutation e.causal_mutation,
)
