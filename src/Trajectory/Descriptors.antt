-- ===== src/Trajectory/Descriptors.antt =====
-- The schedules of src/ddsleuth/trajectory.py: which orders, spacings, barriers, shifts and causal
-- mutations are tried with one semantic case.
pub mod Sameness
pub mod Enumerated
use ddsleuth.Prelude.{
  Bool, List, Option, String, [], any, concat_map, eq_int, false, if◌then◌else◌, map, none,
  permutations, pos, some, true, unique, ℤ, ◌&&◌, ◌++◌, ◌==◌, ◌∷◌,
}
use ddsleuth.Trajectory.Causal.{CausalActionMutation}

pub record TrajectoryDescriptor : Type 0 where
  pub order : List String
  pub spacing_ms : ℤ
  pub barrier_mode : String
  pub action_jitter_ms : ℤ
  pub boundary_offset_ms : ℤ
  pub causal_mutation : Option CausalActionMutation

abbrev pub control_of : List String → Option CausalActionMutation → TrajectoryDescriptor
control_of actors mutation = record {
  order = actors;
  spacing_ms = pos 0;
  barrier_mode = "preserve";
  action_jitter_ms = pos 0;
  boundary_offset_ms = pos 0;
  causal_mutation = mutation;
}

-- The generators over orders, spacings, jitters and boundary offsets.
pub grid :
    String → List (List String) → (spacings jitters offsets : List ℤ) → List TrajectoryDescriptor
grid mode orders spacings jitters offsets =
    concat_map
      (λ order.
        concat_map
          (λ spacing.
            concat_map
              (λ jitter.
                map
                  (λ offset. record {
                    order = order;
                    spacing_ms = spacing;
                    barrier_mode = mode;
                    action_jitter_ms = jitter;
                    boundary_offset_ms = offset;
                    causal_mutation = none;
                  })
                  offsets)
              jitters)
          spacings)
      orders

abbrev pub same_texts : List String → List String → Bool
same_texts [] [] = true
same_texts (x ∷ xs) (y ∷ ys) = x == y && same_texts xs ys
same_texts _ _ = false

abbrev pub same_mutation : CausalActionMutation → CausalActionMutation → Bool
same_mutation m n =
    m.actor == n.actor
    && (m.action_id == n.action_id
        && (m.anchor_action_id == n.anchor_action_id
            && (m.relation == n.relation
                && (m.operation == n.operation && m.anchor_operation == n.anchor_operation))))

abbrev pub same_optional : Option CausalActionMutation → Option CausalActionMutation → Bool
same_optional none none = true
same_optional (some m) (some n) = same_mutation m n
same_optional _ _ = false

-- Equality of the tuples that are the keys of `unique`.
abbrev pub same_descriptor : TrajectoryDescriptor → TrajectoryDescriptor → Bool
same_descriptor d e =
    same_texts d.order e.order
    && (eq_int d.spacing_ms e.spacing_ms
        && (d.barrier_mode == e.barrier_mode
            && (eq_int d.action_jitter_ms e.action_jitter_ms
                && (eq_int d.boundary_offset_ms e.boundary_offset_ms
                    && same_optional d.causal_mutation e.causal_mutation))))

abbrev has_mode : List String → String → Bool
has_mode modes mode = any (λ other. other == mode) modes

unfoldable pub schedule_descriptors :
    (actors : List String) (spacings : List ℤ) (modes : List String)
    → (jitters offsets : List ℤ) → List CausalActionMutation
    → List TrajectoryDescriptor
unfolding grid
schedule_descriptors actors spacings modes jitters offsets mutations = unique same_descriptor (
    control_of actors none
    ∷ ((if has_mode modes "preserve"
          then grid "preserve" (actors ∷ []) spacings jitters offsets
          else [])
        ++ ((if has_mode modes "relaxed"
              then grid "relaxed" (permutations actors) spacings jitters offsets
              else [])
            ++ map (λ mutation. control_of actors (some mutation)) mutations)))
