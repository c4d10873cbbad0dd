-- ===== src/Oracles/EndpointLifecycle/Sides.antt =====
-- The keys on both sides of a destruction in src/ddsleuth/oracles/endpoint_lifecycle.py.
use ddsleuth.Model.{AssertionSpec, EvidenceEvent}
use ddsleuth.Oracles.Base.{pass, violation}
use ddsleuth.Oracles.EndpointLifecycle.{Filters, Observation, common, compare_sides, post, pre}
use ddsleuth.Oracles.EndpointLifecycle.Boundaries.{OnlyBoundary}
use ddsleuth.Oracles.EndpointLifecycle.Keys.{
  SeenAfter, SeenAfter_of_mem, SeenBefore, SeenBefore_of_mem, mem_of_SeenAfter, mem_of_SeenBefore,
  observations,
}
use ddsleuth.Prelude.{
  List, String, [], any, any_of_mem, eq_iff, eq_refl, false, first_of_non_empty, keep_of_mem,
  mem_of_any, mem_of_keep, non_empty, non_empty_of_mem, refl, true, ℕ, ℤ, ◌==◌, ◌↔◌, ◌∷◌, ◌≡◌,
}

-- One key of the actor was seen on both sides of its only destruction of an endpoint.
pub record Survives (filters : Filters) (events : List EvidenceEvent) : Type 0 where
  pub at : ℕ
  pub boundary_there : OnlyBoundary filters.actor events at
  pub fingerprint : String
  pub before : SeenBefore filters events at fingerprint
  pub after : SeenAfter filters events at fingerprint

-- Keys were seen on both sides of the only destruction, and none on both.
pub record Renewed (filters : Filters) (events : List EvidenceEvent) : Type 0 where
  pub at : ℕ
  pub boundary_there : OnlyBoundary filters.actor events at
  pub one : String
  pub one_before : SeenBefore filters events at one
  pub other : String
  pub other_after : SeenAfter filters events at other
  pub none_survives :
      (fingerprint : String)
      → SeenBefore filters events at fingerprint
      → ¬ SeenAfter filters events at fingerprint

module _ (filters : Filters) (events : List EvidenceEvent) (at : ℕ) where
  abbrev pub earlier : List String
  earlier = pre at (observations filters events)

  abbrev pub later : List String
  later = post at (observations filters events)

  pub in_common :
      (fingerprint : String)
      → SeenBefore filters events at fingerprint
      → SeenAfter filters events at fingerprint
      → non_empty (common earlier later) ≡ true
  in_common fingerprint b a = non_empty_of_mem (
      keep_of_mem (λ x. any (λ y. y == x) later) earlier
        (mem_of_SeenBefore filters events at fingerprint b)
        (any_of_mem (λ y. y == fingerprint) later (mem_of_SeenAfter filters events at fingerprint a)
          (eq_refl fingerprint)))

  pub of_common :
      non_empty (common earlier later) ≡ true
      → (fingerprint : String) × SeenBefore filters events at fingerprint
        × SeenAfter filters events at fingerprint
  of_common h =
      let (x, m) = first_of_non_empty (common earlier later) h in
      let (there, found) = mem_of_keep (λ x. any (λ y. y == x) later) earlier m in
      let (y, y_there, same) = mem_of_any (λ y. y == x) later found in
      (
        x,
        SeenBefore_of_mem filters events at x there,
        SeenAfter_of_mem filters events at x (rw ((eq_iff y x).0 same) at y_there),
      )

module _ (assertion : AssertionSpec) (filters : Filters) (sequence : ℤ) (seen : List Observation)
    (before after : List String) where
  pub compare_iff :
      (reused : List String)
      → let status = (compare_sides assertion filters sequence seen before after reused).status in
        ((status ≡ violation) ↔ (non_empty reused ≡ true))
        × ((status ≡ pass) ↔ (non_empty reused ≡ false))
  unfolding compare_sides
  compare_iff [] = ((λ h. cc, λ h. cc), (λ h. refl, λ h. refl))
  compare_iff (x ∷ reused) = ((λ h. refl, λ h. refl), (λ h. cc, λ h. cc))
