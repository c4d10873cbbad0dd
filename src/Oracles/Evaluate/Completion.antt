-- ===== src/Oracles/Evaluate/Completion.antt =====
-- When a run counts as complete in src/ddsleuth/oracles/evaluate.py, as a statement of its events.
use ddsleuth.Json.{Dict, as_int, get, insert}
use ddsleuth.Model.{EvidenceEvent, Scenario, is_kind}
use ddsleuth.Model.EventKind.{EventKind, execution_divergence, process_exit, value}
use ddsleuth.Oracles.Evaluate.{
  incomplete_processes, actors_of_kind, contains, exit_code, expected_processes, failed_processes,
}
use ddsleuth.Prelude.{
  any_iff, ap₂, keep, lt_str, non_empty-append, non_empty-keep, non_empty-map, non_empty-sorted_set,
  none_pass_iff, not, not-false, or-false, sym, ◌++◌, All, Bool, Bool-cases, List, Occurs, String,
  [], and-true, any, arith, eq_iff, false, inl, inr, non_empty, not_any_iff, refl, true, ℤ, ◌&&◌,
  ◌==◌, ◌||◌, ◌↔◌, ◌∙◌, ◌∷◌, ◌≡◌,
}

-- A process of the run exited with a failure.
pub record IsFailedExit (event : EvidenceEvent) : Type 0 where
  pub of_kind : event.kind ≡ value process_exit
  pub outcome : event.outcome ≡ "failed"

-- An event of the kind, by the actor.
pub record IsBy (k : EventKind) (actor : String) (event : EvidenceEvent) : Type 0 where
  pub of_kind : event.kind ≡ value k
  pub by : event.actor ≡ actor

abbrev pub IsOf : EventKind → EvidenceEvent → Type 0
IsOf k event = event.kind ≡ value k

-- No process failed, each process of the scenario exited, and no execution diverged.
pub record IsComplete (scenario : Scenario) (events : List EvidenceEvent) : Type 0 where
  pub none_failed : ¬ Occurs IsFailedExit events
  pub all_exited :
      All (λ actor. Occurs (IsBy process_exit actor) events) (expected_processes scenario.execution)
  pub none_diverged : ¬ Occurs (IsOf execution_divergence) events

abbrev failed_exit : EvidenceEvent → Bool
failed_exit event = is_kind event process_exit && event.outcome == "failed"

failed_exit_iff : (event : EvidenceEvent) → (failed_exit event ≡ true) ↔ IsFailedExit event
failed_exit_iff event = (
  λ h.
      let (k, o) = and-true _ _ h in
      record {
        of_kind = (eq_iff event.kind "process.exit").0 k;
        outcome = (eq_iff event.outcome "failed").0 o;
      },
  λ f. ground (arith, eq_iff event.kind "process.exit", eq_iff event.outcome "failed"),
)

non_empty-insert : (k : String) (n : ℤ) (d : Dict ℤ) → non_empty (insert k n d) ≡ true
non_empty-insert k n [] = refl
non_empty-insert k n ((j, m) ∷ d) = ground arith

-- The dictionary is filled exactly by the failed exits.
non_empty-failed :
    (events : List EvidenceEvent) (failed : Dict ℤ)
    → non_empty (failed_processes events failed) ≡ (non_empty failed || any failed_exit events)
unfolding failed_processes
non_empty-failed [] failed = ground arith
non_empty-failed (event ∷ events) failed = elim (Bool-cases (failed_exit event)) [
  | inl e ↦
      let code = exit_code (as_int (get event.attributes "exit_code")) in
      rw e (
        non_empty-failed events (insert event.actor code failed)
        ∙ (rw (non_empty-insert event.actor code failed) (ground (arith))))
  | inr e ↦ rw e (non_empty-failed events failed)
]

pub none_failed_iff :
    (events : List EvidenceEvent)
    → (non_empty (failed_processes events []) ≡ false) ↔ (¬ Occurs IsFailedExit events)
none_failed_iff events =
    rw (non_empty-failed events []) (not_any_iff failed_exit failed_exit_iff events)

module _ (k : EventKind) (actor : String) where
  abbrev by_actor : EvidenceEvent → Bool
  by_actor event = is_kind event k && event.actor == actor

  by_actor_iff : (event : EvidenceEvent) → (by_actor event ≡ true) ↔ IsBy k actor event
  by_actor_iff event = (
    λ h.
        let (kind, by) = and-true _ _ h in
        record {
          of_kind = (eq_iff event.kind (value k)).0 kind;
          by = (eq_iff event.actor actor).0 by;
        },
    λ b. ground (arith, eq_iff event.kind (value k), eq_iff event.actor actor),
  )

contains-actors :
    (k : EventKind) (events : List EvidenceEvent) (actor : String)
    → contains (actors_of_kind k events) actor
      ≡ any (λ event. is_kind event k && event.actor == actor) events
contains-actors k [] actor = refl
contains-actors k (event ∷ events) actor = elim (Bool-cases (is_kind event k)) [
  | inl e ↦ rw e (rw (contains-actors k events actor) refl)
  | inr e ↦ rw e (contains-actors k events actor)
]

contains_iff :
    (k : EventKind) (events : List EvidenceEvent) (actor : String)
    → (contains (actors_of_kind k events) actor ≡ true) ↔ Occurs (IsBy k actor) events
contains_iff k events actor =
    rw (contains-actors k events actor) (any_iff (by_actor k actor) (by_actor_iff k actor) events)

is_kind_iff : (k : EventKind) (event : EvidenceEvent) → (is_kind event k ≡ true) ↔ IsOf k event
is_kind_iff k event = eq_iff event.kind (value k)

module _ (scenario : Scenario) (events : List EvidenceEvent) where
  abbrev absent : String → Bool
  absent actor = not (contains (actors_of_kind process_exit events) actor)

  absent_iff : (actor : String) → (absent actor ≡ false) ↔ Occurs (IsBy process_exit actor) events
  absent_iff actor =
      let (into, back) = contains_iff process_exit events actor in
      (λ h. into (not-false _ h), λ o. rw (back o) refl)

  non_empty-incomplete : non_empty (incomplete_processes scenario events) ≡ (
      any absent (expected_processes scenario.execution)
      || any (λ event. is_kind event execution_divergence) events)
  unfolding incomplete_processes
  non_empty-incomplete =
      let expected = expected_processes scenario.execution in
      let diverged = keep (λ event. is_kind event execution_divergence) events in
      non_empty-sorted_set lt_str
        (keep absent expected ++ actors_of_kind execution_divergence events)
      ∙ non_empty-append (keep absent expected) (actors_of_kind execution_divergence events)
      ∙ ap₂ ◌||◌ (non_empty-keep absent expected) (
          non_empty-map (λ event. event.actor) diverged
          ∙ non_empty-keep (λ event. is_kind event execution_divergence) events)

  -- The run is complete exactly if both lists of the report are empty.
  pub IsComplete-iff :
      ((non_empty (failed_processes events []) ≡ false)
        × (non_empty (incomplete_processes scenario events) ≡ false))
      ↔ IsComplete scenario events
  IsComplete-iff =
      let exits = none_pass_iff absent absent_iff (expected_processes scenario.execution) in
      let divergence =
        not_any_iff (λ event. is_kind event execution_divergence) (is_kind_iff execution_divergence)
          events in
      (
        λ (failed, missing).
            let (exited, whole) = or-false _ _ (sym non_empty-incomplete ∙ missing) in
            record {
              none_failed = (none_failed_iff events).0 failed;
              all_exited = exits.0 exited;
              none_diverged = divergence.0 whole;
            },
        λ c. (
          (none_failed_iff events).1 c.none_failed,
          non_empty-incomplete ∙ rw (exits.1 c.all_exited) (divergence.1 c.none_diverged),
        ),
      )
