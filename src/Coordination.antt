-- ===== src/Coordination.antt =====
-- The waiting of src/ddsleuth/coordination.py: a role starts once its barriers are met by events of
-- the logs. A poll of the logs and of the processes is given by what it observed.
pub mod Monitor
pub mod Waiting
pub mod Exited
pub mod Released
mod Tests
mod MonitorTests
use ddsleuth.Json.{Dict, JsonValue, end, equals_str, get, get_or, obj, of_fields}
use ddsleuth.Json.Equality.{equals}
use ddsleuth.Model.{EventBarrier}
use ddsleuth.Model.EventKind.{value}
use ddsleuth.Prelude.{
  Bool, List, Option, String, [], any, concat, false, if◌then◌else◌, keep, map, non_empty, none,
  not, some, sorted_texts, true, ◌&&◌, ◌==◌, ◌||◌, ◌∷◌,
}

-- An event that the monitor read: a dict with the actor and the source filled in.
abbrev pub LogEvent : Type 0
LogEvent = Dict JsonValue

abbrev pub differs_from : Option String → JsonValue → Bool
differs_from none v = false
differs_from (some s) v = not (equals_str v s)

abbrev pub all_equal : Dict JsonValue → Dict JsonValue → Bool
all_equal attributes [] = true
all_equal attributes ((name, value) ∷ wanted) =
    equals (get attributes name) value && all_equal attributes wanted

abbrev pub has_attributes : JsonValue → Dict JsonValue → Bool
has_attributes (obj fields) wanted = all_equal (of_fields fields) wanted
has_attributes _ wanted = false

-- `_matches`
abbrev pub matches : LogEvent → EventBarrier → Bool
matches event barrier =
    if not (equals_str (get event "actor") barrier.actor)
      || not (equals_str (get event "kind") barrier.kind)
    then false
    else if differs_from barrier.outcome (get event "outcome")
    then false
    else has_attributes (get_or event "attributes" (obj end)) barrier.attributes

abbrev pub is_met : List LogEvent → EventBarrier → Bool
is_met events barrier = any (λ event. matches event barrier) events

abbrev pub pending : List LogEvent → List EventBarrier → List EventBarrier
pending events barriers = keep (λ barrier. not (is_met events barrier)) barriers

-- What one round of the loop observes: the events so far, the actors whose processes have exited,
-- and whether the deadline is over.
pub record Observed : Type 0 where
  pub events : List LogEvent
  pub exited : List String
  pub expired : Bool

pub data Waited : Type 0 where
  released : Waited
  sources_exited : List String → Waited
  timed_out : List String → Waited
  -- The observations are over and the loop is not.
  still_waiting : List EventBarrier → Waited

abbrev pub has_exited : List String → EventBarrier → Bool
has_exited exited barrier = any (λ actor. actor == barrier.actor) exited

abbrev pub failed_sources : List String → List EventBarrier → List String
failed_sources exited barriers =
    sorted_texts (map (λ (b : EventBarrier). b.actor) (keep (has_exited exited) barriers))

abbrev pub descriptions : List EventBarrier → List String
descriptions barriers = map (λ (b : EventBarrier). concat b.actor (concat ":" b.kind)) barriers

-- `wait_for_barriers`, with the observations of its rounds in their order
unfoldable pub wait_for_barriers : List EventBarrier → List Observed → Waited
wait_for_barriers [] observations = released
wait_for_barriers (b ∷ barriers) [] = still_waiting (b ∷ barriers)
wait_for_barriers (b ∷ barriers) (o ∷ observations) =
    let open_barriers = pending o.events (b ∷ barriers) in
    let failed = failed_sources o.exited open_barriers in
    let further = wait_for_barriers open_barriers observations in
    if not (non_empty open_barriers)
    then released
    else if non_empty failed
    then sources_exited failed
    else if o.expired
    then timed_out (descriptions open_barriers)
    else further
