-- ===== src/Semantics.antt =====
-- src/ddsleuth/semantics.py: what the declared policy permits, and what an event is about.
pub mod Glob
pub mod Permissions
mod Tests
use ddsleuth.Prelude.{
  ℕ, String, Bool, true, false, not, Option, none, some, List, [], ◌∷◌, map, any, keep, eq_nat,
  length, ◌==◌, if◌then◌else◌,
}
use ddsleuth.Json.{JsonValue, str, Dict, lookup, get}
use ddsleuth.Model.{EvidenceEvent, Scenario, ParticipantSpec}
use Glob.{fnmatchcase, codes}

abbrev operations : Dict String
operations =
    ("publish", "publish")
    ∷ ("create_datawriter", "publish")
    ∷ ("write", "publish")
    ∷ ("subscribe", "subscribe")
    ∷ ("create_datareader", "subscribe")
    ∷ ("read", "subscribe")
    ∷ []

unfoldable pub normalize_operation : String → Option String
normalize_operation operation = lookup operation operations

-- `mapping.get(key, ())`
abbrev pub or_empty : Option (List String) → List String
or_empty none = []
or_empty (some values) = values

abbrev resources_of : Option ParticipantSpec → Option String → List String
resources_of (some participant) (some permission) =
    or_empty (lookup permission participant.permissions)
resources_of none permission = []
resources_of (some participant) none = []

unfoldable pub permitted_resources : Scenario → String → String → List String
unfolding normalize_operation
permitted_resources scenario actor operation =
    resources_of (lookup actor scenario.participants) (normalize_operation operation)

-- Both early returns of the source answer False, as `any` does on no expression.
abbrev permits : Option ParticipantSpec → Option String → String → Bool
permits (some participant) (some permission) resource =
    any (λ expression. fnmatchcase resource expression)
      (or_empty (lookup permission participant.permissions))
permits none permission resource = false
permits (some participant) none resource = false

unfoldable pub is_permitted : Scenario → String → String → String → Bool
unfolding normalize_operation
is_permitted scenario actor operation resource =
    permits (lookup actor scenario.participants) (normalize_operation operation) resource

-- A text that is there and not empty.
abbrev pub named_value : JsonValue → Option String
named_value (str s) = if s == "" then none else some s
named_value _ = none

abbrev or_else : Option String → Option String → Option String
or_else none other = other
or_else (some s) other = some s

abbrev is_wildcard : ℕ → Bool
is_wildcard c = if eq_nat c b'*' then true else if eq_nat c b'?' then true else eq_nat c b'['

abbrev is_concrete : String → Bool
is_concrete value = not (any is_wildcard (codes value))

-- The only element, if there is exactly one.
abbrev only : List String → Option String
only (s ∷ []) = some s
only _ = none

unfoldable pub event_resource : Scenario → EvidenceEvent → String → Option String
unfolding permitted_resources
event_resource scenario event operation = or_else (named_value (get event.attributes "resource")) (
    or_else (named_value (get event.attributes "topic")) (
      or_else (named_value (get event.attributes "topic_name")) (
        or_else (only (map (λ entry. entry.0) scenario.topics))
          (only (keep is_concrete (permitted_resources scenario event.actor operation))))))

abbrev candidates_of : Scenario → Option (List String) → List String
candidates_of scenario none = map (λ entry. entry.0) scenario.topics
candidates_of scenario (some resources) = resources

unfoldable pub actor_has_any_permission : Scenario → String → String → Option (List String) → Bool
unfolding is_permitted
actor_has_any_permission scenario actor operation resources =
    any (λ resource. is_permitted scenario actor operation resource)
      (candidates_of scenario resources)
