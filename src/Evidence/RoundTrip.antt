-- ===== src/Evidence/RoundTrip.antt =====
-- What `to_dict` writes, `from_dict` reads back: src/ddsleuth/evidence.py and
-- src/ddsleuth/models.py.
use ddsleuth.Prelude.{◌≡◌, refl, Option, none, some, List, [], ◌∷◌, ℤ, pos, negsuc, ok, arith}
use ddsleuth.Json.{of_fields-to_fields, of_items-to_items}
use ddsleuth.Model.{EvidenceEvent}
use ddsleuth.Evidence.{
  EvidenceBundle, event_from_dict, event_to_dict, events_of_values, event_values, bundle_from_dict,
  bundle_to_dict,
}

-- The time is None or not negative.
abbrev pub IsTime : Option ℤ → Type 0
IsTime none = Unit
IsTime (some (pos n)) = Unit
IsTime (some (negsuc n)) = ⊥

pub event_from_dict-event_to_dict :
    (event : EvidenceEvent)
    → IsTime event.monotonic_ns
    → event_from_dict (event_to_dict event) ≡ ok event
unfolding event_from_dict event_to_dict
event_from_dict-event_to_dict event h = ground (arith, of_fields-to_fields event.attributes)

abbrev pub HaveTimes : List EvidenceEvent → Type 0
HaveTimes [] = Unit
HaveTimes (event ∷ events) = IsTime event.monotonic_ns × HaveTimes events

events_of_values-event_values :
    (events : List EvidenceEvent)
    → HaveTimes events
    → events_of_values (event_values events) ≡ ok events
unfolding events_of_values event_values
events_of_values-event_values [] h = refl
events_of_values-event_values (event ∷ events) h = ground (
  arith,
  of_fields-to_fields (event_to_dict event),
  event_from_dict-event_to_dict event h.0,
  events_of_values-event_values events h.1,
)

-- A bundle in the format of version 1 is read back whole.
pub bundle_from_dict-bundle_to_dict :
    (bundle : EvidenceBundle)
    → bundle.schema_version ≡ pos 1
    → HaveTimes bundle.events
    → bundle_from_dict (bundle_to_dict bundle) ≡ ok bundle
unfolding bundle_from_dict bundle_to_dict
bundle_from_dict-bundle_to_dict bundle version times = ground (
  arith,
  of_fields-to_fields bundle.metadata,
  of_items-to_items (event_values bundle.events),
  events_of_values-event_values bundle.events times,
)
