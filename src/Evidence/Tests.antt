-- ===== src/Evidence/Tests.antt =====
-- The theorems about src/ddsleuth/evidence.py at concrete events.
use ddsleuth.Evidence.{EvidenceBundle, bundle_from_dict, bundle_to_dict, create}
use ddsleuth.Evidence.RoundTrip.{bundle_from_dict-bundle_to_dict}
use ddsleuth.Evidence.Sequencing.{AreNumbered, create_events, forget_all}
use ddsleuth.Json.{arr, cons, int, nil, str}
use ddsleuth.Model.{EvidenceEvent}
use ddsleuth.Prelude.{[], none, ok, pos, refl, some, ◌∷◌, ◌≡◌}

abbrev sent : EvidenceEvent
sent = record {
  kind = "network.packet_sent";
  actor = "bob";
  implementation = "fastdds";
  outcome = "succeeded";
  attributes = ("bytes", int (pos 64)) ∷ ("route", arr (cons (str "a") nil)) ∷ [];
  source = some "bob.log";
  sequence = none;
  monotonic_ns = some (pos 5);
}

abbrev bundle : EvidenceBundle
bundle = record {
  schema_version = pos 1;
  run_id = "r1";
  scenario_id = "s1";
  scenario_digest = "d1";
  implementation = "fastdds";
  events = sent ∷ sent ∷ [];
  metadata = ("host", str "h") ∷ [];
}

bundle_from_dict-bundle_to_dict_example : bundle_from_dict (bundle_to_dict bundle) ≡ ok bundle
bundle_from_dict-bundle_to_dict_example = bundle_from_dict-bundle_to_dict bundle refl (tt, (tt, tt))

create_events_example :
    AreNumbered 0 (create "r1" "s1" "d1" "fastdds" (sent ∷ sent ∷ []) none).events
    × (forget_all (create "r1" "s1" "d1" "fastdds" (sent ∷ sent ∷ []) none).events
        ≡ forget_all (sent ∷ sent ∷ []))
create_events_example = create_events "r1" "s1" "d1" "fastdds" (sent ∷ sent ∷ []) none
