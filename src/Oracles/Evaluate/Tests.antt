-- ===== src/Oracles/Evaluate/Tests.antt =====
-- The theorems about src/ddsleuth/oracles/evaluate.py at a concrete run.
use ddsleuth.Evidence.{EvidenceBundle}
use ddsleuth.Json.{bool, int, null, str}
use ddsleuth.Model.{Scenario, AssertionSpec, EvidenceEvent}
use ddsleuth.Model.EventKind.{application_sample_received, crypto_token_observed, value}
use ddsleuth.Oracles.Evaluate.{EvaluationReport, evaluate}
use ddsleuth.Prelude.{List, true, Occurs, ◌↔◌, pos, [], ok, refl, ◌∷◌, ◌≡◌}
use ddsleuth.Samples.{recorded, asks, event, exits, scenario_with}
use ddsleuth.Oracles.Base.{violation}
use ddsleuth.Oracles.Evaluate.Guards.{IsCanonical}
use ddsleuth.Oracles.Evaluate.Verdict.{evaluate_accepts}
use ddsleuth.Oracles.Evaluate.Capabilities.{assess}
use ddsleuth.Oracles.Evaluate.Capabilities.Levels.{
  LosesAvailability, LosesConfidentiality, LosesIntegrity, assess_levels,
}
use ddsleuth.Semantics.{event_resource, is_permitted}

abbrev binding : AssertionSpec
binding = asks "crypto_token_recipient_binding" []

abbrev misrouted_token : EvidenceEvent
misrouted_token =
    event (value crypto_token_observed) "mallory" "observed"
      (("local_participant_guid", str "01.0f") ∷ ("destination_participant_guid", str "02.0f") ∷ [])

abbrev misrouted_run : EvidenceBundle
misrouted_run = recorded (misrouted_token ∷ exits)

-- The report on the run in which mallory observed bob's token.
abbrev misrouted_report : EvaluationReport
misrouted_report = record {
  schema_version = pos 1;
  scenario_id = "s1";
  scenario_digest = "d1";
  run_id = "r1";
  verdict = "violation";
  failed_processes = [];
  incomplete_processes = [];
  oracle_results =
      record {
        assertion_id = "a1";
        oracle = "crypto_token_recipient_binding";
        status = violation;
        summary = "mallory observed a plaintext CryptoToken addressed to a different participant";
        evidence_events = pos 0 ∷ [];
        details =
            ("observer", str "mallory")
            ∷ ("local_participant_guid", str "01.0f")
            ∷ ("destination_participant_guid", str "02.0f")
            ∷ ("destination_endpoint_guid", null)
            ∷ ("source_endpoint_guid", null)
            ∷ ("first_violation_event", int (pos 0))
            ∷ [];
      }
      ∷ [];
  capabilities = record {
    confidentiality = "not_demonstrated";
    integrity = "not_demonstrated";
    availability = "not_demonstrated";
    evidence_events = ("confidentiality", []) ∷ ("integrity", []) ∷ ("availability", []) ∷ [];
  };
}

abbrev experiment : Scenario
experiment = scenario_with (binding ∷ [])

evaluate_accepts_example :
    ((report : EvaluationReport) × (evaluate experiment misrouted_run ≡ ok report))
    ↔ IsCanonical experiment misrouted_run
evaluate_accepts_example = evaluate_accepts experiment misrouted_run

-- mallory, who may not subscribe, received a sample of the topic.
abbrev leaked_events : List EvidenceEvent
leaked_events =
    event (value application_sample_received) "mallory" "received"
      (("topic", str "SecretTopic") ∷ ("attacker_controlled", bool true) ∷ [])
    ∷ []

assess_levels_example :
    let capabilities = assess experiment leaked_events in
    (((capabilities.confidentiality ≡ "high")
        ↔ Occurs (LosesConfidentiality experiment) leaked_events)
      × ((capabilities.confidentiality ≡ "not_demonstrated")
          ↔ (¬ Occurs (LosesConfidentiality experiment) leaked_events)))
    × (((capabilities.integrity ≡ "high") ↔ Occurs LosesIntegrity leaked_events)
        × ((capabilities.integrity ≡ "not_demonstrated") ↔ (¬ Occurs LosesIntegrity leaked_events)))
    × (((capabilities.availability ≡ "high") ↔ Occurs LosesAvailability leaked_events)
        × ((capabilities.availability ≡ "not_demonstrated")
            ↔ (¬ Occurs LosesAvailability leaked_events)))
assess_levels_example = assess_levels experiment leaked_events

leaked_is_high : (assess experiment leaked_events).confidentiality ≡ "high"
unfolding assess event_resource is_permitted
leaked_is_high = refl
