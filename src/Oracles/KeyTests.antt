-- ===== src/Oracles/KeyTests.antt =====
-- The theorems about the oracles of src/ddsleuth/oracles that follow keys, at concrete runs.
use ddsleuth.Evidence.{EvidenceBundle, create}
use ddsleuth.Json.{int, null, str}
use ddsleuth.Model.{Scenario, AssertionSpec, EvidenceEvent}
use ddsleuth.Model.EventKind.{
  application_write_attempt, key_rotated, endpoint_destroyed, application_sample_received,
  key_material_observed, value,
}
use ddsleuth.Prelude.{
  negsuc, none, ℤ, ◌*◌, ◌+◌, ◌<◌, ◌^◌, String, some, true, ℕ, ◌↔◌, pos, [], refl, ◌∷◌, ◌≡◌,
}
use ddsleuth.Samples.{recorded, asks, event, exits, scenario_with}
use ddsleuth.Oracles.Base.{pass, violation}
use ddsleuth.Fingerprints.{is_fingerprint}
use ddsleuth.Oracles.KeyScope.{filters_of, key_scope_separation}
use ddsleuth.Oracles.KeyScope.Keys.{CrossesScopes, SomeKey}
use ddsleuth.Oracles.KeyScope.Verdict.{key_scope_separation_verdict}
use ddsleuth.Oracles.TokenTransport.{crypto_token_transport_consistency}
use ddsleuth.Oracles.TokenTransport.Transport.{Consistent, Misrouted}
use ddsleuth.Oracles.TokenTransport.Verdict.{crypto_token_transport_consistency_verdict}
use ddsleuth.Oracles.EndpointLifecycle.{Filters, endpoint_key_lifecycle}
use ddsleuth.Oracles.EndpointLifecycle.Sides.{Renewed, Survives}
use ddsleuth.Oracles.EndpointLifecycle.Verdict.{endpoint_key_lifecycle_verdict}
use ddsleuth.Oracles.SessionRotation.{
  Parameters, next_session, read_parameters, session_rotation_delivery,
}
use ddsleuth.Oracles.SessionRotation.Transitions.{next_session_lem}
use ddsleuth.Oracles.SessionRotation.Verdict.{
  AllDelivered, EnoughRotations, SomeStuck, session_rotation_delivery_verdict,
}

abbrev experiment : Scenario
experiment = scenario_with []

abbrev separation : AssertionSpec
separation = asks "key_scope_separation" []

abbrev key_in_scope : String → EvidenceEvent
key_in_scope scope =
    event (value key_material_observed) "mallory" "observed"
      (("key_fingerprint", str "hmac-sha256-run-local-v1:ab") ∷ ("scope_id", str scope) ∷ [])

abbrev shared_key_run : EvidenceBundle
shared_key_run = recorded (key_in_scope "writer1" ∷ key_in_scope "writer2" ∷ exits)

key_scope_separation_verdict_example :
    let status = (key_scope_separation experiment separation shared_key_run).status in
    let filters = filters_of separation "scope_id" in
    ((status ≡ violation) ↔ CrossesScopes filters shared_key_run.events)
    × ((status ≡ pass)
        ↔ (SomeKey filters shared_key_run.events × (¬ CrossesScopes filters shared_key_run.events)))
key_scope_separation_verdict_example =
    key_scope_separation_verdict experiment separation shared_key_run "scope_id" refl refl refl refl

shared_key_violates : (key_scope_separation experiment separation shared_key_run).status ≡ violation
unfolding key_scope_separation create is_fingerprint
shared_key_violates = refl

abbrev transport : AssertionSpec
transport = asks "crypto_token_transport_consistency" []

abbrev token_on : String → String → EvidenceEvent
token_on phase endpoint = event (value key_material_observed) "bob" "observed" (
    ("observation_phase", str phase)
    ∷ ("key_fingerprint", str "hmac-sha256-run-local-v1:ab")
    ∷ ("token_class", str "datawriter")
    ∷ ("local_participant_guid", str "01")
    ∷ ("destination_participant_guid", str "02")
    ∷ ("destination_endpoint_guid", str endpoint)
    ∷ ("source_endpoint_guid", str "0103")
    ∷ [])

abbrev rebound_run : EvidenceBundle
rebound_run = recorded (token_on "generated" "0204" ∷ token_on "received" "0205" ∷ exits)

crypto_token_transport_consistency_verdict_example :
    let status = (crypto_token_transport_consistency experiment transport rebound_run).status in
    ((status ≡ violation) ↔ Misrouted null rebound_run.events)
    × ((status ≡ pass) ↔ Consistent null rebound_run.events true)
crypto_token_transport_consistency_verdict_example =
    crypto_token_transport_consistency_verdict experiment transport rebound_run true refl refl

rebound_violates :
    (crypto_token_transport_consistency experiment transport rebound_run).status ≡ violation
unfolding crypto_token_transport_consistency create is_fingerprint
rebound_violates = refl

abbrev recreation : AssertionSpec
recreation = asks "endpoint_key_lifecycle" (("actor", str "bob") ∷ [])

abbrev generated_key : EvidenceEvent
generated_key = event (value key_material_observed) "bob" "observed" (
    ("token_class", str "datawriter")
    ∷ ("endpoint_class", str "user")
    ∷ ("observation_phase", str "generated")
    ∷ ("key_fingerprint", str "hmac-sha256-run-local-v1:ab")
    ∷ [])

abbrev recreated_run : EvidenceBundle
recreated_run =
    recorded (
      generated_key ∷ event (value endpoint_destroyed) "bob" "succeeded" [] ∷ generated_key ∷ exits)

endpoint_key_lifecycle_verdict_example :
    let status = (endpoint_key_lifecycle experiment recreation recreated_run).status in
    let filters : Filters = record {
      actor = "bob";
      token_class = "datawriter";
      endpoint_class = "user";
      observation_phase = "generated";
    } in
    ((status ≡ violation) ↔ Survives filters recreated_run.events)
    × ((status ≡ pass) ↔ Renewed filters recreated_run.events)
endpoint_key_lifecycle_verdict_example =
    endpoint_key_lifecycle_verdict experiment recreation recreated_run "bob" "datawriter" "user"
      "generated" refl refl refl refl

recreated_violates : (endpoint_key_lifecycle experiment recreation recreated_run).status ≡ violation
unfolding endpoint_key_lifecycle create is_fingerprint
recreated_violates = refl

abbrev rotating : AssertionSpec
rotating = asks "session_rotation_delivery" (("writer", str "mallory") ∷ ("reader", str "bob") ∷ [])

abbrev rotated : ℤ → EvidenceEvent
rotated current = event (value key_rotated) "mallory" "rotated" (
    ("rotation_kind", str "session_key")
    ∷ ("context", str "serialized_payload")
    ∷ ("previous_session_id", int (pos 7))
    ∷ ("session_id", int current)
    ∷ [])

abbrev rotated_run : EvidenceBundle
rotated_run = recorded (
    event (value application_write_attempt) "mallory" "attempted"
      (("sample_index", int (pos 3)) ∷ [])
    ∷ rotated (pos 8)
    ∷ event (value application_sample_received) "bob" "received"
        (("sample_index", int (pos 3)) ∷ [])
    ∷ exits)

abbrev rotation_parameters : Parameters
rotation_parameters = record {
  writer = "mallory";
  reader = "bob";
  context = "serialized_payload";
  minimum_rotations = 1;
  max_blocks = none;
}

rotating-parameters : read_parameters experiment rotating ≡ some rotation_parameters
unfolding read_parameters
rotating-parameters = refl

session_rotation_delivery_verdict_example :
    let status = (session_rotation_delivery experiment rotating rotated_run).status in
    let p = rotation_parameters in
    let events = rotated_run.events in
    ((status ≡ violation) ↔ (EnoughRotations p events × SomeStuck p events))
    × ((status ≡ pass) ↔ (EnoughRotations p events × AllDelivered p events))
session_rotation_delivery_verdict_example =
    session_rotation_delivery_verdict experiment rotating rotated_run rotation_parameters
      rotating-parameters

rotated_passes : (session_rotation_delivery experiment rotating rotated_run).status ≡ pass
unfolding session_rotation_delivery create
rotated_passes = refl

next_session_lem_example :
    ((next_session (pos 4294967295) < 2 ^ 32)
      × ((q : ℕ) × (next_session (pos 4294967295) + q * 2 ^ 32 ≡ 4294967295 + 1)))
    × ((next_session (negsuc 4294967295) < 2 ^ 32)
        × ((q : ℕ) × (next_session (negsuc 4294967295) + 4294967295 ≡ q * 2 ^ 32)))
next_session_lem_example = next_session_lem 4294967295
