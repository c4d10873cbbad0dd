-- ===== src/Oracles/Evaluate.antt =====
-- src/ddsleuth/oracles/evaluate.py: the checks of a run's evidence against its scenario, the
-- results of all assertions and the verdict. A `raise ValueError` is a constructor of
-- `EvaluateError` with the values that its message shows.
pub mod Capabilities
pub mod Completion
pub mod Guards
pub mod Verdict
mod Tests
use ddsleuth.Oracles.RecipientBinding
use ddsleuth.Oracles.Authorization
use ddsleuth.Oracles.Impersonation
use ddsleuth.Oracles.KeyScope
use ddsleuth.Oracles.Lifecycle
use ddsleuth.Oracles.PolicyConsistency
use ddsleuth.Oracles.TokenTransport
use ddsleuth.Oracles.ObserverHealth
use ddsleuth.Oracles.EndpointLifecycle
use ddsleuth.Oracles.SessionRotation
use ddsleuth.Evidence.{EvidenceBundle}
use ddsleuth.Json.{Dict, as_int, get, insert, lookup}
use ddsleuth.Model.{AssertionSpec, EvidenceEvent, ExecutionSpec, RoleCommand, Scenario, is_kind}
use ddsleuth.Model.EventKind.{EventKind, execution_divergence, process_exit}
use ddsleuth.Oracles.Authorization.{unauthorized_key_disclosure}
use ddsleuth.Oracles.Base.{
  OracleResult, OracleStatus, not_applicable, same_status, undecided, violation,
}
use ddsleuth.Oracles.EndpointLifecycle.{endpoint_key_lifecycle}
use ddsleuth.Oracles.Evaluate.Capabilities.{CapabilityAssessment, assess}
use ddsleuth.Oracles.Impersonation.{application_writer_impersonation}
use ddsleuth.Oracles.KeyScope.{key_scope_separation}
use ddsleuth.Oracles.Lifecycle.{revoked_authority_reuse}
use ddsleuth.Oracles.ObserverHealth.{observer_health}
use ddsleuth.Oracles.PolicyConsistency.{policy_authorization_consistency}
use ddsleuth.Oracles.RecipientBinding.{recipient_binding}
use ddsleuth.Oracles.SessionRotation.{session_rotation_delivery}
use ddsleuth.Oracles.TokenTransport.{crypto_token_transport_consistency}
use ddsleuth.Prelude.{
  ◌>>◌, ◌>>=◌, Bool, List, Option, Result, String, [], any, eq_int, err, false, if◌then◌else◌, keep,
  map, negsuc, non_empty, none, not, ok, pos, some, sorted_texts, suc, true, ℕ, ℤ, ◌&&◌, ◌++◌, ◌==◌,
  ◌||◌, ◌∷◌,
}
use ddsleuth.Samples.{event, execution, role}

pub data EvaluateError : Type 0 where
  scenario_mismatch : (evidence_id scenario_id : String) → EvaluateError
  different_revision : EvaluateError
  implementation_mismatch : EvaluateError
  event_implementation_mismatch : ℕ → EvaluateError
  unknown_actor : ℕ → String → EvaluateError
  non_canonical_sequence : ℕ → EvaluateError

pub record EvaluationReport : Type 0 where
  pub schema_version : ℤ
  pub scenario_id : String
  pub scenario_digest : String
  pub run_id : String
  pub verdict : String
  pub failed_processes : Dict ℤ
  pub incomplete_processes : List String
  pub oracle_results : List OracleResult
  pub capabilities : CapabilityAssessment

abbrev pub Oracle : Type 0
Oracle = Scenario → AssertionSpec → EvidenceBundle → OracleResult

-- `_ORACLES`
pub registry : Dict Oracle
unfolding recipient_binding unauthorized_key_disclosure application_writer_impersonation
    key_scope_separation revoked_authority_reuse policy_authorization_consistency
    crypto_token_transport_consistency observer_health endpoint_key_lifecycle
    session_rotation_delivery
registry =
    (RecipientBinding.name, recipient_binding)
    ∷ (Authorization.name, unauthorized_key_disclosure)
    ∷ (Impersonation.name, application_writer_impersonation)
    ∷ (KeyScope.name, key_scope_separation)
    ∷ (Lifecycle.name, revoked_authority_reuse)
    ∷ (PolicyConsistency.name, policy_authorization_consistency)
    ∷ (TokenTransport.name, crypto_token_transport_consistency)
    ∷ (ObserverHealth.name, observer_health)
    ∷ (EndpointLifecycle.name, endpoint_key_lifecycle)
    ∷ (SessionRotation.name, session_rotation_delivery)
    ∷ []

abbrev pub require : Bool → EvaluateError → Result EvaluateError (Unit {0})
require true error = ok tt
require false error = err error

-- `event.sequence == index`
abbrev pub has_sequence : Option ℤ → ℕ → Bool
has_sequence none index = false
has_sequence (some n) index = eq_int n (pos index)

abbrev pub is_known {ℓ} : {V : Type ℓ} → Option V → Bool
is_known none = false
is_known (some _) = true

pub check_events : Scenario → ℕ → List EvidenceEvent → Result EvaluateError (Unit {0})
check_events scenario index [] = ok tt
check_events scenario index (event ∷ events) = do
  require (event.implementation == scenario.implementation) (event_implementation_mismatch index)
  require (is_known (lookup event.actor scenario.participants)) (unknown_actor index event.actor)
  require (has_sequence event.sequence index) (non_canonical_sequence index)
  check_events scenario (suc index) events

pub check_evidence : Scenario → EvidenceBundle → Result EvaluateError (Unit {0})
unfolding check_events
check_evidence scenario evidence = do
  require (evidence.scenario_id == scenario.scenario_id)
      (scenario_mismatch evidence.scenario_id scenario.scenario_id)
  require (evidence.scenario_digest == scenario.digest) different_revision
  require (evidence.implementation == scenario.implementation) implementation_mismatch
  check_events scenario 0 evidence.events

abbrev apply_oracle : Option Oracle → Scenario → AssertionSpec → EvidenceBundle → OracleResult
apply_oracle none scenario assertion evidence =
    undecided assertion assertion.oracle "No oracle implementation is registered" []
apply_oracle (some oracle) scenario assertion evidence = oracle scenario assertion evidence

pub evaluate_assertion : Scenario → EvidenceBundle → AssertionSpec → OracleResult
unfolding registry
evaluate_assertion scenario evidence assertion =
    apply_oracle (lookup assertion.oracle registry) scenario assertion evidence

-- The exit code of a failed process, or -1 where none is recorded.
abbrev exit_code : Option ℤ → ℤ
exit_code none = negsuc 0
exit_code (some code) = code

pub failed_processes : List EvidenceEvent → Dict ℤ → Dict ℤ
failed_processes [] failed = failed
failed_processes (event ∷ events) failed = failed_processes events (
    if is_kind event process_exit && event.outcome == "failed"
    then insert event.actor (exit_code (as_int (get event.attributes "exit_code"))) failed
    else failed)

abbrev pub actors_of_kind : EventKind → List EvidenceEvent → List String
actors_of_kind k events =
    map (λ (event : EvidenceEvent). event.actor)
      (keep (λ (event : EvidenceEvent). is_kind event k) events)

abbrev pub expected_processes : Option ExecutionSpec → List String
expected_processes none = []
expected_processes (some execution) = map (λ (role : RoleCommand). role.actor) execution.roles

abbrev pub contains : List String → String → Bool
contains xs x = any (λ y. y == x) xs

-- `sorted((expected - exited) | diverged)`
pub incomplete_processes : Scenario → List EvidenceEvent → List String
incomplete_processes scenario events = sorted_texts (
    keep (λ actor. not (contains (actors_of_kind process_exit events) actor))
      (expected_processes scenario.execution)
    ++ actors_of_kind execution_divergence events)

abbrev pub has_status : OracleStatus → List OracleResult → Bool
has_status status results =
    any (λ (result : OracleResult). same_status result.status status) results

-- The order of the tests: a violation outweighs an incomplete run, which outweighs an assertion
-- that does not apply.
pub verdict_of : List OracleResult → Bool → Bool → String
verdict_of results has_failed has_incomplete =
    if has_status violation results
    then "violation"
    else if has_failed || has_incomplete
    then "inconclusive"
    else if has_status not_applicable results
    then "inconclusive"
    else "pass"

-- The report on evidence that passed the checks.
pub report_of : Scenario → EvidenceBundle → EvaluationReport
unfolding verdict_of evaluate_assertion failed_processes incomplete_processes assess
report_of scenario evidence =
    let results = map (evaluate_assertion scenario evidence) scenario.assertions in
    let failed = failed_processes evidence.events [] in
    let missing = incomplete_processes scenario evidence.events in
    record {
      schema_version = pos 1;
      scenario_id = scenario.scenario_id;
      scenario_digest = scenario.digest;
      run_id = evidence.run_id;
      verdict = verdict_of results (non_empty failed) (non_empty missing);
      failed_processes = failed;
      incomplete_processes = missing;
      oracle_results = results;
      capabilities = assess scenario evidence.events;
    }

unfoldable pub evaluate : Scenario → EvidenceBundle → Result EvaluateError EvaluationReport
unfolding check_evidence report_of
evaluate scenario evidence = do check_evidence scenario evidence; ok (report_of scenario evidence)
