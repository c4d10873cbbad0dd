-- ===== src/Oracles/Evaluate/Verdict.antt =====
-- The verdict of `evaluate` in src/ddsleuth/oracles/evaluate.py: a violation comes before
-- everything that makes a run inconclusive, though docs/EVALUATION_PROTOCOL.md puts it behind.
use ddsleuth.Evidence.{EvidenceBundle}
use ddsleuth.Model.{AssertionSpec, Scenario}
use ddsleuth.Oracles.Base.{OracleStatus, pass, same_status}
use ddsleuth.Oracles.Evaluate.{
  EvaluateError, report_of, EvaluationReport, evaluate, evaluate_assertion, failed_processes,
  incomplete_processes,
}
use ddsleuth.Prelude.{
  Result, err, ◌>>◌, Bool, String, [], if◌then◌else◌, non_empty, ok, refl, ◌↔◌, ◌≡◌,
}
use ddsleuth.Oracles.Evaluate.Guards.{check_evidence_iff, IsCanonical}

chosen : Bool → Bool → Bool → String
chosen some_violation incomplete some_undecided =
    if some_violation
    then "violation"
    else if incomplete
    then "inconclusive"
    else if some_undecided
    then "inconclusive"
    else "pass"

then_ok :
    (m : Result EvaluateError (Unit {0})) (r r' : EvaluationReport)
    → (m >> ok r) ≡ ok r'
    → (m ≡ ok tt) × (r ≡ r')
then_ok (ok tt) r r' h = (refl, cc)
then_ok (err e) r r' h = cc

-- `evaluate` returns a report exactly on canonical evidence of the scenario: of its id, revision
-- and implementation, the events numbered by their positions, each by a participant and of the
-- scenario's implementation. On all other evidence it raises.
pub evaluate_accepts :
    (scenario : Scenario) (evidence : EvidenceBundle)
    → ((report : EvaluationReport) × (evaluate scenario evidence ≡ ok report))
      ↔ IsCanonical scenario evidence
unfolding evaluate
evaluate_accepts scenario evidence = (
  λ (report, h). (check_evidence_iff scenario evidence).0 (then_ok _ _ _ h).0,
  λ c. (report_of scenario evidence, rw ((check_evidence_iff scenario evidence).1 c) refl),
)

module _ (scenario : Scenario) (evidence : EvidenceBundle) where
  abbrev status_of : AssertionSpec → OracleStatus
  status_of assertion = (evaluate_assertion scenario evidence assertion).status

  abbrev Passes : AssertionSpec → Type 0
  Passes assertion = status_of assertion ≡ pass

  abbrev is_status : OracleStatus → AssertionSpec → Bool
  is_status wanted assertion = same_status (status_of assertion) wanted

  abbrev failed : Bool
  failed = non_empty (failed_processes evidence.events [])

  abbrev missing : Bool
  missing = non_empty (incomplete_processes scenario evidence.events)
