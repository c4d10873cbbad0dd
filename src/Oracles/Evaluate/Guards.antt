-- ===== src/Oracles/Evaluate/Guards.antt =====
-- Which evidence `evaluate` of src/ddsleuth/oracles/evaluate.py accepts.
use ddsleuth.Evidence.{EvidenceBundle}
use ddsleuth.Evidence.Sequencing.{AreNumbered}
use ddsleuth.Json.{lookup}
use ddsleuth.Model.{EvidenceEvent, Scenario}
use ddsleuth.Oracles.Evaluate.{
  EvaluateError, check_events, check_evidence, has_sequence, is_known, require,
}
use ddsleuth.Prelude.{
  Bool, List, Option, Result, [], ap, eq_iff, eq_int_iff, false, none, ok, pos, refl, some, suc,
  true, ℕ, ℤ, ◌==◌, ◌>>◌, ◌↔◌, ◌∷◌, ◌≡◌,
}

-- An event of the scenario's implementation, by one of its participants.
pub record BelongsTo (scenario : Scenario) (event : EvidenceEvent) : Type 0 where
  pub implementation : event.implementation ≡ scenario.implementation
  pub actor : is_known (lookup event.actor scenario.participants) ≡ true

abbrev pub AllBelong : Scenario → List EvidenceEvent → Type 0
AllBelong scenario [] = Unit
AllBelong scenario (event ∷ events) = BelongsTo scenario event × AllBelong scenario events

-- Evidence of this revision of the scenario, its events numbered by their positions.
pub record IsCanonical (scenario : Scenario) (evidence : EvidenceBundle) : Type 0 where
  pub id : evidence.scenario_id ≡ scenario.scenario_id
  pub digest : evidence.scenario_digest ≡ scenario.digest
  pub implementation : evidence.implementation ≡ scenario.implementation
  pub numbered : AreNumbered 0 evidence.events
  pub belong : AllBelong scenario evidence.events

require_ok :
    {B : Type 0} (b : Bool) (error : EvaluateError) (k : Result EvaluateError B) {r : B}
    → (require b error >> k) ≡ ok r
    → (b ≡ true) × (k ≡ ok r)
require_ok true error k h = (refl, h)
require_ok false error k h = cc

has_sequence_eq : (o : Option ℤ) (n : ℕ) → has_sequence o n ≡ true → o ≡ some (pos n)
has_sequence_eq none n h = cc
has_sequence_eq (some m) n h = ap some ((eq_int_iff m (pos n)).0 h)

has_sequence_self : (n : ℕ) → has_sequence (some (pos n)) n ≡ true
has_sequence_self n = (eq_int_iff (pos n) (pos n)).1 refl

module _ (scenario : Scenario) where
  check_events_sound :
      (index : ℕ) (events : List EvidenceEvent)
      → check_events scenario index events ≡ ok tt
      → AreNumbered index events × AllBelong scenario events
  unfolding check_events
  check_events_sound index [] h = (tt, tt)
  check_events_sound index (event ∷ events) h =
      let (i, h') = require_ok (event.implementation == scenario.implementation) _ _ h in
      let (a, h'') = require_ok (is_known (lookup event.actor scenario.participants)) _ _ h' in
      let (s, rest) = require_ok (has_sequence event.sequence index) _ _ h'' in
      let (numbered, belong) = check_events_sound (suc index) events rest in
      (
        (has_sequence_eq event.sequence index s, numbered),
        (
          record {
            implementation = (eq_iff event.implementation scenario.implementation).0 i;
            actor = a;
          },
          belong,
        ),
      )

  check_events_complete :
      (index : ℕ) (events : List EvidenceEvent)
      → AreNumbered index events
      → AllBelong scenario events
      → check_events scenario index events ≡ ok tt
  unfolding check_events
  check_events_complete index [] n b = refl
  check_events_complete index (event ∷ events) (n, ns) (b, bs) =
      let i = (eq_iff event.implementation scenario.implementation).1 b.implementation in
      rw i (
        rw b.actor
          (rw n (rw (has_sequence_self index) (check_events_complete (suc index) events ns bs))))

  pub check_evidence_iff :
      (evidence : EvidenceBundle)
      → (check_evidence scenario evidence ≡ ok tt) ↔ IsCanonical scenario evidence
  unfolding check_evidence
  check_evidence_iff evidence = (
    λ h.
        let (id, h') = require_ok (evidence.scenario_id == scenario.scenario_id) _ _ h in
        let (digest, h'') = require_ok (evidence.scenario_digest == scenario.digest) _ _ h' in
        let (implementation, rest) =
          require_ok (evidence.implementation == scenario.implementation) _ _ h'' in
        let (numbered, belong) = check_events_sound 0 evidence.events rest in
        record {
          id = (eq_iff _ _).0 id;
          digest = (eq_iff _ _).0 digest;
          implementation = (eq_iff _ _).0 implementation;
          numbered = numbered;
          belong = belong;
        },
    λ c.
        let id = (eq_iff evidence.scenario_id scenario.scenario_id).1 c.id in
        let digest = (eq_iff evidence.scenario_digest scenario.digest).1 c.digest in
        let implementation =
          (eq_iff evidence.implementation scenario.implementation).1 c.implementation in
        rw id (
          rw digest
            (rw implementation (check_events_complete 0 evidence.events c.numbered c.belong))),
  )
