-- ===== src/Oracles/SessionRotation.antt =====
-- src/ddsleuth/oracles/session_rotation.py: a session-key rotation advances the session id by
-- one, modulo 2^32, and the sample that triggered it is delivered.
pub mod Transitions
pub mod Verdict
use ddsleuth.Evidence.{EvidenceBundle}
use ddsleuth.Json.{
  JsonValue, as_plain_int, equals_int, equals_str, get, get_or, int, lookup, null, str,
}
use ddsleuth.Model.{AssertionSpec, EvidenceEvent, Scenario, is_kind}
use ddsleuth.Model.EventKind.{
  application_sample_received, application_sample_written, application_write_attempt, key_rotated,
}
use ddsleuth.Oracles.Base.{OracleResult, event_sequence, not_applicable, pass, undecided, violation}
use ddsleuth.Prelude.{
  Bool, List, Option, String, [], collect, eq_int, false, get_elem?, if◌then◌else◌, keep, length,
  ltb, map, negsuc, non_empty, none, not, pos, some, sorted_ints, suc, true, zero, ℕ, ℤ, ◌%◌, ◌&&◌,
  ◌++◌, ◌+◌, ◌-◌, ◌==◌, ◌^◌, ◌||◌, ◌∷◌,
}
use ddsleuth.Semantics.{named_value}
use ddsleuth.Oracles.SampleDelivery.{delivered, delivery, is_delivered, no_attempt, no_receipt}

abbrev pub name : String
name = "session_rotation_delivery"

pub record Parameters : Type 0 where
  pub writer : String
  pub reader : String
  pub context : String
  pub minimum_rotations : ℕ
  pub max_blocks : Option ℤ

abbrev pub declared : Scenario → JsonValue → Option String
declared scenario (str actor) = elim (lookup actor scenario.participants) [
  | none ↦ none
  | some _ ↦ some actor
]
declared scenario _ = none

-- A plain int of at least 1.
abbrev pub positive : JsonValue → Option ℕ
positive (int (pos (suc n))) = some (suc n)
positive _ = none

-- The outer `none` is an invalid parameter, the inner one None.
abbrev pub optional_positive : JsonValue → Option (Option ℤ)
optional_positive null = some none
optional_positive (int (pos (suc n))) = some (some (pos (suc n)))
optional_positive _ = none

abbrev parameters_of :
    Option String → Option String → Option String → Option ℕ → Option (Option ℤ) → Option Parameters
parameters_of (some writer) (some reader) (some context) (some minimum) (some max_blocks) =
    some (record {
      writer = writer;
      reader = reader;
      context = context;
      minimum_rotations = minimum;
      max_blocks = max_blocks;
    })
parameters_of _ _ _ _ _ = none

unfoldable pub read_parameters : Scenario → AssertionSpec → Option Parameters
read_parameters scenario assertion =
    parameters_of (declared scenario (get assertion.parameters "writer"))
      (declared scenario (get assertion.parameters "reader"))
      (named_value (get_or assertion.parameters "context" (str "serialized_payload")))
      (positive (get_or assertion.parameters "minimum_rotations" (int (pos 1))))
      (optional_positive (get assertion.parameters "max_blocks_per_session"))

abbrev pub is_rotation : Parameters → EvidenceEvent → Bool
is_rotation p event =
    is_kind event key_rotated
    && (event.actor == p.writer
        && (event.outcome == "rotated"
            && (equals_str (get event.attributes "rotation_kind") "session_key"
                && equals_str (get event.attributes "context") p.context)))

abbrev pub rotation : Parameters → ℕ → EvidenceEvent → Option (ℕ × EvidenceEvent)
rotation p index event = if is_rotation p event then some (index, event) else none

-- `(n + 1) & 0xFFFFFFFF` of an int of either sign
unfoldable pub next_session : ℤ → ℕ
next_session (pos n) = (n + 1) % 2 ^ 32
next_session (negsuc n) = (2 ^ 32 - n % 2 ^ 32) % 2 ^ 32

abbrev pub advances_by : Option ℤ → Option ℤ → Bool
advances_by (some previous) (some current) = eq_int current (pos (next_session previous))
advances_by _ _ = false

pub advances : EvidenceEvent → Bool
unfolding next_session
advances event =
    advances_by (as_plain_int (get event.attributes "previous_session_id"))
      (as_plain_int (get event.attributes "session_id"))

pub is_configured : Parameters → EvidenceEvent → Bool
is_configured p event = elim p.max_blocks [
  | none ↦ true
  | some n ↦ equals_int (get event.attributes "max_blocks_per_session") n
]

-- `event_sequence(index, events[index].sequence)`
abbrev sequence_at : List EvidenceEvent → ℕ → ℤ
sequence_at events index = elim (get_elem? events index) [
  | none ↦ pos index
  | some event ↦ event_sequence index event.sequence
]

abbrev pub Rotations : Type 0
Rotations = List (ℕ × EvidenceEvent)

pub incomplete : Parameters → List EvidenceEvent → Rotations → List ℤ
unfolding delivery
incomplete p events [] = []
incomplete p events ((index, event) ∷ rotations) =
    let rest = incomplete p events rotations in
    elim (delivery p.writer p.reader events index) [
      | delivered _ _ ↦ rest
      | no_attempt ↦ event_sequence index event.sequence ∷ rest
      | no_receipt attempt ↦ event_sequence index event.sequence ∷ sequence_at events attempt ∷ rest
    ]

pub rotation_samples : Parameters → List EvidenceEvent → Rotations → List ℤ
unfolding delivery
rotation_samples p events [] = []
rotation_samples p events ((index, event) ∷ rotations) =
    let rest = rotation_samples p events rotations in
    elim (delivery p.writer p.reader events index) [
      | delivered attempt receive ↦
          sequence_at events index ∷ sequence_at events attempt ∷ sequence_at events receive ∷ rest
      | _ ↦ rest
    ]

abbrev pub rotation_sequences : Rotations → List ℤ
rotation_sequences rotations =
    map (λ (item : ℕ × EvidenceEvent). event_sequence item.0 item.1.sequence) rotations

abbrev pub undelivered : Parameters → List EvidenceEvent → Rotations → Rotations
unfolding delivery
undelivered p events rotations =
    keep
      (λ (item : ℕ × EvidenceEvent). not (is_delivered (delivery p.writer p.reader events item.0)))
      rotations

pub report : AssertionSpec → Parameters → List EvidenceEvent → Rotations → OracleResult
unfolding advances is_configured incomplete rotation_samples
report assertion p events rotations =
    let invalid = keep (λ (item : ℕ × EvidenceEvent). not (advances item.1)) rotations in
    let mismatches = keep (λ (item : ℕ × EvidenceEvent). not (is_configured p item.1)) rotations in
    let missing = undelivered p events rotations in
    if ltb (length rotations) p.minimum_rotations
    then record {
      assertion_id = assertion.assertion_id;
      oracle = name;
      status = not_applicable;
      summary = "Too few observed session-key rotations";
      evidence_events = rotation_sequences rotations;
      details =
          ("observed_rotations", int (pos (length rotations)))
          ∷ ("minimum_rotations", int (pos p.minimum_rotations))
          ∷ [];
    }
    else if non_empty invalid
    then record {
      assertion_id = assertion.assertion_id;
      oracle = name;
      status = violation;
      summary = "A session-key rotation did not advance the 32-bit session identifier";
      evidence_events = rotation_sequences invalid;
      details = ("invalid_transition_count", int (pos (length invalid))) ∷ [];
    }
    else if non_empty mismatches || non_empty missing
    then record {
      assertion_id = assertion.assertion_id;
      oracle = name;
      status = not_applicable;
      summary = "Session-rotation configuration or delivery evidence was incomplete";
      evidence_events =
          sorted_ints (incomplete p events rotations ++ rotation_sequences mismatches);
      details =
          ("configuration_mismatches", int (pos (length mismatches)))
          ∷ ("rotations_without_delivery", int (pos (length missing)))
          ∷ [];
    }
    else record {
      assertion_id = assertion.assertion_id;
      oracle = name;
      status = pass;
      summary =
          "Every observed session-key rotation advanced its session id and delivered its triggering sample";
      evidence_events = sorted_ints (rotation_samples p events rotations);
      details =
          ("rotation_count", int (pos (length rotations)))
          ∷ ("delivered_rotation_samples", int (pos (length rotations - length missing)))
          ∷ ("context", str p.context)
          ∷ [];
    }

unfoldable pub session_rotation_delivery : Scenario → AssertionSpec → EvidenceBundle → OracleResult
unfolding report read_parameters
session_rotation_delivery scenario assertion evidence = elim (read_parameters scenario assertion) [
  | none ↦ undecided assertion name "Invalid session-rotation assertion parameters" []
  | some p ↦ report assertion p evidence.events (collect (rotation p) 0 evidence.events)
]
