-- ===== src/Oracles/Base.antt =====
-- src/ddsleuth/oracles/base.py, and what the oracles share.
use ddsleuth.Prelude.{
  if◌then◌else◌, passed_of_some, ◌&&◌, ◌↔◌, Occurs, Finds, collect, non_empty,
  non_empty-collect_iff, empty-collect_iff, ℕ, String, ◌≡◌, Bool, true, false, not, Option, none,
  some, List, [], ◌∷◌, map, ◌==◌, ℤ, pos, eq_iff, eq_refl, refl, ◌↔◌, Occurs, Finds, collect,
  non_empty, non_empty-collect_iff, empty-collect_iff, arith,
}
use ddsleuth.Json.{
  bool, is_true, is_null, is_str, JsonValue, str, arr, int, obj, Dict, equals_str, to_items,
  to_fields,
}
use ddsleuth.Model.{AssertionSpec, EvidenceEvent}
use ddsleuth.Model.EventKind.{value}

pub data OracleStatus : Type 0 where
  pass violation not_applicable : OracleStatus

abbrev pub same_status : OracleStatus → OracleStatus → Bool
same_status pass pass = true
same_status violation violation = true
same_status not_applicable not_applicable = true
same_status _ _ = false

pub record OracleResult : Type 0 where
  pub assertion_id : String
  pub oracle : String
  pub status : OracleStatus
  pub summary : String
  pub evidence_events : List ℤ
  pub details : Dict JsonValue

-- `status.value`
abbrev pub status_value : OracleStatus → String
status_value pass = "pass"
status_value violation = "violation"
status_value not_applicable = "not_applicable"

abbrev pub int_items : List ℤ → JsonValue
int_items xs = arr (to_items (map (λ n. int n) xs))

abbrev pub str_items : List String → JsonValue
str_items xs = arr (to_items (map (λ s. str s) xs))

unfoldable pub result_to_dict : OracleResult → Dict JsonValue
result_to_dict result =
    ("assertion_id", str result.assertion_id)
    ∷ ("oracle", str result.oracle)
    ∷ ("status", str (status_value result.status))
    ∷ ("summary", str result.summary)
    ∷ ("evidence_events", int_items result.evidence_events)
    ∷ ("details", obj (to_fields result.details))
    ∷ []

abbrev pub event_sequence : ℕ → Option ℤ → ℤ
event_sequence default_index none = pos default_index
event_sequence default_index (some n) = n

-- An event with the sequence number that a result cites.
abbrev pub Cited : Type 0
Cited = ℤ × EvidenceEvent

abbrev pub cite : ℕ → EvidenceEvent → Cited
cite index event = (event_sequence index event.sequence, event)

abbrev pub sequences : List Cited → List ℤ
sequences cited = map (λ item. item.0) cited

-- The result of an assertion that its parameters or the evidence do not decide, with no event cited.
abbrev pub undecided : AssertionSpec → String → String → Dict JsonValue → OracleResult
undecided assertion name summary details = record {
  assertion_id = assertion.assertion_id;
  oracle = name;
  status = not_applicable;
  summary = summary;
  evidence_events = [];
  details = details;
}

-- `isinstance(filter, str) and value != filter`, for a text and for any value
abbrev pub excludes : JsonValue → String → Bool
excludes (str s) value = not (value == s)
excludes _ value = false

abbrev pub excludes_value : JsonValue → JsonValue → Bool
excludes_value (str s) value = not (equals_str value s)
excludes_value _ value = false

-- `value is not None and not isinstance(value, str)`
abbrev pub neither_null_nor_str : JsonValue → Bool
neither_null_nor_str v = not (is_null v) && not (is_str v)

-- What a filter that is a text asks of a value; any other filter asks nothing.
abbrev pub Selects : JsonValue → String → Type 0
Selects (str s) value = value ≡ s
Selects _ value = Unit

abbrev pub SelectsValue : JsonValue → JsonValue → Type 0
SelectsValue (str s) value = value ≡ str s
SelectsValue _ value = Unit

pub Selects-not-excludes :
    (filter : JsonValue) (value : String) → excludes filter value ≡ false → Selects filter value
Selects-not-excludes (str s) value h = ground (arith, eq_iff value s)
Selects-not-excludes _ value h = tt

pub not-excludes_of_Selects :
    (filter : JsonValue) (value : String) → Selects filter value → excludes filter value ≡ false
not-excludes_of_Selects (str s) value h = ground (arith, eq_iff value s)
not-excludes_of_Selects _ value h = refl

pub equals_str_eq : (value : JsonValue) (s : String) → equals_str value s ≡ true → value ≡ str s
equals_str_eq (str t) s h = ground (arith, eq_iff t s)
equals_str_eq _ s h = cc

pub SelectsValue-not-excludes_value :
    (filter value : JsonValue) → excludes_value filter value ≡ false → SelectsValue filter value
SelectsValue-not-excludes_value (str s) value h = equals_str_eq value s (ground arith)
SelectsValue-not-excludes_value _ value h = tt

pub not-excludes_value_of_SelectsValue :
    (filter value : JsonValue) → SelectsValue filter value → excludes_value filter value ≡ false
not-excludes_value_of_SelectsValue (str s) value h = rw h (rw eq_refl)
not-excludes_value_of_SelectsValue _ value h = refl

pub is_true_eq : (v : JsonValue) → is_true v ≡ true → v ≡ bool true
is_true_eq (bool true) h = refl
is_true_eq (bool false) h = cc
is_true_eq _ h = cc

-- The events at which a loop whose guard is `skip` appends.
pub Finds-skip {ℓ} :
    {B : Type 0} {P : EvidenceEvent → Type ℓ} (skip : EvidenceEvent → Bool)
    (out : ℕ → EvidenceEvent → B)
    → ((event : EvidenceEvent) → skip event ≡ false → P event)
    → ((event : EvidenceEvent) → P event → skip event ≡ false)
    → Finds (λ index event. if skip event then none else some (out index event)) P
Finds-skip skip out sound complete = record {
  sound = λ index event b h. sound event (passed_of_some (skip event) (out index event) b h).0;
  complete = λ index event p. (out index event, rw (complete event p) refl);
}

-- A violation is reported exactly if an event violates, and the assertion passes exactly if an
-- event is considered and none violates.
abbrev pub DecidedBy :
    (Violates Considered : EvidenceEvent → Type 0) → OracleStatus → List EvidenceEvent → Type 0
DecidedBy Violates Considered status events =
    ((status ≡ violation) ↔ Occurs Violates events)
    × ((status ≡ pass) ↔ (Occurs Considered events × (¬ Occurs Violates events)))

-- An oracle that gathers what it considers and what violates, reports a violation if there is one,
-- and else passes if it considered anything.
module _ {B C : Type 0} {violating : ℕ → EvidenceEvent → Option B}
    {considered : ℕ → EvidenceEvent → Option C} {V P : EvidenceEvent → Type 0} where
  pub verdict_iff :
      Finds violating V
      → Finds considered P
      → {status : OracleStatus} (events : List EvidenceEvent)
      → (status ≡ violation) ↔ (non_empty (collect violating 0 events) ≡ true)
      → (status ≡ pass) ↔ (
          (non_empty (collect considered 0 events) ≡ true)
          × (non_empty (collect violating 0 events) ≡ false))
      → DecidedBy V P status events
  verdict_iff vs ps events on_violation on_pass = (
    (
      λ h. (non_empty-collect_iff vs events).0 (on_violation.0 h),
      λ o. on_violation.1 ((non_empty-collect_iff vs events).1 o),
    ),
    (
      λ h.
          let (some_considered, none_violates) = on_pass.0 h in
          (
            (non_empty-collect_iff ps events).0 some_considered,
            (empty-collect_iff vs events).0 none_violates,
          ),
      λ (o, n).
          on_pass.1 ((non_empty-collect_iff ps events).1 o, (empty-collect_iff vs events).1 n),
    ),
  )
