-- ===== src/Oracles/SampleDelivery/Receipts.antt =====
-- The forward search of src/ddsleuth/oracles/session_rotation.py, and what a delivery is.
use ddsleuth.Json.{equals_int, get}
use ddsleuth.Model.{EvidenceEvent, is_kind}
use ddsleuth.Model.EventKind.{application_sample_received, value}
use ddsleuth.Oracles.SampleDelivery.{
  Delivery, after, before, delivery, enumerate, find_attempt, find_receipt, is_delivered,
  no_attempt, receipt_of, receives,
}
use ddsleuth.Oracles.SampleDelivery.Attempts.{Filled, find_attempt_iff}
use ddsleuth.Prelude.{
  Bool-cases, List, Option, String, [], and-true, ap, arith, eq_iff, eq_refl, get_elem?, inl, inr,
  none, refl, some, subst, suc, sym, true, zero, zero-add, ℕ, ℤ, ◌+◌, ◌-◌, ◌<◌, ◌==◌, ◌↔◌, ◌∙◌, ◌∷◌,
  ◌≡◌,
}
use ddsleuth.Oracles.SampleDelivery.Places.{LastAttempt, get_elem?-enumerate}

-- Behind the position, the reader received the sample with the number.
pub record LaterReceipt (reader : String) (events : List EvidenceEvent) (position : ℕ) (sample : ℤ)
    : Type 0 where
  pub place : ℕ
  pub event : EvidenceEvent
  pub there : get_elem? events place ≡ some event
  pub behind : position < place
  pub by : event.actor ≡ reader
  pub of_kind : event.kind ≡ value application_sample_received
  pub outcome : event.outcome ≡ "received"
  pub numbered : equals_int (get event.attributes "sample_index") sample ≡ true

-- The sample of the writer's last attempt before the position was received behind it.
pub record IsDelivered (writer reader : String) (events : List EvidenceEvent) (position : ℕ)
    : Type 0 where
  pub place : ℕ
  pub sample : ℤ
  pub attempt : LastAttempt writer events position place sample
  pub receipt : LaterReceipt reader events position sample

get_elem?-after :
    (n k : ℕ) (items : List (ℕ × EvidenceEvent))
    → get_elem? (after n items) k ≡ get_elem? items (n + k)
get_elem?-after zero k items = rw zero-add refl
get_elem?-after (suc n) k [] = refl
get_elem?-after (suc n) k (x ∷ items) =
    get_elem?-after n k items
    ∙ ap (get_elem? (x ∷ items)) (let at : suc (n + k) ≡ suc n + k = omega arith in at)

event_of_enumerate :
    (n index : ℕ) (events : List EvidenceEvent) (item : ℕ × EvidenceEvent)
    → get_elem? (enumerate index events) n ≡ some item
    → get_elem? events n ≡ some item.1
event_of_enumerate n index [] item h = cc
event_of_enumerate zero index (e ∷ events) item h =
    let same : (index, e) ≡ item = cc in ap (λ (x : ℕ × EvidenceEvent). some x.1) same
event_of_enumerate (suc n) index (e ∷ events) item h =
    event_of_enumerate n (suc index) events item h

module _ (reader : String) (sample : ℤ) where
  find_receipt_sound :
      (items : List (ℕ × EvidenceEvent)) (found : ℕ × EvidenceEvent)
      → find_receipt reader sample items ≡ some found
      → (k : ℕ) × (get_elem? items k ≡ some found) × (receives reader sample found.1 ≡ true)
  unfolding find_receipt
  find_receipt_sound [] found h = cc
  find_receipt_sound ((index, event) ∷ items) found h =
      elim (Bool-cases (receives reader sample event)) [
        | inl e ↦
            let held : some (index, event) ≡ some found = rw e at h in
            let same : (index, event) ≡ found = cc in
            (0, held, subst (λ (x : ℕ × EvidenceEvent). receives reader sample x.1 ≡ true) same e)
        | inr e ↦
            let (k, at, test) = find_receipt_sound items found (rw e at h) in (suc k, at, test)
      ]

  find_receipt_complete :
      (items : List (ℕ × EvidenceEvent)) (k : ℕ) (item : ℕ × EvidenceEvent)
      → get_elem? items k ≡ some item
      → receives reader sample item.1 ≡ true
      → (found : ℕ × EvidenceEvent) × (find_receipt reader sample items ≡ some found)
  unfolding find_receipt
  find_receipt_complete [] k item at test = cc
  find_receipt_complete ((index, event) ∷ items) zero item at test =
      let same : item ≡ (index, event) = cc in
      let here : receives reader sample event ≡ true =
        subst (λ (x : ℕ × EvidenceEvent). receives reader sample x.1 ≡ true) same test in
      ((index, event), rw here refl)
  find_receipt_complete ((index, event) ∷ items) (suc k) item at test =
      elim (Bool-cases (receives reader sample event)) [
        | inl e ↦ ((index, event), rw e refl)
        | inr e ↦
            let (found, later) = find_receipt_complete items k item at test in (found, rw e later)
      ]

  module _ (events : List EvidenceEvent) (position : ℕ) where
    abbrev remaining : List (ℕ × EvidenceEvent)
    remaining = after (position + 1) (enumerate 0 events)

    LaterReceipt-some :
        (found : ℕ × EvidenceEvent)
        → find_receipt reader sample remaining ≡ some found
        → LaterReceipt reader events position sample
    LaterReceipt-some found h =
        let (k, at, test) = find_receipt_sound remaining found h in
        let there =
          event_of_enumerate (position + 1 + k) 0 events found
            (sym (get_elem?-after (position + 1) k (enumerate 0 events)) ∙ at) in
        let (by, more) = and-true (found.1.actor == reader) _ test in
        let (kind, more) = and-true (is_kind found.1 application_sample_received) _ more in
        let (outcome, numbered) = and-true (found.1.outcome == "received") _ more in
        record {
          place = position + 1 + k;
          event = found.1;
          there = there;
          behind = omega arith;
          by = (eq_iff found.1.actor reader).0 by;
          of_kind = (eq_iff found.1.kind (value application_sample_received)).0 kind;
          outcome = (eq_iff found.1.outcome "received").0 outcome;
          numbered = numbered;
        }

    some_of_LaterReceipt :
        LaterReceipt reader events position sample
        → (found : ℕ × EvidenceEvent) × (find_receipt reader sample remaining ≡ some found)
    some_of_LaterReceipt r =
        let k = r.place - (position + 1) in
        let at : r.place ≡ position + 1 + k = let b = r.behind in omega (arith, b) in
        let there =
          get_elem?-after (position + 1) k (enumerate 0 events)
          ∙ ap (get_elem? (enumerate 0 events)) (sym at)
          ∙ get_elem?-enumerate r.place 0 events r.event r.there in
        let test : receives reader sample r.event ≡ true =
          rw (r.by, r.of_kind, r.outcome, r.numbered) (rw (eq_refl reader) refl) in
        find_receipt_complete remaining k (0 + r.place, r.event) there test

module _ (writer reader : String) (events : List EvidenceEvent) (position : ℕ)
    (filled : Filled writer events position) where
  abbrev of_attempt : Option (ℕ × ℤ) → Delivery
  of_attempt o = elim o [
    | none ↦ no_attempt
    | some (attempt_index, sample) ↦
        receipt_of attempt_index
          (find_receipt reader sample (after (position + 1) (enumerate 0 events)))
  ]

  attempted :
      (o : Option (ℕ × ℤ))
      → find_attempt writer (before position (enumerate 0 events) []) ≡ o
      → is_delivered (of_attempt o) ≡ true
      → IsDelivered writer reader events position
  attempted none e h = cc
  attempted (some (place, sample)) e h =
      received (find_receipt reader sample (after (position + 1) (enumerate 0 events))) refl h
    where
      received :
          (r : Option (ℕ × EvidenceEvent))
          → find_receipt reader sample (after (position + 1) (enumerate 0 events)) ≡ r
          → is_delivered (receipt_of place r) ≡ true
          → IsDelivered writer reader events position
      received none f h = cc
      received (some found) f h = record {
        place = place;
        sample = sample;
        attempt = (find_attempt_iff writer events position place sample filled).0 e;
        receipt = LaterReceipt-some reader sample events position found f;
      }

  -- The loop finds a delivery exactly if there is one.
  pub is_delivered_iff :
      (is_delivered (delivery writer reader events position) ≡ true)
      ↔ IsDelivered writer reader events position
  unfolding delivery
  is_delivered_iff = (
    λ h. attempted (find_attempt writer (before position (enumerate 0 events) [])) refl h,
    λ d.
        let attempt =
          (find_attempt_iff writer events position d.place d.sample filled).1 d.attempt in
        let (found, receipt) = some_of_LaterReceipt reader d.sample events position d.receipt in
        ap (λ o. is_delivered (of_attempt o)) attempt
        ∙ ap (λ r. is_delivered (receipt_of d.place r)) receipt,
  )
