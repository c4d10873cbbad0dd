-- ===== src/Oracles/SampleDelivery.antt =====
-- The deliveries that the loop of src/ddsleuth/oracles/session_rotation.py looks for: the sample
-- that a write attempt before a rotation carried, received after it.
pub mod Places
pub mod Attempts
pub mod Receipts
use ddsleuth.Json.{as_plain_int, equals_int, get}
use ddsleuth.Model.{EvidenceEvent, is_kind}
use ddsleuth.Model.EventKind.{
  application_sample_received, application_sample_written, application_write_attempt,
}
use ddsleuth.Prelude.{
  Bool, List, Option, String, [], false, if◌then◌else◌, none, not, some, suc, true, zero, ℕ, ℤ,
  ◌&&◌, ◌+◌, ◌==◌, ◌∷◌,
}

-- The events with their positions, from `index` on.
abbrev pub enumerate : ℕ → List EvidenceEvent → List (ℕ × EvidenceEvent)
enumerate index [] = []
enumerate index (event ∷ events) = (index, event) ∷ enumerate (suc index) events

-- The events before the position, the nearest first.
abbrev pub before :
    ℕ → List (ℕ × EvidenceEvent) → List (ℕ × EvidenceEvent) → List (ℕ × EvidenceEvent)
before zero items found = found
before (suc n) [] found = found
before (suc n) (item ∷ items) found = before n items (item ∷ found)

abbrev pub after : ℕ → List (ℕ × EvidenceEvent) → List (ℕ × EvidenceEvent)
after zero items = items
after (suc n) [] = []
after (suc n) (item ∷ items) = after n items

abbrev sample_at : ℕ → Option ℤ → Option (ℕ × ℤ)
sample_at index none = none
sample_at index (some sample) = some (index, sample)

-- The writer's last write attempt before the rotation, unless a written sample stands between.
pub find_attempt : String → List (ℕ × EvidenceEvent) → Option (ℕ × ℤ)
find_attempt writer [] = none
find_attempt writer ((index, event) ∷ items) =
    let further = find_attempt writer items in
    if not (event.actor == writer)
    then further
    else if is_kind event application_write_attempt
    then sample_at index (as_plain_int (get event.attributes "sample_index"))
    else if is_kind event application_sample_written
    then none
    else further

abbrev pub receives : String → ℤ → EvidenceEvent → Bool
receives reader sample event =
    event.actor == reader
    && (is_kind event application_sample_received
        && (event.outcome == "received" && equals_int (get event.attributes "sample_index") sample))

pub find_receipt : String → ℤ → List (ℕ × EvidenceEvent) → Option (ℕ × EvidenceEvent)
find_receipt reader sample [] = none
find_receipt reader sample ((index, event) ∷ items) =
    if receives reader sample event then some (index, event) else find_receipt reader sample items

-- What the loop learns of one rotation: the events of a delivery, or those of a missing one.
pub data Delivery : Type 0 where
  delivered : (attempt_index receive_index : ℕ) → Delivery
  no_attempt : Delivery
  no_receipt : (attempt_index : ℕ) → Delivery

abbrev receipt_of : ℕ → Option (ℕ × EvidenceEvent) → Delivery
receipt_of attempt_index none = no_receipt attempt_index
receipt_of attempt_index (some (receive_index, _)) = delivered attempt_index receive_index

unfoldable pub delivery : (writer reader : String) → List EvidenceEvent → ℕ → Delivery
unfolding find_attempt find_receipt
delivery writer reader events rotation_index =
    elim (find_attempt writer (before rotation_index (enumerate 0 events) [])) [
      | none ↦ no_attempt
      | some (attempt_index, sample) ↦
          receipt_of attempt_index
            (find_receipt reader sample (after (rotation_index + 1) (enumerate 0 events)))
    ]

abbrev pub is_delivered : Delivery → Bool
is_delivered (delivered _ _) = true
is_delivered _ = false
