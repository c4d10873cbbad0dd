-- ===== src/Oracles/SampleDelivery/Places.antt =====
-- The last attempt of a writer, and the numbered events of src/ddsleuth/oracles/session_rotation.py.
use ddsleuth.Json.{as_plain_int, get}
use ddsleuth.Model.{EvidenceEvent}
use ddsleuth.Model.EventKind.{application_sample_written, application_write_attempt, value}
use ddsleuth.Oracles.SampleDelivery.{before, enumerate}
use ddsleuth.Prelude.{
  List, String, [], ap, ap₂, arith, get_elem?, some, suc, zero, ℕ, ℤ, ◌+◌, ◌<◌, ◌∙◌, ◌∷◌, ◌≡◌, ◌⊎◌,
}

-- The writer attempted to write, or wrote, a sample.
pub record IsWrite (writer : String) (event : EvidenceEvent) : Type 0 where
  pub by : event.actor ≡ writer
  pub of_kind :
      (event.kind ≡ value application_write_attempt)
      ⊎ (event.kind ≡ value application_sample_written)

-- The last write of the writer before the position is an attempt with the sample's number.
pub record LastAttempt (writer : String) (events : List EvidenceEvent) (position place : ℕ)
    (sample : ℤ) : Type 0 where
  pub event : EvidenceEvent
  pub there : get_elem? events place ≡ some event
  pub before_position : place < position
  pub by : event.actor ≡ writer
  pub of_kind : event.kind ≡ value application_write_attempt
  pub numbered : as_plain_int (get event.attributes "sample_index") ≡ some sample
  pub last :
      (later : ℕ) (other : EvidenceEvent)
      → place < later
      → later < position
      → get_elem? events later ≡ some other
      → ¬ IsWrite writer other

abbrev Item : Type 0
Item = ℕ × EvidenceEvent

pub before-suc :
    (n : ℕ) (items found : List Item) (item : Item)
    → get_elem? items n ≡ some item
    → before (suc n) items found ≡ item ∷ before n items found
before-suc n [] found item h = cc
before-suc zero (x ∷ items) found item h = let same : x ≡ item = cc in ap (λ y. y ∷ found) same
before-suc (suc n) (x ∷ items) found item h = before-suc n items (x ∷ found) item h

pub get_elem?-enumerate :
    (n index : ℕ) (events : List EvidenceEvent) (event : EvidenceEvent)
    → get_elem? events n ≡ some event
    → get_elem? (enumerate index events) n ≡ some (index + n, event)
get_elem?-enumerate n index [] event h = cc
get_elem?-enumerate zero index (e ∷ events) event h =
    let same : e ≡ event = cc in
    let at : index ≡ index + 0 = omega arith in ap₂ (λ i x. some (i, x)) at same
get_elem?-enumerate (suc n) index (e ∷ events) event h =
    get_elem?-enumerate n (suc index) events event h
    ∙ ap (λ i. some (i, event)) (let at : suc index + n ≡ index + suc n = omega arith in at)
