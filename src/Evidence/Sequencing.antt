-- ===== src/Evidence/Sequencing.antt =====
-- The sequence numbers that `create` of src/ddsleuth/evidence.py gives.
use ddsleuth.Prelude.{ℕ, suc, ◌≡◌, refl, String, Option, none, some, List, [], ◌∷◌, pos, arith}
use ddsleuth.Json.{Dict, JsonValue}
use ddsleuth.Model.{EvidenceEvent}
use ddsleuth.Evidence.{create, number_from}

-- Every event's sequence number is its position, counted from `index`.
abbrev pub AreNumbered : ℕ → List EvidenceEvent → Type 0
AreNumbered index [] = Unit
AreNumbered index (event ∷ events) =
    (event.sequence ≡ some (pos index)) × AreNumbered (suc index) events

number_from-AreNumbered :
    (index : ℕ) (events : List EvidenceEvent) → AreNumbered index (number_from index events)
unfolding number_from
number_from-AreNumbered index [] = tt
number_from-AreNumbered index (event ∷ events) = (refl, number_from-AreNumbered (suc index) events)

abbrev forget : EvidenceEvent → EvidenceEvent
forget event = record event { sequence = none }

abbrev pub forget_all : List EvidenceEvent → List EvidenceEvent
forget_all [] = []
forget_all (event ∷ events) = forget event ∷ forget_all events

forget_all-number_from :
    (index : ℕ) (events : List EvidenceEvent)
    → forget_all (number_from index events) ≡ forget_all events
unfolding number_from
forget_all-number_from index [] = refl
forget_all-number_from index (event ∷ events) =
    ground (arith, forget_all-number_from (suc index) events)

-- `create` numbers the events by position, and changes nothing else of them, their order included.
pub create_events :
    (run_id scenario_id scenario_digest implementation : String) (events : List EvidenceEvent)
    (metadata : Option (Dict JsonValue))
    → let bundle = create run_id scenario_id scenario_digest implementation events metadata in
      AreNumbered 0 bundle.events × (forget_all bundle.events ≡ forget_all events)
unfolding create
create_events run_id scenario_id scenario_digest implementation events metadata =
    (number_from-AreNumbered 0 events, forget_all-number_from 0 events)
