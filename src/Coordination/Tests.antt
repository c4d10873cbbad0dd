-- ===== src/Coordination/Tests.antt =====
-- The theorems about src/ddsleuth/coordination.py at logs of two polls.
use ddsleuth.Coordination.{is_met, LogEvent, Observed, released, sources_exited, wait_for_barriers}
use ddsleuth.Coordination.Waiting.{AllMet, wait_for_barriers-AllMet}
use ddsleuth.Json.{of_fields, end, field, obj, str}
use ddsleuth.Json.Equality.{equals}
use ddsleuth.Model.{EventBarrier}
use ddsleuth.Prelude.{Memᴰ, subst, sym, true, ◌++◌, [], false, non_empty, refl, some, ◌∷◌, ◌≡◌, ◌⊎◌}
use ddsleuth.Coordination.Released.{MeetsAll, wait_for_barriers-released}
use ddsleuth.Coordination.Exited.{LetsWait, SourceExited, wait_for_barriers-SourceExited}

abbrev ready : EventBarrier
ready = record {
  actor = "bob";
  kind = "endpoint.matched";
  outcome = some "matched";
  attributes = ("topic", str "SecretTopic") ∷ [];
}

abbrev matched : LogEvent
matched =
    ("actor", str "bob")
    ∷ ("kind", str "endpoint.matched")
    ∷ ("outcome", str "matched")
    ∷ ("attributes", obj (field "topic" (str "SecretTopic") end))
    ∷ []

abbrev quiet : Observed
quiet = record { events = []; exited = []; expired = false }

abbrev arrived : Observed
arrived = record { events = matched ∷ []; exited = []; expired = false }

abbrev crashed : Observed
crashed = record { events = []; exited = "bob" ∷ []; expired = false }

ready_is_met : wait_for_barriers (ready ∷ []) (quiet ∷ arrived ∷ []) ≡ released
unfolding wait_for_barriers equals of_fields
ready_is_met = refl

wait_for_barriers-AllMet_example :
    (non_empty (ready ∷ []) ≡ false) ⊎ AllMet (ready ∷ []) (quiet ∷ arrived ∷ [])
wait_for_barriers-AllMet_example =
    wait_for_barriers-AllMet (ready ∷ []) (quiet ∷ arrived ∷ []) []
      (([], refl), ((matched ∷ [], refl), tt)) ready_is_met

source_is_gone : wait_for_barriers (ready ∷ []) (quiet ∷ crashed ∷ []) ≡ sources_exited ("bob" ∷ [])
unfolding wait_for_barriers
source_is_gone = refl

wait_for_barriers-SourceExited_example :
    SourceExited (ready ∷ []) (quiet ∷ crashed ∷ []) ("bob" ∷ [])
wait_for_barriers-SourceExited_example =
    wait_for_barriers-SourceExited (ready ∷ []) (quiet ∷ crashed ∷ []) [] ("bob" ∷ [])
      (([], refl), (([], refl), tt)) source_is_gone

quiet-LetsWait : (x : Observed) → Memᴰ x (quiet ∷ []) → LetsWait (ready ∷ []) x
quiet-LetsWait x (Memᴰ.head e) = subst (LetsWait (ready ∷ [])) (sym e) (refl, λ b m unmet. refl)
quiet-LetsWait x (Memᴰ.tail m) = elim m [ ]

arrived-MeetsAll : MeetsAll (ready ∷ []) arrived
unfolding equals of_fields
arrived-MeetsAll b (Memᴰ.head e) = subst (λ c. is_met arrived.events c ≡ true) (sym e) refl
arrived-MeetsAll b (Memᴰ.tail m) = elim m [ ]

wait_for_barriers-released_example :
    wait_for_barriers (ready ∷ []) ((quiet ∷ []) ++ arrived ∷ crashed ∷ []) ≡ released
wait_for_barriers-released_example =
    wait_for_barriers-released (ready ∷ []) (quiet ∷ []) arrived (crashed ∷ []) quiet-LetsWait
      arrived-MeetsAll
