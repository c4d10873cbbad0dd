-- ===== src/Coordination/Released.antt =====
-- That `wait_for_barriers` of src/ddsleuth/coordination.py returns once its barriers are met.
use ddsleuth.Coordination.{Observed, Waited, is_met, pending, released, wait_for_barriers}
use ddsleuth.Model.{EventBarrier}
use ddsleuth.Prelude.{
  first_of_non_empty, false≢true, none_of_fails, sym, ◌∙◌, List, Memᴰ, [], false, mem_of_keep,
  non_empty, not, refl, true, ◌++◌, ◌∷◌, ◌≡◌,
}
use ddsleuth.Coordination.Exited.{LetsWait, exited_of_blamed, mem_failed_sources}
use ddsleuth.Coordination.Waiting.{Step, Step-wait_for_barriers, all_met, exited, expired, further}

abbrev pub MeetsAll : List EventBarrier → Observed → Type 0
MeetsAll barriers o = (b : EventBarrier) → Memᴰ b barriers → is_met o.events b ≡ true

module _ (o : Observed) (barriers : List EventBarrier) where
  pending_mem : {b : EventBarrier} → Memᴰ b (pending o.events barriers) → Memᴰ b barriers
  pending_mem m = (mem_of_keep (λ barrier. not (is_met o.events barrier)) barriers m).0

  Step-released :
      (observations : List Observed) (w : Waited)
      → LetsWait barriers o
      → wait_for_barriers (pending o.events barriers) observations ≡ released
      → Step o barriers observations w
      → w ≡ released
  Step-released observations _ lets further_released (all_met e) = refl
  Step-released observations _ (in_time, running) further_released (exited e) =
      let (name, m) = first_of_non_empty _ e in
      let blamed = (mem_failed_sources o barriers name).0 m in
      absurd (
        false≢true (
          sym (running blamed.barrier blamed.there blamed.unmet)
          ∙ exited_of_blamed o barriers name blamed))
  Step-released observations _ (in_time, running) further_released (expired e) = cc
  Step-released observations _ lets further_released (further f x) = further_released

-- The wait returns, if some round meets every barrier and each round ahead of it is in time and
-- finds no process exited that a barrier that it does not meet waits for.
pub wait_for_barriers-released :
    (barriers : List EventBarrier) (early : List Observed) (o : Observed) (late : List Observed)
    → ((x : Observed) → Memᴰ x early → LetsWait barriers x)
    → MeetsAll barriers o
    → wait_for_barriers barriers (early ++ o ∷ late) ≡ released
unfolding wait_for_barriers
wait_for_barriers-released [] [] o late lets meets = refl
wait_for_barriers-released [] (x ∷ early) o late lets meets = refl
wait_for_barriers-released (b ∷ barriers) [] o late lets meets =
    let met : non_empty (pending o.events (b ∷ barriers)) ≡ false =
      none_of_fails (λ barrier. not (is_met o.events barrier)) (b ∷ barriers)
        (λ x m. rw (meets x m) refl) in
    rw met refl
wait_for_barriers-released (b ∷ barriers) (x ∷ early) o late lets meets =
    Step-released x (b ∷ barriers) (early ++ o ∷ late) _ (lets x (Memᴰ.head refl))
      (wait_for_barriers-released (pending x.events (b ∷ barriers)) early o late
        (λ y n.
          let (in_time, running) = lets y (Memᴰ.tail n) in
          (in_time, λ c m unmet. running c (pending_mem x (b ∷ barriers) m) unmet))
        (λ c m. meets c (pending_mem x (b ∷ barriers) m)))
      (Step-wait_for_barriers b barriers x (early ++ o ∷ late))
