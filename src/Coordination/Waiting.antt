-- ===== src/Coordination/Waiting.antt =====
-- When `wait_for_barriers` of src/ddsleuth/coordination.py returns, and when it gives up.
use ddsleuth.Coordination.{
  LogEvent, Observed, Waited, descriptions, failed_sources, is_met, matches, pending, released,
  sources_exited, timed_out, wait_for_barriers,
}
use ddsleuth.Model.{EventBarrier}
use ddsleuth.Prelude.{
  fails_of_none, if◌then◌else◌, keep_of_mem, not, not-false, refl, subst, sym, ◌⊎◌, Bool-cases, inl,
  inr, Bool, List, Memᴰ, [], any, any_of_mem, false, mem_append_left, mem_of_any, non_empty, true,
  ◌++◌, ◌∷◌, ◌≡◌,
}

-- Each observation has the events of the one before it, and maybe more.
abbrev pub AreGrowing : List LogEvent → List Observed → Type 0
AreGrowing seen [] = Unit
AreGrowing seen (o ∷ observations) =
    ((more : List LogEvent) × (o.events ≡ seen ++ more)) × AreGrowing o.events observations

-- Some observation has events that meet every barrier.
pub record AllMet (barriers : List EventBarrier) (observations : List Observed) : Type 0 where
  pub observed : Observed
  pub there : Memᴰ observed observations
  pub met : (b : EventBarrier) → Memᴰ b barriers → is_met observed.events b ≡ true

any-append :
    (test : LogEvent → Bool) (xs ys : List LogEvent)
    → any test xs ≡ true
    → any test (xs ++ ys) ≡ true
any-append test xs ys h =
    let (x, m, e) = mem_of_any test xs h in any_of_mem test (xs ++ ys) (mem_append_left xs ys m) e

pub extends_met :
    (seen : List LogEvent) (observations : List Observed) (o : Observed) (b : EventBarrier)
    → AreGrowing seen observations
    → Memᴰ o observations
    → is_met seen b ≡ true
    → is_met o.events b ≡ true
extends_met seen [] o b growing m h = elim m [ ]
extends_met seen (x ∷ observations) o b ((more, same), rest) (Memᴰ.head e) h =
    rw (e, same) (any-append (λ event. matches event b) seen more h)
extends_met seen (x ∷ observations) o b ((more, same), rest) (Memᴰ.tail m) h =
    extends_met x.events observations o b rest m
      (rw same (any-append (λ event. matches event b) seen more h))

-- What a round that did not end the loop went on with.
pub data Step (o : Observed) (barriers : List EventBarrier) (observations : List Observed)
    : Waited → Type 0 where
  all_met : non_empty (pending o.events barriers) ≡ false → Step o barriers observations released
  exited :
      non_empty (failed_sources o.exited (pending o.events barriers)) ≡ true
      → Step o barriers observations
          (sources_exited (failed_sources o.exited (pending o.events barriers)))
  expired :
      o.expired ≡ true
      → Step o barriers observations (timed_out (descriptions (pending o.events barriers)))
  further :
      non_empty (failed_sources o.exited (pending o.events barriers)) ≡ false
      → o.expired ≡ false
      → Step o barriers observations (wait_for_barriers (pending o.events barriers) observations)

pub Step-wait_for_barriers :
    (b : EventBarrier) (barriers : List EventBarrier) (o : Observed) (observations : List Observed)
    → Step o (b ∷ barriers) observations (wait_for_barriers (b ∷ barriers) (o ∷ observations))
unfolding wait_for_barriers
Step-wait_for_barriers b barriers o observations =
    elim (Bool-cases (non_empty (pending o.events (b ∷ barriers)))) [
      | inr e ↦ rw e (all_met e)
      | inl e ↦
          elim (Bool-cases
            (non_empty (failed_sources o.exited (pending o.events (b ∷ barriers))))) [
              | inl f ↦ rw (e, f) (exited f)
              | inr f ↦ elim (Bool-cases o.expired) [
                | inl x ↦ rw (e, f) (last_test true x (expired x))
                | inr x ↦ rw (e, f) (last_test false x (further f x))
              ]
            ]
    ]
  where
    last_test :
        (c : Bool)
        → o.expired ≡ c
        → Step o (b ∷ barriers) observations (
            if c
            then timed_out (descriptions (pending o.events (b ∷ barriers)))
            else wait_for_barriers (pending o.events (b ∷ barriers)) observations)
        → Step o (b ∷ barriers) observations (
            if o.expired
            then timed_out (descriptions (pending o.events (b ∷ barriers)))
            else wait_for_barriers (pending o.events (b ∷ barriers)) observations)
    last_test c same step =
        subst
          (λ t. Step o (b ∷ barriers) observations (
            if t
            then timed_out (descriptions (pending o.events (b ∷ barriers)))
            else wait_for_barriers (pending o.events (b ∷ barriers)) observations))
          (sym same) step

-- If the wait returns, some observation of the growing logs has events that meet every barrier at
-- once, or there was no barrier.
pub wait_for_barriers-AllMet :
    (barriers : List EventBarrier) (observations : List Observed) (seen : List LogEvent)
    → AreGrowing seen observations
    → wait_for_barriers barriers observations ≡ released
    → (non_empty barriers ≡ false) ⊎ AllMet barriers observations
unfolding wait_for_barriers
wait_for_barriers-AllMet [] observations seen growing h = inl refl
wait_for_barriers-AllMet (b ∷ barriers) [] seen growing h = cc
wait_for_barriers-AllMet (b ∷ barriers) (o ∷ observations) seen (grows, rest) h =
    go _ (Step-wait_for_barriers b barriers o observations) h
      (wait_for_barriers-AllMet (pending o.events (b ∷ barriers)) observations o.events rest)
  where
    met_now :
        non_empty (pending o.events (b ∷ barriers)) ≡ false
        → AllMet (b ∷ barriers) (o ∷ observations)
    met_now e = record {
      observed = o;
      there = Memᴰ.head refl;
      met = λ x m.
          not-false _ (fails_of_none (λ barrier. not (is_met o.events barrier)) (b ∷ barriers) e m);
    }

    met_later :
        AllMet (pending o.events (b ∷ barriers)) observations
        → AllMet (b ∷ barriers) (o ∷ observations)
    met_later later = record {
      observed = later.observed;
      there = Memᴰ.tail later.there;
      met = λ x m. elim (Bool-cases (is_met o.events x)) [
        | inl e ↦ extends_met o.events observations later.observed x rest later.there e
        | inr e ↦
            later.met x
              (keep_of_mem (λ barrier. not (is_met o.events barrier)) (b ∷ barriers) m (rw e refl))
      ];
    }

    go :
        (w : Waited)
        → Step o (b ∷ barriers) observations w
        → w ≡ released
        → (wait_for_barriers (pending o.events (b ∷ barriers)) observations ≡ released
            → (non_empty (pending o.events (b ∷ barriers)) ≡ false)
              ⊎ AllMet (pending o.events (b ∷ barriers)) observations)
        → (non_empty (b ∷ barriers) ≡ false) ⊎ AllMet (b ∷ barriers) (o ∷ observations)
    go _ (all_met e) h on = inr (met_now e)
    go _ (exited e) h on = cc
    go _ (expired e) h on = cc
    go _ (further f x) h on = elim (on h) [
      | inl e ↦ inr (met_now e)
      | inr later ↦ inr (met_later later)
    ]
