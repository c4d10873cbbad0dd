-- ===== src/Reduction/Minimal.antt =====
-- Where the first loop of src/ddsleuth/reduction.py stops: the executions are spent, or each action
-- that is left was tried alone and is needed.
use native.Mathlib.Nat.{div-lt_iff_lt-mul}
use ddsleuth.Json.{Dict, JsonValue}
use ddsleuth.Prelude.{
  from_ok, ok-injective, ltb, All, Bool-cases, List, Memᴰ, String, [], ap, arith, inl, inr, leb,
  length, map, non_empty, not, not-false, ok, or-false, or-true, refl, subst, suc, sym, true, zero,
  ℕ, ◌+◌, ◌-◌, ◌<◌, ◌||◌, ◌∷◌, ◌≡◌, ◌≤◌, ◌⊎◌,
}
use ddsleuth.Reduction.Loop.{
  Scan, next, reduced, Executor, Search, ceiling, chunks, chunks_of, exhausted, max, reduce, scan,
}
use ddsleuth.Reduction.Plans.{ActionKey}
use ddsleuth.Reduction.Reproduced.{Leads, IsReproduced-later, Holds, Lost, scan-Leads_on, scan-Lost}

abbrev alone : ActionKey → List ActionKey
alone key = key ∷ []

-- The granularity of one element to a chunk.
chunk_of_one : (n granularity : ℕ) → 0 < n → n ≤ granularity → max 1 (ceiling n granularity) ≡ 1
chunk_of_one n granularity some_left fine =
    let bound : ceiling n granularity < 2 =
      (div-lt_iff_lt-mul {k = granularity} {x = n + granularity - 1} {y = 2} (omega arith)).1
        (omega arith) in
    ground (arith, bound)

chunks-alone :
    (room : ℕ) (keys : List ActionKey) → length keys ≤ room → chunks room 1 keys ≡ map alone keys
unfolding chunks
chunks-alone zero [] h = refl
chunks-alone zero (key ∷ keys) h = absurd (omega arith)
chunks-alone (suc room) [] h = refl
chunks-alone (suc room) (key ∷ keys) h =
    ap (λ rest. alone key ∷ rest) (chunks-alone room keys (omega arith))

non_empty-chunks :
    (size : ℕ) (keys : List ActionKey)
    → non_empty keys ≡ true
    → non_empty (chunks (length keys) size keys) ≡ true
unfolding chunks
non_empty-chunks size [] h = cc
non_empty-chunks size (key ∷ keys) h = refl

all_alone :
    (P : List ActionKey → Type 0) (keys : List ActionKey)
    → All P (map alone keys)
    → (key : ActionKey) → Memᴰ key keys
    → P (alone key)
all_alone P [] ps key m = elim m [ ]
all_alone P (other ∷ keys) (p, ps) key (Memᴰ.head e) = subst (λ k. P (alone k)) (sym e) p
all_alone P (other ∷ keys) (p, ps) key (Memᴰ.tail m) = all_alone P keys ps key m

module _ (canonical_digest : Dict JsonValue → String) (target : String) (execute : Executor)
    (max_trials : ℕ) where
  -- The executions are spent, or each action that is left was tried alone and is needed.
  abbrev pub IsStopped : Search → Type 0
  IsStopped state =
      (max_trials ≤ state.progress.trials)
      ⊎ ((key : ActionKey)
          → Memᴰ key state.remaining
          → Lost canonical_digest target execute max_trials state.progress.current
              state.progress.trials (key ∷ []))

  abbrev Ends : ℕ → Search → Type 0
  Ends trials state =
      Holds canonical_digest target execute max_trials state.progress
      × (trials ≤ state.progress.trials)
      × IsStopped state

  needed_alone :
      (state : Search) (later : ℕ)
      → non_empty state.remaining ≡ true
      → leb (length state.remaining) state.granularity ≡ true
      → later < max_trials
      → scan canonical_digest target execute max_trials state.progress
          (chunks_of canonical_digest target execute max_trials state)
        ≡ ok (exhausted later)
      → (key : ActionKey) → Memᴰ key state.remaining
      → Lost canonical_digest target execute max_trials state.progress.current later (key ∷ [])
  needed_alone state later some_left fine left h =
      let one =
        chunk_of_one (length state.remaining) state.granularity (long state.remaining some_left)
          (ground arith) in
      let cut = chunks-alone (length state.remaining) state.remaining (omega arith) in
      let lost =
        scan-Lost canonical_digest target execute max_trials state.progress _ later left h in
      all_alone (Lost canonical_digest target execute max_trials state.progress.current later)
        state.remaining (rw (one, cut) at lost)
    where
      long : (keys : List ActionKey) → non_empty keys ≡ true → 0 < length keys
      long [] h = cc
      long (key ∷ keys) h = omega arith

  abbrev Again : ℕ → Search → Type 0
  Again fuel result =
      (state : Search)
      → Holds canonical_digest target execute max_trials state.progress
      → max_trials ≤ fuel + state.progress.trials
      → reduce canonical_digest target execute max_trials fuel state ≡ ok result
      → Ends state.progress.trials result

  Ends-earlier :
      (trials later : ℕ) (result : Search) → trials ≤ later → Ends later result → Ends trials result
  Ends-earlier trials later result h (holds, above, stopped) = (holds, omega arith, stopped)

  after_scan :
      (fuel : ℕ) (state result : Search) (scanned : Scan)
      → Again fuel result
      → Holds canonical_digest target execute max_trials state.progress
      → non_empty state.remaining ≡ true
      → max_trials ≤ suc fuel + state.progress.trials
      → scan canonical_digest target execute max_trials state.progress
          (chunks_of canonical_digest target execute max_trials state)
        ≡ ok scanned
      → Leads canonical_digest target execute max_trials (suc state.progress.trials) scanned
      → next canonical_digest target execute max_trials
          (reduce canonical_digest target execute max_trials fuel)
          state
          scanned
        ≡ ok result
      → Ends state.progress.trials result
  unfolding next
  after_scan fuel state result (reduced progress chunk) again holds some_left fuel_left read
        (holds', above) h =
      Ends-earlier state.progress.trials progress.trials result (omega arith)
        (again _ holds' (omega arith) h)
  after_scan fuel state result (exhausted later) again holds some_left fuel_left read
        (above, within) h =
      let holds' : Holds canonical_digest target execute max_trials
          (record state.progress { trials = later }) =
        record {
          within = within;
          reproduced =
              IsReproduced-later canonical_digest target execute state.progress.current
                state.progress.trials later (omega arith) holds.reproduced;
        } in
      elim (Bool-cases (leb (length state.remaining) state.granularity)) [
        | inl fine ↦ subst (Ends state.progress.trials) (ok-injective _ result (rw fine at h)) (
          holds',
          omega arith,
          elim (Bool-cases (ltb later max_trials)) [
            | inl left ↦ inr (needed_alone state later some_left fine (ground arith) read)
            | inr spent ↦ inl (ground arith)
          ],
        )
        | inr coarse ↦
            Ends-earlier state.progress.trials later result (omega arith)
              (again _ holds' (omega arith) (rw coarse at h))
      ]

  -- With fuel for the executions that are left, the loop ends for one of the program's reasons.
  pub reduce-Ends : (fuel : ℕ) (result : Search) → Again fuel result
  unfolding reduce
  reduce-Ends zero result state holds fuel_left h =
      subst (Ends state.progress.trials) (ok-injective state result h)
        (holds, omega arith, inl (omega arith))
  reduce-Ends (suc fuel) result state holds fuel_left h =
      elim (Bool-cases (not (non_empty state.remaining) || leb max_trials state.progress.trials)) [
        | inl over ↦
            subst (Ends state.progress.trials) (ok-injective state result (rw (over, reduce) at h))
              (holds, omega arith, stopped (or-true _ _ over))
        | inr going ↦
            let (some_left, left) = or-false _ _ going in
            from_ok
              (scan canonical_digest target execute max_trials state.progress
                (chunks_of canonical_digest target execute max_trials state))
              _ (rw (going, reduce) at h)
              λ scanned read h1.
                after_scan fuel state result scanned (reduce-Ends fuel result) holds
                  (not-false _ some_left) fuel_left read
                  (scan-Leads_on canonical_digest target execute max_trials state.progress _ scanned
                    (non_empty-chunks _ state.remaining (not-false _ some_left)) left read)
                  h1
      ]
    where
      no_key :
          (keys : List ActionKey)
          → not (non_empty keys) ≡ true
          → (key : ActionKey) → ¬ Memᴰ key keys
      no_key [] h key m = elim m [ ]
      no_key (other ∷ keys) h key m = cc

      stopped :
          (not (non_empty state.remaining) ≡ true) ⊎ (leb max_trials state.progress.trials ≡ true)
          → IsStopped state
      stopped (inl none_left) = inr (λ key m. absurd (no_key state.remaining none_left key m))
      stopped (inr spent) = inl (ground arith)
