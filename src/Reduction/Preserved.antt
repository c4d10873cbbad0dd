-- ===== src/Reduction/Preserved.antt =====
-- What `minimize_action_plan` of src/ddsleuth/reduction.py returns reproduces the artifact.
use ddsleuth.Json.{Dict, Float, JsonValue, get, get_or, int}
use ddsleuth.Json.Numbers.{lt_float, zero_float}
use ddsleuth.Prelude.{
  from_ok, ok-injective, Bool, Bool-cases, List, Option-cases, String, [], arith, false, inl, inr,
  leb, ok, pos, subst, suc, ℕ, ◌∷◌, ◌≡◌, ◌≤◌,
}
use ddsleuth.Reduction.Loop.{Executor, Progress, reproduces, valid}
use ddsleuth.Reduction.Reproduced.{Holds, IsReproduced-now, IsReproduced-later}
use ddsleuth.Reduction.Schedule.{
  actions_of, attempt, drop_offset, is_positive_number, lower_time, lower_times, normalize, time_of,
  with_time, without_offset,
}
use ddsleuth.ScenarioParser.Values.{to_float}

module _ (canonical_digest : Dict JsonValue → String) (target : String) (execute : Executor)
    (max_trials : ℕ) where
  abbrev Keeps : Progress → Progress → Type 0
  Keeps before after =
      Holds canonical_digest target execute max_trials after × (before.trials ≤ after.trials)

  Keeps-trans :
      (first second third : Progress) → Keeps first second → Keeps second third → Keeps first third
  Keeps-trans first second third (_, up) (holds, up') = (holds, omega arith)

  attempt-Keeps :
      (progress : Progress) (document : Dict JsonValue) (tried : Progress × Bool)
      → Holds canonical_digest target execute max_trials progress
      → leb max_trials progress.trials ≡ false
      → attempt canonical_digest target execute max_trials progress document ≡ ok tried
      → Keeps progress tried.0
  unfolding attempt
  attempt-Keeps progress document tried holds left h =
      from_ok (valid canonical_digest document) _ h λ candidate accepted h1.
        elim (Bool-cases (reproduces target execute (suc progress.trials) candidate)) [
          | inl shown ↦
              subst (λ (tried : Progress × Bool). Keeps progress tried.0)
                (ok-injective _ tried (rw shown at h1))
                (
                  record {
                    within = ground arith;
                    reproduced =
                        IsReproduced-now canonical_digest target execute document candidate
                          progress.trials accepted shown;
                  },
                  omega arith,
                )
          | inr lost ↦
              subst (λ (tried : Progress × Bool). Keeps progress tried.0)
                (ok-injective _ tried (rw lost at h1))
                (
                  record {
                    within = ground arith;
                    reproduced =
                        IsReproduced-later canonical_digest target execute progress.current
                          progress.trials (suc progress.trials) (omega arith) holds.reproduced;
                  },
                  omega arith,
                )
        ]

  lower_time-Keeps :
      (role_index index : ℕ) (previous : Float) (at_ms : JsonValue) (progress : Progress)
      (lowered : Progress × Float)
      → Holds canonical_digest target execute max_trials progress
      → leb max_trials progress.trials ≡ false
      → lower_time canonical_digest target execute max_trials role_index index previous at_ms
          progress
        ≡ ok lowered
      → Keeps progress lowered.0
  unfolding lower_time
  lower_time-Keeps role_index index previous at_ms progress lowered holds left h =
      from_ok (to_float at_ms) _ h λ time read h1. elim (Bool-cases (lt_float previous time)) [
        | inl later ↦
            from_ok
              (attempt canonical_digest target execute max_trials progress
                (with_time role_index index previous progress.current))
              _ (rw later at h1)
              λ tried made h2.
                subst (λ (lowered : Progress × Float). Keeps progress lowered.0)
                  (ok-injective _ lowered h2) (attempt-Keeps progress _ tried holds left made)
        | inr early ↦
            subst (λ (lowered : Progress × Float). Keeps progress lowered.0)
              (ok-injective _ lowered (rw early at h1)) (holds, omega arith)
      ]

  lower_times-Keeps :
      (role_index index : ℕ) (previous : Float) (actions : List JsonValue)
      (progress result : Progress)
      → Holds canonical_digest target execute max_trials progress
      → lower_times canonical_digest target execute max_trials role_index index previous actions
          progress
        ≡ ok result
      → Keeps progress result
  unfolding lower_times
  lower_times-Keeps role_index index previous [] progress result holds h =
      subst (Keeps progress) (ok-injective _ result h) (holds, omega arith)
  lower_times-Keeps role_index index previous (action ∷ actions) progress result holds h =
      elim (Bool-cases (leb max_trials progress.trials)) [
        | inl spent ↦
            subst (Keeps progress) (ok-injective _ result (rw (spent, lower_times) at h))
              (holds, omega arith)
        | inr left ↦ elim (Option-cases (time_of action)) [
          | inl no_time ↦
              lower_times-Keeps role_index (suc index) previous actions progress result holds
                (rw (left, no_time, lower_times) at h)
          | inr (at_ms, timed) ↦
              from_ok
                (lower_time canonical_digest target execute max_trials role_index index previous
                  at_ms progress)
                _ (rw (left, timed, lower_times) at h)
                λ lowered made h1.
                  let kept =
                    lower_time-Keeps role_index index previous at_ms progress lowered holds left
                      made in
                  Keeps-trans progress lowered.0 result kept (
                    lower_times-Keeps role_index (suc index) lowered.1 actions lowered.0 result
                      kept.0 h1)
        ]
      ]

  drop_offset-Keeps :
      (role_index : ℕ) (role : Dict JsonValue) (progress result : Progress)
      → Holds canonical_digest target execute max_trials progress
      → leb max_trials progress.trials ≡ false
      → drop_offset canonical_digest target execute max_trials role_index role progress ≡ ok result
      → Keeps progress result
  unfolding drop_offset
  drop_offset-Keeps role_index role progress result holds left h =
      elim (Bool-cases (is_positive_number (get_or role "start_offset_ms" (int (pos 0))))) [
        | inl delayed ↦
            from_ok
              (attempt canonical_digest target execute max_trials progress
                (without_offset role_index progress.current))
              _ (rw (delayed, drop_offset) at h)
              λ tried made h1.
                subst (Keeps progress) (ok-injective _ result h1)
                  (attempt-Keeps progress _ tried holds left made)
        | inr at_once ↦
            subst (Keeps progress) (ok-injective _ result (rw (at_once, drop_offset) at h))
              (holds, omega arith)
      ]

  pub normalize-Holds :
      (role_index : ℕ) (rest : List (Dict JsonValue)) (progress result : Progress)
      → Holds canonical_digest target execute max_trials progress
      → normalize canonical_digest target execute max_trials role_index rest progress ≡ ok result
      → Holds canonical_digest target execute max_trials result × (progress.trials ≤ result.trials)
  unfolding normalize
  normalize-Holds role_index [] progress result holds h =
      subst (Keeps progress) (ok-injective _ result h) (holds, omega arith)
  normalize-Holds role_index (role ∷ rest) progress result holds h =
      elim (Bool-cases (leb max_trials progress.trials)) [
        | inl spent ↦
            subst (Keeps progress) (ok-injective _ result (rw (spent, normalize) at h))
              (holds, omega arith)
        | inr left ↦
            from_ok
              (drop_offset canonical_digest target execute max_trials role_index role progress) _
              (rw (left, normalize) at h)
              λ started dropped h1.
                from_ok
                  (lower_times canonical_digest target execute max_trials role_index 0 zero_float
                    (actions_of (get role "actions")) started)
                  _ h1
                  λ lowered made h2.
                    let first =
                      drop_offset-Keeps role_index role progress started holds left dropped in
                    let second =
                      lower_times-Keeps role_index 0 zero_float (actions_of (get role "actions"))
                        started lowered first.0 made in
                    Keeps-trans progress started result first (
                      Keeps-trans started lowered result second
                        (normalize-Holds (suc role_index) rest lowered result second.0 h2))
      ]
