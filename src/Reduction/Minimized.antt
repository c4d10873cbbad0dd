-- ===== src/Reduction/Minimized.antt =====
-- The result of `minimize_action_plan` in src/ddsleuth/reduction.py.
use ddsleuth.Json.{Dict, Float, JsonValue}
use ddsleuth.Prelude.{
  from_ok, ok-injective, Bool-cases, Memᴰ, Result, String, arith, err, false, inl, inr, length,
  negsuc, ok, pos, refl, subst, suc, true, zero, ℕ, ℤ, ◌≡◌, ◌≤◌, ◌⊎◌,
}
use ddsleuth.Reduction.{ReductionResult, from_scenario, minimize, minimize_action_plan, shrink}
use ddsleuth.Reduction.Loop.{Executor, fingerprints, reduce, reproduces}
use ddsleuth.Reduction.Minimal.{reduce-Ends}
use ddsleuth.Reduction.Plans.{action_keys, roles, timing_sum}
use ddsleuth.Reduction.Preserved.{normalize-Holds}
use ddsleuth.Reduction.Reproduced.{Holds, IsReproduced}
use ddsleuth.Reduction.Schedule.{normalize}
use ddsleuth.ScenarioParser.{parse_scenario}
use ddsleuth.ScenarioParser.Checks.{mem_of_contains, not_mem_of_contains}
use ddsleuth.ScenarioParser.Values.{ScenarioError}

module _ (canonical_digest : Dict JsonValue → String) (target : String) (execute : Executor) where
  -- What the result says of the document that was given.
  abbrev pub Kept : Dict JsonValue → ReductionResult → Type 0
  Kept raw result =
      (result.preserved ≡ true)
      × IsReproduced canonical_digest target execute result.scenario result.execution_trials

  abbrev pub NotThere : Dict JsonValue → ReductionResult → Type 0
  NotThere raw result =
      (result.preserved ≡ false)
      × (result.scenario ≡ raw)
      × (result.execution_trials ≡ 1)
      × (¬ Memᴰ target (fingerprints (execute 1 raw)))

  abbrev pub Bounded : ℕ → ReductionResult → Type 0
  Bounded max_trials result = (1 ≤ result.execution_trials) × (result.execution_trials ≤ max_trials)

  abbrev Answers : ℕ → Dict JsonValue → ReductionResult → Type 0
  Answers max_trials raw result =
      Bounded max_trials result × (Kept raw result ⊎ NotThere raw result)

  shrink-Answers :
      (max_trials : ℕ) (raw : Dict JsonValue) (count : ℕ) (timing : Float)
      (result : ReductionResult)
      → Holds canonical_digest target execute max_trials (record { current = raw; trials = 1 })
      → shrink canonical_digest target execute max_trials raw count timing ≡ ok result
      → Answers max_trials raw result
  unfolding shrink
  shrink-Answers max_trials raw count timing result holds h =
      from_ok
        (reduce canonical_digest target execute max_trials max_trials (record {
          progress = record { current = raw; trials = 1 };
          remaining = action_keys raw;
          granularity = 2;
        }))
        _ h
        λ plan found h1.
          let (holds', above, _) =
            reduce-Ends canonical_digest target execute max_trials max_trials plan _ holds
              (omega arith) found in
          from_ok
            (normalize canonical_digest target execute max_trials 0 (roles plan.progress.current)
              plan.progress)
            _ h1
            λ progress normalized h2.
              let (holds'', above') =
                normalize-Holds canonical_digest target execute max_trials 0
                  (roles plan.progress.current) plan.progress progress holds' normalized in
              from_ok (timing_sum progress.current) _ h2 λ minimized_timing summed made.
                subst (Answers max_trials raw) (ok-injective _ result made)
                  ((omega arith, holds''.within), inl (refl, holds''.reproduced))

  minimize-Answers :
      (max_trials : ℕ) (raw : Dict JsonValue) (result : ReductionResult)
      → 1 ≤ max_trials
      → minimize canonical_digest target execute max_trials raw ≡ ok result
      → Answers max_trials raw result
  unfolding minimize reproduces
  minimize-Answers max_trials raw result positive h =
      from_ok (parse_scenario canonical_digest raw) _ h λ scenario parsed h1.
        from_ok (timing_sum raw) _ h1 λ timing summed h2.
          elim (Bool-cases (reproduces target execute 1 raw)) [
            | inl shown ↦
                shrink-Answers max_trials raw (length (action_keys raw)) timing result
                  (record {
                    within = positive;
                    reproduced = record {
                      scenario = scenario;
                      accepted = parsed;
                      trial = 1;
                      executed = (omega arith, omega arith);
                      shown = mem_of_contains (fingerprints (execute 1 raw)) target shown;
                    };
                  })
                  (rw shown at h2)
            | inr lost ↦ subst (Answers max_trials raw) (ok-injective _ result (rw lost at h2)) (
              (omega arith, positive),
              inr (
                refl,
                refl,
                refl,
                not_mem_of_contains (fingerprints (execute 1 raw)) target lost,
              ),
            )
          ]

  from_scenario-ok :
      (r : Result ScenarioError ReductionResult) (result : ReductionResult)
      → from_scenario r ≡ ok result
      → r ≡ ok result
  from_scenario-ok (ok x) result h = cc
  from_scenario-ok (err error) result h = cc

  -- If the reduction returns, it has taken at least one execution and no more than the given
  -- number, which is positive. Either it says that the artifact is preserved: then its scenario is
  -- one that the parser accepts, and one of the executions was of that very scenario and showed the
  -- artifact. Or it says that it is not: then the first execution, of the given scenario, did not
  -- show it, and the scenario is returned as it was given.
  pub minimize_action_plan-IsReproduced :
      (raw_scenario : Dict JsonValue) (max_trials : ℤ) (result : ReductionResult)
      → minimize_action_plan canonical_digest target execute raw_scenario max_trials ≡ ok result
      → ((n : ℕ) × (max_trials ≡ pos n) × Bounded n result)
        × (Kept raw_scenario result ⊎ NotThere raw_scenario result)
  unfolding minimize_action_plan
  minimize_action_plan-IsReproduced raw_scenario (pos (suc n)) result h =
      let (bounded, answer) =
        minimize-Answers (suc n) raw_scenario result (omega arith) (from_scenario-ok _ result h) in
      ((suc n, refl, bounded), answer)
  minimize_action_plan-IsReproduced raw_scenario (pos zero) result h = cc
  minimize_action_plan-IsReproduced raw_scenario (negsuc n) result h = cc
