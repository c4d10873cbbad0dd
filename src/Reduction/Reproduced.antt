-- ===== src/Reduction/Reproduced.antt =====
-- What the searches of src/ddsleuth/reduction.py keep: a document that was executed and reproduced
-- the artifact, within the executions that are allowed.
use ddsleuth.Json.{Dict, JsonValue}
use ddsleuth.Model.{Scenario}
use ddsleuth.Prelude.{
  from_ok, ok-injective, All, false, non_empty, Bool-cases, List, Memᴰ, String, [], arith, inl, inr,
  leb, ok, subst, suc, sym, true, ℕ, ◌<◌, ◌∷◌, ◌≡◌, ◌≤◌,
}
use ddsleuth.Reduction.Loop.{
  Executor, Progress, Scan, exhausted, fingerprints, reduced, remove_actions, reproduces, scan,
  valid,
}
use ddsleuth.Reduction.Plans.{ActionKey}
use ddsleuth.ScenarioParser.{parse_scenario}
use ddsleuth.ScenarioParser.Checks.{not_mem_of_contains, mem_of_contains}

module _ (canonical_digest : Dict JsonValue → String) (target : String) (execute : Executor) where
  -- The document was accepted, and one of the first executions, of that document, reproduced the
  -- artifact.
  pub record IsReproduced (document : Dict JsonValue) (trials : ℕ) : Type 0 where
    pub scenario : Scenario
    pub accepted : parse_scenario canonical_digest document ≡ ok scenario
    pub trial : ℕ
    pub executed : (1 ≤ trial) × (trial ≤ trials)
    pub shown : Memᴰ target (fingerprints (execute trial document))

  pub IsReproduced-later :
      (document : Dict JsonValue) (trials later : ℕ)
      → trials ≤ later
      → IsReproduced document trials
      → IsReproduced document later
  IsReproduced-later document trials later h r = record {
    scenario = r.scenario;
    accepted = r.accepted;
    trial = r.trial;
    executed = (r.executed.0, omega (arith, r.executed.1));
    shown = r.shown;
  }

  valid-accepts :
      (document candidate : Dict JsonValue)
      → valid canonical_digest document ≡ ok candidate
      → (candidate ≡ document)
        × ((scenario : Scenario) × (parse_scenario canonical_digest document ≡ ok scenario))
  unfolding valid
  valid-accepts document candidate h =
      from_ok (parse_scenario canonical_digest document) _ h
        λ scenario parsed made. (sym (ok-injective document candidate made), (scenario, parsed))

  pub IsReproduced-now :
      (document candidate : Dict JsonValue) (trial : ℕ)
      → valid canonical_digest document ≡ ok candidate
      → reproduces target execute (suc trial) candidate ≡ true
      → IsReproduced candidate (suc trial)
  unfolding reproduces
  IsReproduced-now document candidate trial h shown =
      let (same, (scenario, parsed)) = valid-accepts document candidate h in
      record {
        scenario = scenario;
        accepted = rw same parsed;
        trial = suc trial;
        executed = (omega arith, omega arith);
        shown = mem_of_contains (fingerprints (execute (suc trial) candidate)) target shown;
      }

module _ (canonical_digest : Dict JsonValue → String) (target : String) (execute : Executor)
    (max_trials : ℕ) where
  pub record Holds (progress : Progress) : Type 0 where
    pub within : progress.trials ≤ max_trials
    pub reproduced : IsReproduced canonical_digest target execute progress.current progress.trials

  -- Where a scan goes that comes after so many executions.
  abbrev pub Leads : ℕ → Scan → Type 0
  Leads trials (reduced progress chunk) = Holds progress × (trials ≤ progress.trials)
  Leads trials (exhausted later) = (trials ≤ later) × (later ≤ max_trials)

  Leads-later : (trials : ℕ) (s : Scan) → Leads (suc trials) s → Leads trials s
  Leads-later trials (reduced progress chunk) (holds, later) = (holds, omega arith)
  Leads-later trials (exhausted later) (above, within) = (omega arith, within)

  -- A chunk is tried with one more execution, and the scan goes on behind it if the artifact is lost.
  scan_step :
      (progress : Progress) (chunk : List ActionKey) (rest : List (List ActionKey)) (scanned : Scan)
      → leb max_trials progress.trials ≡ false
      → scan canonical_digest target execute max_trials progress (chunk ∷ rest) ≡ ok scanned
      → (scan canonical_digest target execute max_trials
              (record progress { trials = suc progress.trials })
              rest
            ≡ ok scanned
          → Leads (suc progress.trials) scanned)
      → Leads (suc progress.trials) scanned
  unfolding scan remove_actions
  scan_step progress chunk rest scanned left h further =
      from_ok (remove_actions canonical_digest progress.current chunk) _ (rw (left, scan) at h)
        λ candidate removed h1.
          elim (Bool-cases (reproduces target execute (suc progress.trials) candidate)) [
            | inl shown ↦
                subst (Leads (suc progress.trials)) (ok-injective _ scanned (rw shown at h1)) (
                  record {
                    within = ground arith;
                    reproduced =
                        IsReproduced-now canonical_digest target execute _ candidate progress.trials
                          removed shown;
                  },
                  omega arith,
                )
            | inr lost ↦ further (rw lost at h1)
          ]

  pub scan-Leads :
      (progress : Progress) (rest : List (List ActionKey)) (scanned : Scan)
      → progress.trials ≤ max_trials
      → scan canonical_digest target execute max_trials progress rest ≡ ok scanned
      → Leads progress.trials scanned
  unfolding scan
  scan-Leads progress [] scanned within h =
      subst (Leads progress.trials) (ok-injective _ scanned h) (omega arith, within)
  scan-Leads progress (chunk ∷ rest) scanned within h =
      elim (Bool-cases (leb max_trials progress.trials)) [
        | inl spent ↦
            subst (Leads progress.trials) (ok-injective _ scanned (rw (spent, scan) at h))
              (omega arith, within)
        | inr left ↦ Leads-later progress.trials scanned (
            scan_step progress chunk rest scanned left h (
              scan-Leads (record progress { trials = suc progress.trials }) rest scanned
                (ground arith)))
      ]

  -- Where there is a chunk to try, a scan takes an execution.
  pub scan-Leads_on :
      (progress : Progress) (rest : List (List ActionKey)) (scanned : Scan)
      → non_empty rest ≡ true
      → leb max_trials progress.trials ≡ false
      → scan canonical_digest target execute max_trials progress rest ≡ ok scanned
      → Leads (suc progress.trials) scanned
  scan-Leads_on progress [] scanned some_chunk left h = cc
  scan-Leads_on progress (chunk ∷ rest) scanned some_chunk left h =
      scan_step progress chunk rest scanned left h
        (scan-Leads (record progress { trials = suc progress.trials }) rest scanned (ground arith))

  -- The removal was tried by the execution so numbered at the latest, and the artifact was lost.
  pub record Lost (document : Dict JsonValue) (trials : ℕ) (removed : List ActionKey) : Type 0 where
    pub candidate : Dict JsonValue
    pub made : remove_actions canonical_digest document removed ≡ ok candidate
    pub trial : ℕ
    pub executed : trial ≤ trials
    pub not_shown : ¬ Memᴰ target (fingerprints (execute trial candidate))

  -- A scan that ends before the executions are spent has lost the artifact with every chunk.
  pub scan-Lost :
      (progress : Progress) (rest : List (List ActionKey)) (later : ℕ)
      → later < max_trials
      → scan canonical_digest target execute max_trials progress rest ≡ ok (exhausted later)
      → All (Lost progress.current later) rest
  unfolding scan reproduces
  scan-Lost progress [] later left h = tt
  scan-Lost progress (chunk ∷ rest) later left h =
      elim (Bool-cases (leb max_trials progress.trials)) [
        | inl spent ↦
            let ended : exhausted progress.trials ≡ exhausted later =
              ok-injective _ _ (rw (spent, scan) at h) in
            let same : progress.trials ≡ later = cc in absurd (ground arith)
        | inr open_ ↦
            from_ok (remove_actions canonical_digest progress.current chunk) _
              (rw (open_, scan) at h)
              λ candidate removed h1.
                elim (Bool-cases (reproduces target execute (suc progress.trials) candidate)) [
                  | inl shown ↦
                      let impossible : reduced
                            (record { current = candidate; trials = suc progress.trials }) chunk
                          ≡ exhausted later =
                        ok-injective _ _ (rw shown at h1) in
                      cc
                  | inr lost ↦
                      let going : scan canonical_digest target execute max_trials
                            (record progress { trials = suc progress.trials }) rest
                          ≡ ok (exhausted later) =
                        rw lost at h1 in
                      let (counted, _) =
                        scan-Leads (record progress { trials = suc progress.trials }) rest
                          (exhausted later) (ground arith) going in
                      (
                        record {
                          candidate = candidate;
                          made = removed;
                          trial = suc progress.trials;
                          executed = counted;
                          not_shown =
                              not_mem_of_contains
                                (fingerprints (execute (suc progress.trials) candidate)) target
                                lost;
                        },
                        scan-Lost (record progress { trials = suc progress.trials }) rest later left
                            going,
                      )
                ]
      ]
