-- ===== src/Reduction/Loop.antt =====
-- The first loop of `minimize_action_plan` in src/ddsleuth/reduction.py. The executor is a callback,
-- here the artifacts of the k-th execution of a document, for each k.
use Prim.Native.Nat.{◌/◌}
use ddsleuth.Artifacts.{RuntimeArtifact}
use ddsleuth.Json.{Dict, JsonValue}
use ddsleuth.Prelude.{
  Bool, List, Result, String, [], drop, false, if◌then◌else◌, keep, leb, length, ltb, map,
  non_empty, not, ok, suc, take, true, zero, ℕ, ◌*◌, ◌+◌, ◌-◌, ◌>>=◌, ◌||◌, ◌∷◌,
}
use ddsleuth.Reduction.Plans.{ActionKey, change_dicts, has_key, on_roles, without_actions}
use ddsleuth.ScenarioParser.{parse_scenario}
use ddsleuth.ScenarioParser.Participants.{contains, keys}
use ddsleuth.ScenarioParser.Values.{ScenarioError}

abbrev pub Executor : Type 0
Executor = ℕ → Dict JsonValue → List RuntimeArtifact

-- `_fingerprints(result)`
abbrev pub fingerprints : List RuntimeArtifact → List String
fingerprints artifacts = map (λ (artifact : RuntimeArtifact). artifact.fingerprint) artifacts

-- The document that is reproduced so far, and the executions so far.
pub record Progress : Type 0 where
  pub current : Dict JsonValue
  pub trials : ℕ

-- The state of the first loop.
pub record Search : Type 0 where
  pub progress : Progress
  pub remaining : List ActionKey
  pub granularity : ℕ

-- What the inner loop ends with.
pub data Scan : Type 0 where
  reduced : Progress → List ActionKey → Scan
  exhausted : ℕ → Scan

abbrev pub ceiling : ℕ → ℕ → ℕ
ceiling n d = (n + d - 1) / d

abbrev pub max : ℕ → ℕ → ℕ
max a b = if ltb a b then b else a

abbrev pub min : ℕ → ℕ → ℕ
min a b = if ltb b a then b else a

-- `remaining[start : start + chunk_size]` for each start, of as many chunks as there are elements
-- at most
unfoldable pub chunks : ℕ → ℕ → List ActionKey → List (List ActionKey)
chunks zero size keys = []
chunks (suc room) size [] = []
chunks (suc room) size (key ∷ keys) =
    take size (key ∷ keys) ∷ chunks room size (drop size (key ∷ keys))

unfoldable pub reproduces : String → Executor → ℕ → Dict JsonValue → Bool
reproduces target execute trial document = contains (fingerprints (execute trial document)) target

module _ (canonical_digest : Dict JsonValue → String) where
  -- A changed document, if `parse_scenario` accepts it.
  unfoldable pub valid : Dict JsonValue → Result ScenarioError (Dict JsonValue)
  valid document = do scenario ← parse_scenario canonical_digest document; ok document

  unfoldable pub remove_actions :
      Dict JsonValue → List ActionKey → Result ScenarioError (Dict JsonValue)
  unfolding valid
  remove_actions document removed =
      valid (on_roles (change_dicts (without_actions removed)) document)

module _ (canonical_digest : Dict JsonValue → String) (target : String) (execute : Executor)
    (max_trials : ℕ) where
  -- The chunks are taken away one after the other, until the artifact is reproduced without one.
  unfoldable pub scan : Progress → List (List ActionKey) → Result ScenarioError Scan
  unfolding reproduces
  scan progress [] = ok (exhausted progress.trials)
  scan progress (chunk ∷ rest) = elim (leb max_trials progress.trials) [
    | true ↦ ok (exhausted progress.trials)
    | false ↦ do
      candidate ← remove_actions canonical_digest progress.current chunk
      let further = scan (record progress { trials = suc progress.trials }) rest
      if reproduces target execute (suc progress.trials) candidate
          then ok (reduced (record { current = candidate; trials = suc progress.trials }) chunk)
          else further
  ]

  abbrev pub chunk_size : Search → ℕ
  chunk_size state = max 1 (ceiling (length state.remaining) state.granularity)

  abbrev pub chunks_of : Search → List (List ActionKey)
  chunks_of state = chunks (length state.remaining) (chunk_size state) state.remaining

  -- What follows a scan: the loop again, or its `break`.
  unfoldable pub next :
      (Search → Result ScenarioError Search) → Search → Scan → Result ScenarioError Search
  next again state (reduced progress chunk) = again (record {
    progress = progress;
    remaining = keep (λ key. not (has_key chunk key)) state.remaining;
    granularity = max 2 (state.granularity - 1);
  })
  next again state (exhausted trials) =
      if leb (length state.remaining) state.granularity
      then ok (record state { progress = record state.progress { trials = trials } })
      else again (record state {
        progress = record state.progress { trials = trials };
        granularity = min (length state.remaining) (state.granularity * 2);
      })

  -- `while remaining and trials < max_trials`, with fuel
  unfoldable pub reduce : ℕ → Search → Result ScenarioError Search
  unfolding chunks scan next
  reduce zero state = ok state
  reduce (suc fuel) state =
      if not (non_empty state.remaining) || leb max_trials state.progress.trials
      then ok state
      else (scan state.progress (chunks_of state) >>= next (reduce fuel) state)
