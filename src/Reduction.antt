-- ===== src/Reduction.antt =====
-- src/ddsleuth/reduction.py: an action plan is made smaller while one artifact is reproduced.
pub mod Plans
pub mod Loop
pub mod Schedule
pub mod Reproduced
pub mod Minimal
pub mod Preserved
pub mod Minimized
pub mod Removal
mod Tests
use ddsleuth.Artifacts.{RuntimeArtifact}
use ddsleuth.Evidence.{EvidenceBundle}
use ddsleuth.Json.{Dict, Float, JsonValue, as_str, bool, get, int, obj, str, to_fields}
use ddsleuth.Model.{EvidenceEvent}
use ddsleuth.Oracles.Base.{event_sequence, sequences, str_items}
use ddsleuth.Prelude.{
  Bool, List, Result, String, [], any, append_found, eq_int, err, false, if◌then◌else◌, keep,
  length, not, ok, pos, sorted_texts, starts_with, suc, true, ℕ, ℤ, ◌&&◌, ◌++◌, ◌>>=◌, ◌>>◌, ◌∷◌,
}
use ddsleuth.Reduction.Loop.{Executor, reduce, remove_actions, reproduces}
use ddsleuth.Reduction.Plans.{ActionKey, action_keys, roles, timing_sum}
use ddsleuth.Reduction.Schedule.{normalize}
use ddsleuth.Samples.{event}
use ddsleuth.ScenarioParser.{parse_scenario}
use ddsleuth.ScenarioParser.Participants.{contains}
use ddsleuth.ScenarioParser.Values.{ScenarioError}

pub record ReductionResult : Type 0 where
  pub scenario : Dict JsonValue
  pub target_fingerprint : String
  pub original_action_count : ℕ
  pub minimized_action_count : ℕ
  pub original_timing_sum_ms : Float
  pub minimized_timing_sum_ms : Float
  pub execution_trials : ℕ
  pub preserved : Bool

pub data ReductionError : Type 0 where
  max_trials_must_be_positive : ReductionError
  invalid_scenario : ScenarioError → ReductionError

abbrev pub from_scenario {ℓ} : {A : Type ℓ} → Result ScenarioError A → Result ReductionError A
from_scenario (ok x) = ok x
from_scenario (err error) = err (invalid_scenario error)

module _ (canonical_digest : Dict JsonValue → String) (target : String) (execute : Executor) where
  -- Both loops, on a document that reproduces the artifact, and what they come to.
  pub shrink : ℕ → Dict JsonValue → ℕ → Float → Result ScenarioError ReductionResult
  shrink max_trials current original_count original_timing = do
    reduced_plan ← reduce canonical_digest target execute max_trials max_trials (record {
      progress = record { current = current; trials = 1 };
      remaining = action_keys current;
      granularity = 2;
    })
    progress ←
        normalize canonical_digest target execute max_trials 0 (roles reduced_plan.progress.current)
          reduced_plan.progress
    minimized_timing ← timing_sum progress.current
    ok (record {
      scenario = progress.current;
      target_fingerprint = target;
      original_action_count = original_count;
      minimized_action_count = length (action_keys progress.current);
      original_timing_sum_ms = original_timing;
      minimized_timing_sum_ms = minimized_timing;
      execution_trials = progress.trials;
      preserved = true;
    })

  pub minimize : ℕ → Dict JsonValue → Result ScenarioError ReductionResult
  unfolding shrink
  minimize max_trials raw = do
    scenario ← parse_scenario canonical_digest raw
    timing ← timing_sum raw
    let count = length (action_keys raw)
    if reproduces target execute 1 raw
        then shrink max_trials raw count timing
        else ok (record {
          scenario = raw;
          target_fingerprint = target;
          original_action_count = count;
          minimized_action_count = count;
          original_timing_sum_ms = timing;
          minimized_timing_sum_ms = timing;
          execution_trials = 1;
          preserved = false;
        })

  unfoldable pub minimize_action_plan : Dict JsonValue → ℤ → Result ReductionError ReductionResult
  unfolding minimize
  minimize_action_plan raw_scenario (pos (suc n)) = from_scenario (minimize (suc n) raw_scenario)
  minimize_action_plan raw_scenario max_trials = err max_trials_must_be_positive

-- The action ids that the events of the artifact name.
abbrev ids_named : EvidenceEvent → List String
ids_named event =
    append_found (as_str (get event.attributes "action_id"))
      (append_found (as_str (get event.attributes "source_action_id")) [])

abbrev has_int : List ℤ → ℤ → Bool
has_int numbers number = any (λ other. eq_int other number) numbers

pub relevant_ids : List ℤ → ℕ → List EvidenceEvent → List String
relevant_ids sequences position [] = []
relevant_ids sequences position (event ∷ events) =
    let rest = relevant_ids sequences (suc position) events in
    if has_int sequences (event_sequence position event.sequence)
    then ids_named event ++ rest
    else rest

-- `not key[1].startswith("#") and key[1] not in relevant_ids`
abbrev pub is_irrelevant : List String → ActionKey → Bool
is_irrelevant relevant (actor, action_id) =
    not (starts_with action_id "#") && not (contains relevant action_id)

unfoldable pub causal_action_prefilter :
    (Dict JsonValue → String)
    → Dict JsonValue
    → EvidenceBundle
    → RuntimeArtifact
    → Result ScenarioError (Dict JsonValue)
unfolding relevant_ids
causal_action_prefilter canonical_digest raw_scenario evidence artifact = do
  let relevant = relevant_ids artifact.evidence_events 0 evidence.events
  let original = action_keys raw_scenario
  candidate ← remove_actions canonical_digest raw_scenario (keep (is_irrelevant relevant) original)
  ok (
      ("schema_version", int (pos 1))
      ∷ ("kind", str "causal_action_reduction_prefilter")
      ∷ ("target_fingerprint", str artifact.fingerprint)
      ∷ ("causal_action_ids", str_items (sorted_texts relevant))
      ∷ ("original_action_count", int (pos (length original)))
      ∷ ("candidate_action_count", int (pos (length (action_keys candidate))))
      ∷ ("requires_dynamic_confirmation", bool true)
      ∷ ("candidate_scenario", obj (to_fields candidate))
      ∷ [])
