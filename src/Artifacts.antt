-- ===== src/Artifacts.antt =====
-- The artifacts of src/ddsleuth/artifacts.py: what a run showed, told by a fingerprint.
use ddsleuth.Prelude.{String, Bool, List, ℤ}
use ddsleuth.Json.{Dict, JsonValue, Float}

pub record RuntimeArtifact : Type 0 where
  pub artifact_id : String
  pub fingerprint : String
  pub family : String
  pub title : String
  pub observation_class : String
  pub outcome : String
  pub actors : List String
  pub resources : List String
  pub evidence_events : List ℤ
  pub causal_signature : List String
  pub boundary_phases : List String
  pub boundary_depth : ℤ
  pub evidence_quality : Float
  pub execution_complete : Bool
  pub observations : Dict JsonValue
