-- ===== src/Model.antt =====
-- src/ddsleuth/models.py: the events of a run and the declared experiment.
pub mod EventKind
use ddsleuth.Prelude.{ℕ, String, Bool, Option, List, ◌==◌, ℤ}
use ddsleuth.Json.{JsonValue, Dict, Float}

pub record EvidenceEvent : Type 0 where
  pub kind : String
  pub actor : String
  pub implementation : String
  pub outcome : String
  pub attributes : Dict JsonValue
  pub source : Option String
  pub sequence : Option ℤ
  pub monotonic_ns : Option ℤ

pub record IdentitySpec : Type 0 where
  pub subject : String
  pub expires_after_seconds : Option ℤ

pub record ParticipantSpec : Type 0 where
  pub name : String
  pub role : String
  pub permissions : Dict (List String)
  pub identity : Option IdentitySpec

pub record AssertionSpec : Type 0 where
  pub assertion_id : String
  pub oracle : String
  pub parameters : Dict JsonValue

pub record EventBarrier : Type 0 where
  pub actor : String
  pub kind : String
  pub outcome : Option String
  pub attributes : Dict JsonValue

pub record RoleAction : Type 0 where
  pub action_id : String
  pub at_ms : Float
  pub operation : String
  pub arguments : List String

pub record RoleCommand : Type 0 where
  pub actor : String
  pub command : List String
  pub environment : Dict String
  pub start_after : List EventBarrier
  pub start_offset_ms : Float
  pub actions : List RoleAction

pub record ExecutionSpec : Type 0 where
  pub network : String
  pub timeout_seconds : Float
  pub log_format : String
  pub roles : List RoleCommand

pub record Scenario : Type 0 where
  pub schema_version : ℤ
  pub scenario_id : String
  pub title : String
  pub implementation : String
  pub implementation_version : Option String
  pub domain_id : ℤ
  pub participants : Dict ParticipantSpec
  pub grant_order : List String
  pub governance : Dict JsonValue
  pub topics : Dict (Dict JsonValue)
  pub assertions : List AssertionSpec
  pub execution : Option ExecutionSpec
  pub raw : Dict JsonValue
  pub digest : String

-- `event.kind == EventKind.X`
abbrev pub is_kind : EvidenceEvent → EventKind.EventKind → Bool
is_kind event k = event.kind == EventKind.value k
