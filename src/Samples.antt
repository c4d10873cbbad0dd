-- ===== src/Samples.antt =====
-- A small experiment and runs of it, for the tests: bob may subscribe to the topic, mallory may
-- not.
use ddsleuth.Evidence.{EvidenceBundle, create}
use ddsleuth.Json.{Dict, JsonValue, finite}
use ddsleuth.Model.{
  AssertionSpec, EvidenceEvent, ExecutionSpec, ParticipantSpec, RoleCommand, Scenario,
}
use ddsleuth.Model.EventKind.{process_exit, value}
use ddsleuth.Prelude.{List, String, [], none, pos, some, ◌*◌, ◌^◌, ◌∷◌}

abbrev pub bob : ParticipantSpec
bob = record {
  name = "bob";
  role = "subscriber";
  permissions = ("subscribe", "Secret*" ∷ []) ∷ [];
  identity = none;
}

abbrev pub mallory : ParticipantSpec
mallory = record { name = "mallory"; role = "attacker"; permissions = []; identity = none }

abbrev pub asks : String → Dict JsonValue → AssertionSpec
asks oracle parameters = record { assertion_id = "a1"; oracle = oracle; parameters = parameters }

abbrev pub role : String → RoleCommand
role actor = record {
  actor = actor;
  command = "probe" ∷ [];
  environment = [];
  start_after = [];
  start_offset_ms = finite (pos 0);
  actions = [];
}

abbrev pub execution : ExecutionSpec
execution = record {
  network = "loopback";
  timeout_seconds = finite (pos (60 * 2 ^ 1074));
  log_format = "native";
  roles = role "bob" ∷ role "mallory" ∷ [];
}

abbrev pub scenario_with : List AssertionSpec → Scenario
scenario_with assertions = record {
  schema_version = pos 1;
  scenario_id = "s1";
  title = "sample";
  implementation = "fastdds";
  implementation_version = none;
  domain_id = pos 0;
  participants = ("bob", bob) ∷ ("mallory", mallory) ∷ [];
  grant_order = "bob" ∷ "mallory" ∷ [];
  governance = [];
  topics = ("SecretTopic", []) ∷ [];
  assertions = assertions;
  execution = some execution;
  raw = [];
  digest = "d1";
}

abbrev pub event : String → String → String → Dict JsonValue → EvidenceEvent
event kind actor outcome attributes = record {
  kind = kind;
  actor = actor;
  implementation = "fastdds";
  outcome = outcome;
  attributes = attributes;
  source = none;
  sequence = none;
  monotonic_ns = none;
}

abbrev pub exits : List EvidenceEvent
exits =
    event (value process_exit) "bob" "succeeded" []
    ∷ event (value process_exit) "mallory" "succeeded" []
    ∷ []

abbrev pub recorded : List EvidenceEvent → EvidenceBundle
recorded events = create "r1" "s1" "d1" "fastdds" events none
