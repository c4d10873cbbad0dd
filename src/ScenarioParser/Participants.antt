-- ===== src/ScenarioParser/Participants.antt =====
-- The participants of `parse_scenario` in src/ddsleuth/scenario.py, and the order of their grants.
pub mod Guarantees
use ddsleuth.Json.{end, Dict, JsonValue, get, get_or, insert, int, null, obj, of_fields}
use ddsleuth.Model.{IdentitySpec, ParticipantSpec}
use ddsleuth.Model.EventKind.{value}
use ddsleuth.Prelude.{
  guard, Bool, List, Option, Result, String, [], any, distinct, eq_nat, err, if◌then◌else◌, leb,
  length, ltb, map, none, not, ok, pos, some, ℤ, ◌&&◌, ◌==◌, ◌>>=◌, ◌>>◌, ◌||◌, ◌∷◌,
}
use ddsleuth.ScenarioParser.Values.{
  ScenarioError, entry_must_be_object, expiry_out_of_range, grant_order_duplicates,
  grant_order_incomplete, in_identity, in_participant, in_permissions, in_policy, is_actor_name,
  mapping, must_be_object, needs_two_participants, participant_must_be_object, require_string,
  string_list, unsafe_actor_name,
}

-- `{str(operation): _string_list(resources, ...) for operation, resources in ...}`
pub permission_lists : String → Dict JsonValue → Result ScenarioError (Dict (List String))
permission_lists name [] = ok []
permission_lists name ((operation, resources) ∷ entries) = do
  granted ← string_list resources (in_permissions name) operation
  rest ← permission_lists name entries
  ok ((operation, granted) ∷ rest)

-- Python's None, or a plain int between 2 and 86400
abbrev expiry : ScenarioError → JsonValue → Result ScenarioError (Option ℤ)
expiry error null = ok none
expiry error (int (pos n)) = if ltb n 2 || ltb 86400 n then err error else ok (some (pos n))
expiry error _ = err error

pub parse_identity : String → JsonValue → Result ScenarioError (Option IdentitySpec)
parse_identity name null = ok none
parse_identity name (obj fields) = do
  expires_after_seconds ←
      expiry (expiry_out_of_range name) (get (of_fields fields) "expires_after_seconds")
  subject ← require_string (of_fields fields) "subject" (in_identity name)
  ok (some (record { subject = subject; expires_after_seconds = expires_after_seconds }))
parse_identity name _ = err (entry_must_be_object (in_participant name) "identity")

pub parse_participant : String → JsonValue → Result ScenarioError ParticipantSpec
unfolding permission_lists parse_identity
parse_participant name participant_raw = do
  raw ← mapping participant_must_be_object participant_raw
  guard (is_actor_name name) (unsafe_actor_name name)
  role ← require_string raw "role" (in_participant name)
  permissions_raw ←
      mapping (entry_must_be_object (in_participant name) "permissions")
        (get_or raw "permissions" (obj end))
  permissions ← permission_lists name permissions_raw
  identity ← parse_identity name (get raw "identity")
  ok (record { name = name; role = role; permissions = permissions; identity = identity })

-- The loop over the participants, with those it has read.
pub participants_from :
    Dict JsonValue → Dict ParticipantSpec → Result ScenarioError (Dict ParticipantSpec)
unfolding parse_participant
participants_from [] participants = ok participants
participants_from ((name, raw) ∷ entries) participants = do
  participant ← parse_participant name raw
  participants_from entries (insert name participant participants)

unfoldable pub parse_participants : JsonValue → Result ScenarioError (Dict ParticipantSpec)
unfolding participants_from
parse_participants (obj fields) = do
  guard (leb 2 (length (of_fields fields))) needs_two_participants
  participants_from (of_fields fields) []
parse_participants _ = err needs_two_participants

abbrev pub keys {ℓ} : {V : Type ℓ} → Dict V → List String
keys d = map (λ entry. entry.0) d

abbrev pub contains : List String → String → Bool
contains texts text = any (λ other. other == text) texts

-- Every text of the first list is in the second one.
abbrev pub included : List String → List String → Bool
included texts others = not (any (λ text. not (contains others text)) texts)

abbrev pub listed_once : List String → Bool
listed_once texts = eq_nat (length texts) (length (distinct texts))

pub grant_order_of : List String → JsonValue → Result ScenarioError (List String)
grant_order_of names null = ok names
grant_order_of names value = do
  grant_order ← string_list value in_policy "grant_order"
  guard (listed_once grant_order) grant_order_duplicates
  guard (included grant_order names && included names grant_order) grant_order_incomplete
  ok grant_order

unfoldable pub parse_grant_order :
    Dict JsonValue → Dict ParticipantSpec → Result ScenarioError (List String)
unfolding grant_order_of
parse_grant_order raw participants = do
  policy_raw ← mapping (must_be_object in_policy) (get_or raw "policy" (obj end))
  grant_order_of (keys participants) (get policy_raw "grant_order")
