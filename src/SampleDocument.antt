-- ===== src/SampleDocument.antt =====
-- The document of a small experiment, for the tests: bob listens, and alice publishes when bob is
-- ready.
use ddsleuth.Json.{field, Dict, Items, JsonValue, arr, cons, end, int, nil, obj, str}
use ddsleuth.Prelude.{String, [], pos, ◌∷◌}

abbrev barrier : JsonValue
barrier = obj (field "actor" (str "bob") (field "kind" (str "probe.ready") end))

abbrev pub action : String → JsonValue → JsonValue
action id at_ms =
    obj (field "id" (str id) (field "at_ms" at_ms (field "operation" (str "publish") end)))

abbrev bob_role : JsonValue
bob_role = obj (field "actor" (str "bob") (field "command" (arr (cons (str "probe") nil)) end))

abbrev alice_role : Items → JsonValue
alice_role actions = obj (
    field "actor" (str "alice") (
      field "command" (arr (cons (str "probe") nil))
        (field "start_after" (arr (cons barrier nil)) (field "actions" (arr actions) end))))

abbrev pub document : Items → Dict JsonValue
document actions =
    ("schema_version", int (pos 1))
    ∷ ("id", str "s1")
    ∷ ("title", str "sample")
    ∷ ("implementation", obj (field "name" (str "fastdds") end))
    ∷ ("domain_id", int (pos 7))
    ∷ (
      "participants",
      obj (
          field "alice" (obj (field "role" (str "publisher") end))
            (field "bob" (obj (field "role" (str "subscriber") end)) end)),
    )
    ∷ (
      "assertions",
      arr (cons (obj (field "id" (str "a1") (field "oracle" (str "recipient_binding") end))) nil),
    )
    ∷ (
      "execution",
      obj (
          field "network" (str "loopback") (
            field "log_format" (str "native")
              (field "roles" (arr (cons bob_role (cons (alice_role actions) nil))) end))),
    )
    ∷ []

abbrev pub no_digest : Dict JsonValue → String
no_digest raw = "d1"

abbrev pub two_actions : Items
two_actions = cons (action "one" (int (pos 5))) (cons (action "two" (int (pos 5))) nil)
