-- ===== src/Reduction/Removal.antt =====
-- What the removal of actions in src/ddsleuth/reduction.py leaves of a plan.
use ddsleuth.Json.{
  float, Dict, JsonValue, arr, bool, get, insert, int, lookup-insert, null, obj, of_fields,
  of_fields-to_fields, of_items, of_items-to_items, str, to_items,
}
use ddsleuth.Prelude.{
  from_ok, ok-injective, All, Bool, Bool-cases, List, String, [], ap, ap₂, collect, inl, inr, keep,
  map, not, ok, refl, suc, sym, ℕ, ◌++◌, ◌==◌, ◌∷◌, ◌≡◌,
}
use ddsleuth.Reduction.Loop.{remove_actions, valid}
use ddsleuth.Reduction.Plans.{
  ActionKey, action_key, action_keys, change_dicts, dicts, has_key, kept_actions, keys_of_actions,
  keys_of_roles, on_entry, on_items, on_object, on_roles, role_keys, roles, roles_in,
  roles_of_execution, with_kept, without_actions,
}
use ddsleuth.ScenarioParser.{parse_scenario}

-- An action that is a mapping with a text for its id.
abbrev pub HasId : JsonValue → Type 0
HasId (obj fields) = (id : String) × (get (of_fields fields) "id" ≡ str id)
HasId _ = ⊥

abbrev ActionsHaveIds : JsonValue → Type 0
ActionsHaveIds (arr items) = All HasId (of_items items)
ActionsHaveIds _ = Unit

-- Every action of every role has one.
abbrev pub HasIds : Dict JsonValue → Type 0
HasIds raw = All (λ (role : Dict JsonValue). ActionsHaveIds (get role "actions")) (roles raw)

module _ (removed : List ActionKey) where
  abbrev stays : ActionKey → Bool
  stays key = not (has_key removed key)

  keys-kept_actions :
      (actor : String) (i j k : ℕ) (actions : List JsonValue)
      → All HasId actions
      → collect (action_key actor) i (kept_actions actor removed j actions)
        ≡ keep stays (collect (action_key actor) k actions)
  unfolding kept_actions
  keys-kept_actions actor i j k [] ids = refl
  keys-kept_actions actor i j k (obj fields ∷ actions) ((id, e), ids) =
      elim (Bool-cases (has_key removed (actor, id))) [
        | inl gone ↦ rw (e, gone) (keys-kept_actions actor i (suc j) (suc k) actions ids)
        | inr stay ↦
            rw (e, stay)
              (rw e (
                ap (λ rest. (actor, id) ∷ rest)
                  (keys-kept_actions actor (suc i) (suc j) (suc k) actions ids)))
      ]
  keys-kept_actions actor i j k (_ ∷ actions) (no_id, ids) = absurd no_id

  keys-with_kept :
      (role : Dict JsonValue) (actor actions : JsonValue)
      → get role "actor" ≡ actor
      → get role "actions" ≡ actions
      → ActionsHaveIds actions
      → role_keys (with_kept removed role actor actions)
        ≡ keep stays (keys_of_actions actor actions)
  keys-with_kept role (str actor) (arr items) named planned ids =
      let kept = arr (to_items (kept_actions actor removed 0 (of_items items))) in
      let same_actor : get (insert "actions" kept role) "actor" ≡ str actor =
        rw lookup-insert named in
      let new_actions : get (insert "actions" kept role) "actions" ≡ kept = rw lookup-insert refl in
      rw (same_actor, new_actions)
        (rw of_items-to_items (keys-kept_actions actor 0 0 0 (of_items items) ids))
  keys-with_kept role (str actor) _ named planned ids = rw (named, planned) refl
  keys-with_kept role _ _ named planned ids = rw named refl

  keep-append : (xs ys : List ActionKey) → keep stays (xs ++ ys) ≡ keep stays xs ++ keep stays ys
  keep-append [] ys = refl
  keep-append (x ∷ xs) ys = elim (Bool-cases (has_key removed x)) [
    | inl gone ↦ rw gone (keep-append xs ys)
    | inr stay ↦ rw stay (ap (λ rest. x ∷ rest) (keep-append xs ys))
  ]

  keys-map_without :
      (rest : List (Dict JsonValue))
      → All (λ (role : Dict JsonValue). ActionsHaveIds (get role "actions")) rest
      → keys_of_roles (map (without_actions removed) rest) ≡ keep stays (keys_of_roles rest)
  unfolding keys_of_roles without_actions
  keys-map_without [] ids = refl
  keys-map_without (role ∷ rest) (id, ids) =
      rw (keep-append (role_keys role) (keys_of_roles rest)) (
        ap₂ (λ xs ys. xs ++ ys)
          (keys-with_kept role (get role "actor") (get role "actions") refl refl id)
          (keys-map_without rest ids))

module _ (change : Dict JsonValue → Dict JsonValue) where
  dicts-change_dicts :
      (vs : List JsonValue) → dicts (change_dicts change vs) ≡ map change (dicts vs)
  unfolding dicts change_dicts
  dicts-change_dicts [] = refl
  dicts-change_dicts (obj fields ∷ vs) =
      ap₂ (λ x xs. x ∷ xs) (of_fields-to_fields (change (of_fields fields))) (dicts-change_dicts vs)
  dicts-change_dicts (null ∷ vs) = dicts-change_dicts vs
  dicts-change_dicts (bool b ∷ vs) = dicts-change_dicts vs
  dicts-change_dicts (int n ∷ vs) = dicts-change_dicts vs
  dicts-change_dicts (float x ∷ vs) = dicts-change_dicts vs
  dicts-change_dicts (str s ∷ vs) = dicts-change_dicts vs
  dicts-change_dicts (arr items ∷ vs) = dicts-change_dicts vs

  roles_in-on_items :
      (v : JsonValue) → roles_in (on_items (change_dicts change) v) ≡ map change (roles_in v)
  roles_in-on_items (arr items) = rw of_items-to_items (dicts-change_dicts (of_items items))
  roles_in-on_items null = refl
  roles_in-on_items (bool b) = refl
  roles_in-on_items (int n) = refl
  roles_in-on_items (float x) = refl
  roles_in-on_items (str s) = refl
  roles_in-on_items (obj fields) = refl

  get-on_entry :
      (key : String) (g : JsonValue → JsonValue) (d : Dict JsonValue)
      → g null ≡ null
      → get (on_entry key g d) key ≡ g (get d key)
  get-on_entry key g [] h = sym h
  get-on_entry key g ((name, v) ∷ d) h = elim (Bool-cases (name == key)) [
    | inl e ↦ rw e (rw e refl)
    | inr e ↦ rw e (rw e (get-on_entry key g d h))
  ]

  abbrev on_execution : JsonValue → JsonValue
  on_execution = on_object (on_entry "roles" (on_items (change_dicts change)))

  roles_of_execution-on_execution :
      (v : JsonValue) → roles_of_execution (on_execution v) ≡ map change (roles_of_execution v)
  roles_of_execution-on_execution (obj fields) = rw of_fields-to_fields (
      rw (get-on_entry "roles" (on_items (change_dicts change)) (of_fields fields) refl)
        (roles_in-on_items (get (of_fields fields) "roles")))
  roles_of_execution-on_execution null = refl
  roles_of_execution-on_execution (bool b) = refl
  roles_of_execution-on_execution (int n) = refl
  roles_of_execution-on_execution (float x) = refl
  roles_of_execution-on_execution (str s) = refl
  roles_of_execution-on_execution (arr items) = refl

  pub roles-on_roles :
      (raw : Dict JsonValue) → roles (on_roles (change_dicts change) raw) ≡ map change (roles raw)
  unfolding roles on_roles
  roles-on_roles raw =
      rw (get-on_entry "execution" on_execution raw refl)
        (roles_of_execution-on_execution (get raw "execution"))

-- If the removal of actions from a document whose actions have ids returns, the actions that are
-- left are those that were not to be removed, in their order.
pub action_keys-remove_actions :
    (canonical_digest : Dict JsonValue → String) (raw : Dict JsonValue) (removed : List ActionKey)
    (candidate : Dict JsonValue)
    → HasIds raw
    → remove_actions canonical_digest raw removed ≡ ok candidate
    → action_keys candidate ≡ keep (λ key. not (has_key removed key)) (action_keys raw)
unfolding remove_actions valid action_keys
action_keys-remove_actions canonical_digest raw removed candidate ids h =
    let changed = on_roles (change_dicts (without_actions removed)) raw in
    from_ok (parse_scenario canonical_digest changed) _ h λ scenario parsed made.
      let same : changed ≡ candidate = ok-injective changed candidate made in
      rw (← same) (
        rw (roles-on_roles (without_actions removed) raw)
          (keys-map_without removed (roles raw) ids))
