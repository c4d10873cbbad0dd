-- ===== src/Trajectory/Inferred/Adjacent.antt =====
-- Which crossings src/ddsleuth/trajectory.py infers from the roles of a document.
use ddsleuth.Json.{as_str, Dict, JsonValue, get, str}
use ddsleuth.Prelude.{
  Option-cases, ltb, ◌∙◌, All, Bool-cases, List, Memᴰ, String, [], ap, inl, inr, length, none, ok,
  refl, some, subst, sym, ◌∷◌, ◌≡◌, ◌⊎◌,
}
use ddsleuth.Reduction.Plans.{roles}
use ddsleuth.Trajectory.Causal.{CausalActionMutation}
use ddsleuth.Trajectory.Inferred.{
  causal_action_mutations, infer_planned, infer_role, infer_roles, Inference, PlannedAction,
  mutation_of, planned_in,
}
use ddsleuth.Oracles.Lifecycle.Revocations.{as_str_eq}
use ddsleuth.Trajectory.Inferred.Crossings.{
  Ends, IsAdjacent, IsInferred, infer_actions-Ends, then-Ends,
}

IsInferred-of :
    (raw : Dict JsonValue) (role : Dict JsonValue) (actor : String) (planned : List PlannedAction)
    → Memᴰ role (roles raw)
    → get role "actor" ≡ str actor
    → planned_in (get role "actions") ≡ some planned
    → (m : CausalActionMutation) → IsAdjacent actor planned m
    → IsInferred raw m
IsInferred-of raw role actor planned there acts plans m adjacent = record {
  role = role;
  there = there;
  acts = acts ∙ ap str (sym (actor_of_crossing adjacent.crosses));
  planned = planned;
  plans = plans;
  adjacent =
      subst (λ a. IsAdjacent a planned m) (sym (actor_of_crossing adjacent.crosses)) adjacent;
}
  where
    actor_of_crossing :
        {first second : PlannedAction} {P Q : Type 0}
        → ((m ≡ mutation_of actor "before" second first) × P)
          ⊎ ((m ≡ mutation_of actor "after" first second) × Q)
        → m.actor ≡ actor
    actor_of_crossing (inl (e, h)) = ap (λ (n : CausalActionMutation). n.actor) e
    actor_of_crossing (inr (e, h)) = ap (λ (n : CausalActionMutation). n.actor) e

role-Ends :
    (raw : Dict JsonValue) (role : Dict JsonValue) (found : Inference)
    → Memᴰ role (roles raw)
    → All (IsInferred raw) found.mutations
    → Ends (IsInferred raw) (infer_role (as_str (get role "actor")) (get role "actions") found)
unfolding infer_role infer_planned
role-Ends raw role found there all = elim (Option-cases (as_str (get role "actor"))) [
  | inl nobody ↦ rw nobody (found, refl, all)
  | inr (actor, acts) ↦ elim (Option-cases (planned_in (get role "actions"))) [
    | inl unplanned ↦ rw (acts, unplanned) (found, refl, all)
    | inr (planned, plans) ↦ elim (Bool-cases (ltb (length planned) 2)) [
      | inl short ↦ rw (acts, plans, short) (found, refl, all)
      | inr long ↦
          rw (acts, plans, long)
            (infer_actions-Ends (IsInferred raw) actor planned
              (IsInferred-of raw role actor planned there (as_str_eq (get role "actor") actor acts)
                plans)
              0 none [] planned found refl refl refl all)
    ]
  ]
]

infer_roles-Ends :
    (raw : Dict JsonValue) (some_roles : List (Dict JsonValue)) (found : Inference)
    → ((role : Dict JsonValue) → Memᴰ role some_roles → Memᴰ role (roles raw))
    → All (IsInferred raw) found.mutations
    → Ends (IsInferred raw) (infer_roles some_roles found)
unfolding infer_roles
infer_roles-Ends raw [] found there all = (found, refl, all)
infer_roles-Ends raw (role ∷ others) found there all =
    then-Ends (IsInferred raw) (infer_role (as_str (get role "actor")) (get role "actions") found) _
      (role-Ends raw role found (there role (Memᴰ.head refl)) all)
      λ further right.
        infer_roles-Ends raw others further (λ other m. there other (Memᴰ.tail m)) right

-- The inference always returns mutations, and each of them moves a boundary action across an
-- adjacent action of the same role of the document, all of whose actions have an id and an
-- operation: before the action ahead of it or after the action behind it.
pub causal_action_mutations-IsInferred :
    (raw : Dict JsonValue)
    → (mutations : List CausalActionMutation) × (causal_action_mutations raw ≡ ok mutations)
      × All (IsInferred raw) mutations
unfolding causal_action_mutations
causal_action_mutations-IsInferred raw =
    let (found, same, right) =
      infer_roles-Ends raw (roles raw) (record { resulting_orders = []; mutations = [] })
        (λ role m. m) tt in
    (found.mutations, rw same refl, right)
