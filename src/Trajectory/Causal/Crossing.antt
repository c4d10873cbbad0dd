-- ===== src/Trajectory/Causal/Crossing.antt =====
-- What a causal mutation of src/ddsleuth/trajectory.py does to a plan.
use ddsleuth.Json.{equals_str, Float, JsonValue, str}
use ddsleuth.Json.Numbers.{lt_float}
use ddsleuth.Prelude.{
  refl, String, [], eq_refl, false≢true, true, ◌≢◌, from_guard, ok_of_or_error, or_error, from_ok,
  ok-injective, All, ap, arith, eq_nat_iff, length-append, subst, sym, ◌∙◌, List, eq_nat, get_elem?,
  length, ok, some, sorted, ◌++◌, ◌∷◌, ◌≡◌,
}
use ddsleuth.Trajectory.Causal.{
  id_value, insert_at, place_of, with_times, CausalActionMutation, apply_causal_action_mutation,
  first_position, is_action, last_position, no_anchor, remove_at, times_of, unknown_action,
  untimed_actions,
}
use ddsleuth.Trajectory.Causal.Positions.{Fail, cut_first, cut_last, get_elem?-cut, remove_at-cut}
use ddsleuth.Trajectory.Causal.Times.{
  All-append, All-append_cases, All-placed, IsMapping, all_mappings, inserted, length-placed,
  length-sorted, placed,
}
use ddsleuth.Oracles.Base.{equals_str_eq}
use ddsleuth.Trajectory.Causal.Retimed.{AreRetimed, AreRetimed-with_times}

-- No action of the list has the id.
abbrev pub IsAbsent : String → List JsonValue → Type 0
IsAbsent action_id actions = All (λ action. id_value action ≢ str action_id) actions

IsAbsent-Fail :
    (action_id : String) (actions : List JsonValue)
    → Fail (is_action action_id) actions
    → IsAbsent action_id actions
IsAbsent-Fail action_id [] fails = tt
IsAbsent-Fail action_id (action ∷ actions) (fails, rest) = (
  λ same.
      let found : equals_str (id_value action) action_id ≡ true = rw same (eq_refl action_id) in
      false≢true (sym fails ∙ found),
  IsAbsent-Fail action_id actions rest,
)

-- The plan's last action of that id is taken from its place and put next to the first other action
-- of the anchor's id, and the other actions keep their order. The times of the plan, put in order,
-- are given to the places, and nothing else of an action is changed.
pub record IsCrossing (mutation : CausalActionMutation) (plan result : List JsonValue)
    : Type 0 where
  pub ahead : List JsonValue
  pub moved : JsonValue
  pub behind : List JsonValue
  pub planned : plan ≡ ahead ++ moved ∷ behind
  pub moves : id_value moved ≡ str mutation.action_id
  pub last_of_id : IsAbsent mutation.action_id behind
  pub left : List JsonValue
  pub anchor : JsonValue
  pub right : List JsonValue
  pub anchored : ahead ++ behind ≡ left ++ anchor ∷ right
  pub anchors : id_value anchor ≡ str mutation.anchor_action_id
  pub first_of_anchor : IsAbsent mutation.anchor_action_id left
  pub times : List Float
  pub timed : times_of plan ≡ ok times
  pub crossed :
      AreRetimed
        (left ++ (placed mutation.relation moved anchor ++ right))
        (sorted lt_float times)
        result

module _ (mutation : CausalActionMutation) (us : List JsonValue) (moved : JsonValue)
    (vs xs : List JsonValue) (anchor : JsonValue) (ys : List JsonValue) (times : List Float)
    (rest : us ++ vs ≡ xs ++ anchor ∷ ys) (moves : id_value moved ≡ str mutation.action_id)
    (anchors : id_value anchor ≡ str mutation.anchor_action_id)
    (last : Fail (is_action mutation.action_id) vs)
    (first : Fail (is_action mutation.anchor_action_id) xs)
    (timed : times_of (us ++ moved ∷ vs) ≡ ok times)
    (all_timed : length times ≡ length (us ++ moved ∷ vs)) where
  abbrev put : List JsonValue
  put = xs ++ (placed mutation.relation moved anchor ++ ys)

  put_mappings : All IsMapping put
  put_mappings =
      let all_plan = all_mappings (us ++ moved ∷ vs) times timed all_timed in
      let (ahead, (here, behind)) = All-append_cases IsMapping us (moved ∷ vs) all_plan in
      let others : All IsMapping (xs ++ anchor ∷ ys) =
        subst (All IsMapping) rest (All-append IsMapping us vs ahead behind) in
      let (left, (there, right)) = All-append_cases IsMapping xs (anchor ∷ ys) others in
      All-append IsMapping xs _ left (
        All-append IsMapping (placed mutation.relation moved anchor) ys
          (All-placed mutation.relation moved anchor here there) right)

  length-put : length (sorted lt_float times) ≡ length put
  length-put =
      let pair = length-placed mutation.relation moved anchor in
      let others : length (us ++ vs) ≡ length (xs ++ anchor ∷ ys) = ap length rest in
      omega (
        arith,
        length-sorted times,
        length-append {0} us vs,
        length-append {0} us (moved ∷ vs),
        length-append {0} xs (anchor ∷ ys),
        length-append {0} (placed mutation.relation moved anchor) ys,
        length-append {0} xs (placed mutation.relation moved anchor ++ ys),
      )

  IsCrossing-of : IsCrossing mutation (us ++ moved ∷ vs) (with_times (sorted lt_float times) put)
  IsCrossing-of = record {
    ahead = us;
    moved = moved;
    behind = vs;
    planned = refl;
    moves = moves;
    last_of_id = IsAbsent-Fail mutation.action_id vs last;
    left = xs;
    anchor = anchor;
    right = ys;
    anchored = rest;
    anchors = anchors;
    first_of_anchor = IsAbsent-Fail mutation.anchor_action_id xs first;
    times = times;
    timed = timed;
    crossed = AreRetimed-with_times (sorted lt_float times) put length-put put_mappings;
  }

-- If a mutation is applied to a plan, the last action of its id is taken from its place and put next
-- to the first other action of the anchor's id, before it or after it as the relation says; the
-- other actions keep their order; the times of the plan, put in order, are given to the places; and
-- nothing else of an action is changed.
pub apply_causal_action_mutation-IsCrossing :
    (plan : List JsonValue) (mutation : CausalActionMutation) (result : List JsonValue)
    → apply_causal_action_mutation plan mutation ≡ ok result
    → IsCrossing mutation plan result
unfolding apply_causal_action_mutation
apply_causal_action_mutation-IsCrossing plan mutation result h =
    let moves = is_action mutation.action_id in
    let anchors = is_action mutation.anchor_action_id in
    from_ok (or_error unknown_action (last_position moves plan)) _ h λ position at h1.
      from_ok (or_error unknown_action (last_position anchors plan)) _ h1 λ anchor there h2.
        from_ok (times_of plan) _ h2 λ times timed h3.
          from_guard (eq_nat (length times) (length plan)) untimed_actions _ h3 λ all_timed h4.
            from_ok (or_error unknown_action (get_elem? plan position)) _ h4 λ moved got h5.
              from_ok (or_error no_anchor (first_position anchors (remove_at position plan))) _ h5
                λ anchor_index first made.
                  let (cut, none_behind) =
                    cut_last moves plan position (ok_of_or_error _ _ position at) in
                  let held : get_elem? plan position ≡ some cut.found =
                    rw (cut.whole, ← cut.place) (get_elem?-cut cut.before cut.found cut.after) in
                  let same : cut.found ≡ moved = cc (held, ok_of_or_error _ _ moved got) in
                  let rest : remove_at position plan ≡ cut.before ++ cut.after =
                    rw (cut.whole, ← cut.place) (remove_at-cut cut.before cut.found cut.after) in
                  let (second, none_ahead) =
                    cut_first anchors (remove_at position plan) anchor_index
                      (ok_of_or_error _ _ anchor_index first) in
                  let put : insert_at (place_of mutation.relation anchor_index) moved
                        (remove_at position plan)
                      ≡ second.before
                        ++ (placed mutation.relation cut.found second.found ++ second.after) =
                    rw (second.whole, ← second.place, ← same)
                      (inserted mutation.relation second.before cut.found second.found
                        second.after) in
                  let crossing =
                    IsCrossing-of mutation cut.before cut.found cut.after second.before second.found
                      second.after times (sym rest ∙ second.whole) (equals_str_eq _ _ cut.passes)
                      (equals_str_eq _ _ second.passes) none_behind none_ahead
                      (subst (λ p. times_of p ≡ ok times) cut.whole timed)
                      (subst (λ (p : List JsonValue). length times ≡ length p) cut.whole
                        ((eq_nat_iff (length times) (length plan)).0 all_timed)) in
                  subst (λ p. IsCrossing mutation p result) (sym cut.whole)
                    (subst (IsCrossing mutation (cut.before ++ cut.found ∷ cut.after))
                      (ap (with_times (sorted lt_float times)) (sym put) ∙ ok-injective _ _ made)
                      crossing)
