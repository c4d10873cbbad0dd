-- ===== src/ScenarioParser/Participants/Guarantees.antt =====
-- What the readers of participants and of the grant order in src/ddsleuth/scenario.py guarantee.
use ddsleuth.Json.{Dict, JsonValue, end, get, get_or, insert, null, obj, of_fields}
use ddsleuth.Model.{ParticipantSpec}
use ddsleuth.Model.EventKind.{value}
use ddsleuth.Prelude.{
  from_guard, from_ok, ok-injective, All, Bool-cases, List, Memᴰ, String, [], and-true, eq_iff,
  false≢true, inl, inr, leb, length, ok, refl, subst, sym, ◌&&◌, ◌==◌, ◌↔◌, ◌∙◌, ◌∷◌, ◌≡◌, ◌⊎◌,
}
use ddsleuth.ScenarioParser.Participants.{
  grant_order_of, included, keys, listed_once, parse_grant_order, parse_identity, parse_participant,
  parse_participants, participants_from, permission_lists,
}
use ddsleuth.ScenarioParser.Values.{
  entry_must_be_object, grant_order_duplicates, grant_order_incomplete, in_participant, in_policy,
  is_actor_name, mapping, must_be_object, needs_two_participants, participant_must_be_object,
  require_string, string_list, unsafe_actor_name,
}
use ddsleuth.ScenarioParser.WellFormed.{AllDistinct, IsNamed}
use ddsleuth.ScenarioParser.Checks.{AllDistinct-listed_once, included_mem, require_string-not_blank}

parse_participant-IsNamed :
    (name : String) (participant_raw : JsonValue) {participant : ParticipantSpec}
    → parse_participant name participant_raw ≡ ok participant
    → IsNamed (name, participant)
unfolding parse_participant
parse_participant-IsNamed name participant_raw h =
    from_ok (mapping participant_must_be_object participant_raw) _ h λ raw _ h1.
      from_guard (is_actor_name name) (unsafe_actor_name name) _ h1 λ safe h2.
        from_ok (require_string raw "role" (in_participant name)) _ h2 λ role read_role h3.
          from_ok
            (mapping (entry_must_be_object (in_participant name) "permissions")
              (get_or raw "permissions" (obj end)))
            _ h3
            λ permissions_raw _ h4.
              from_ok (permission_lists name permissions_raw) _ h4 λ permissions _ h5.
                from_ok (parse_identity name (get raw "identity")) _ h5 λ identity _ made.
                  subst (λ participant. IsNamed (name, participant)) (ok-injective _ _ made)
                    (safe, refl, require_string-not_blank _ _ _ role read_role)

module _ {V : Type 0} where
  All-insert :
      (P : String × V → Type 0) (k : String) (v : V) (d : Dict V)
      → ((w : V) (j : String) → P (k, v) → P (j, w) → j ≡ k → P (j, v))
      → P (k, v)
      → All P d
      → All P (insert k v d)
  All-insert P k v [] keeps p ps = (p, tt)
  All-insert P k v ((j, w) ∷ d) keeps p (q, qs) = elim (Bool-cases (j == k)) [
    | inl e ↦ rw e (keeps w j p q ((eq_iff j k).0 e), qs)
    | inr e ↦ rw e (q, All-insert P k v d keeps p qs)
  ]

  keys-insert :
      (k : String) (v : V) (d : Dict V) (x : String)
      → Memᴰ x (keys (insert k v d))
      → (x ≡ k) ⊎ Memᴰ x (keys d)
  keys-insert k v [] x (Memᴰ.head e) = inl e
  keys-insert k v [] x (Memᴰ.tail m) = elim m [ ]
  keys-insert k v ((j, w) ∷ d) x m = elim (Bool-cases (j == k)) [
    | inl e ↦ inr (rw e at m)
    | inr e ↦ elim (rw e at m) [
      | Memᴰ.head e ↦ inr (Memᴰ.head e)
      | Memᴰ.tail later ↦ elim (keys-insert k v d x later) [
        | inl e ↦ inl e
        | inr there ↦ inr (Memᴰ.tail there)
      ]
    ]
  ]

  AllDistinct-insert :
      (k : String) (v : V) (d : Dict V) → AllDistinct (keys d) → AllDistinct (keys (insert k v d))
  AllDistinct-insert k v [] distinct_keys = (λ m. elim m [ ], tt)
  AllDistinct-insert k v ((j, w) ∷ d) (new, distinct_keys) = elim (Bool-cases (j == k)) [
    | inl e ↦ rw e (new, distinct_keys)
    | inr e ↦ rw e (
      λ m. elim (keys-insert k v d j m) [
        | inl same ↦ false≢true (sym e ∙ (eq_iff j k).1 same)
        | inr there ↦ new there
      ],
      AllDistinct-insert k v d distinct_keys,
    )
  ]

IsNamed-same :
    (k j : String) (v w : ParticipantSpec)
    → IsNamed (k, v)
    → IsNamed (j, w)
    → j ≡ k
    → IsNamed (j, v)
IsNamed-same k j v w (safe, named, role) _ e =
    subst (λ i. IsNamed (i, v)) (sym e) (safe, named, role)

abbrev AreParticipants : Dict ParticipantSpec → Type 0
AreParticipants participants = All IsNamed participants × AllDistinct (keys participants)

participants_from-AreParticipants :
    (entries : Dict JsonValue) (participants : Dict ParticipantSpec) {result : Dict ParticipantSpec}
    → participants_from entries participants ≡ ok result
    → AreParticipants participants
    → AreParticipants result
unfolding participants_from
participants_from-AreParticipants [] participants h valid =
    subst AreParticipants (ok-injective participants _ h) valid
participants_from-AreParticipants ((name, raw) ∷ entries) participants h (named, distinct_names) =
    from_ok (parse_participant name raw) _ h λ participant read h1.
      let valid = parse_participant-IsNamed name raw read in
      participants_from-AreParticipants entries (insert name participant participants) h1 (
        All-insert IsNamed name participant participants
            (λ w j p q e. IsNamed-same name j participant w p q e) valid named,
        AllDistinct-insert name participant participants distinct_names,
      )

pub parse_participants-AreParticipants :
    (value : JsonValue) {participants : Dict ParticipantSpec}
    → parse_participants value ≡ ok participants
    → All IsNamed participants × AllDistinct (keys participants)
unfolding parse_participants
parse_participants-AreParticipants (obj fields) h =
    from_guard (leb 2 (length (of_fields fields))) needs_two_participants _ h
      λ _ h1. participants_from-AreParticipants (of_fields fields) [] h1 (tt, tt)
parse_participants-AreParticipants _ h = cc

abbrev GrantsAll : List String → List String → Type 0
GrantsAll names grant_order =
    AllDistinct grant_order × ((name : String) → Memᴰ name grant_order ↔ Memᴰ name names)

grant_order_of-GrantsAll :
    (names : List String) (value : JsonValue) {grant_order : List String}
    → AllDistinct names
    → grant_order_of names value ≡ ok grant_order
    → GrantsAll names grant_order
unfolding grant_order_of
grant_order_of-GrantsAll names null distinct_names h =
    subst (GrantsAll names) (ok-injective names _ h) (distinct_names, λ name. (λ m. m, λ m. m))
grant_order_of-GrantsAll names value distinct_names h =
    from_ok (string_list value in_policy "grant_order") _ h λ grant_order _ h1.
      from_guard (listed_once grant_order) grant_order_duplicates _ h1 λ once h2.
        from_guard (included grant_order names && included names grant_order) grant_order_incomplete
          _ h2
          λ same made.
            let (all_known, all_listed) = and-true _ _ same in
            subst (GrantsAll names) (ok-injective grant_order _ made) (
              AllDistinct-listed_once grant_order once,
              λ name. (
                λ m. included_mem grant_order names all_known m,
                λ m. included_mem names grant_order all_listed m,
              ),
            )

pub parse_grant_order-GrantsAll :
    (raw : Dict JsonValue) (participants : Dict ParticipantSpec) {grant_order : List String}
    → AllDistinct (keys participants)
    → parse_grant_order raw participants ≡ ok grant_order
    → AllDistinct grant_order
      × ((name : String) → Memᴰ name grant_order ↔ Memᴰ name (keys participants))
unfolding parse_grant_order
parse_grant_order-GrantsAll raw participants distinct_names h =
    from_ok (mapping (must_be_object in_policy) (get_or raw "policy" (obj end))) _ h
      λ policy_raw _ h1.
        grant_order_of-GrantsAll (keys participants) (get policy_raw "grant_order") distinct_names
          h1
