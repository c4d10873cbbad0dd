-- ===== src/Oracles/Lifecycle/Revocations.antt =====
-- What the first loop of src/ddsleuth/oracles/lifecycle.py keeps: the last revocation of each
-- authority.
use ddsleuth.Json.{Dict, JsonValue, as_str, get, lookup, lookup-insert, str}
use ddsleuth.Model.{EvidenceEvent, is_kind}
use ddsleuth.Model.EventKind.{authority_revoked, value}
use ddsleuth.Oracles.Base.{
  Selects, Selects-not-excludes, event_sequence, excludes, not-excludes_of_Selects,
}
use ddsleuth.Oracles.Lifecycle.{revocations_from, note_revocation, revoked_authority}
use ddsleuth.Prelude.{
  Bool-cases, inl, inr, sym, Bool, List, Option, String, [], ap, arith, eq_iff, eq_refl, false,
  if◌then◌else◌, none, not, not-false, or-false, refl, some, suc, true, ℕ, ℤ, ◌==◌, ◌||◌, ◌∙◌, ◌∷◌,
  ◌≡◌, ◌≢◌, ◌⊎◌,
}

module _ (actor : JsonValue) (authority_id : String) where
  -- A successful revocation of the authority, by an actor that the assertion selects.
  pub record IsRevocation (event : EvidenceEvent) : Type 0 where
    pub of_kind : event.kind ≡ value authority_revoked
    pub outcome : event.outcome ≡ "succeeded"
    pub by : Selects actor event.actor
    pub authority : get event.attributes "authority_id" ≡ str authority_id

  abbrev pub NoRevocation : List EvidenceEvent → Type 0
  NoRevocation [] = Unit
  NoRevocation (event ∷ events) = (¬ IsRevocation event) × NoRevocation events

  -- The last of the events, counted from `index`, that revokes the authority has the number.
  abbrev pub LastRevokedAt : ℕ → List EvidenceEvent → ℤ → Type 0
  LastRevokedAt index [] n = ⊥
  LastRevokedAt index (event ∷ events) n =
      LastRevokedAt (suc index) events n
      ⊎ (IsRevocation event × NoRevocation events × (event_sequence index event.sequence ≡ n))

pub as_str_eq : (v : JsonValue) (s : String) → as_str v ≡ some s → v ≡ str s
as_str_eq (str t) s h = ground arith
as_str_eq _ s h = cc

pub kept_of_some :
    (skip : Bool) (o : Option String) (s : String)
    → (if skip then none else o) ≡ some s
    → (skip ≡ false) × (o ≡ some s)
kept_of_some true o s h = cc
kept_of_some false o s h = (refl, h)

module _ (actor : JsonValue) (authority_id : String) (event : EvidenceEvent) where
  abbrev guarded : Bool
  guarded =
      not (is_kind event authority_revoked)
      || (not (event.outcome == "succeeded") || excludes actor event.actor)

  IsRevocation-some :
      revoked_authority actor event ≡ some authority_id → IsRevocation actor authority_id event
  IsRevocation-some h =
      let (kept, read) = kept_of_some guarded _ authority_id h in
      let (kind, rest) = or-false (not (is_kind event authority_revoked)) _ kept in
      let (outcome, by) = or-false (not (event.outcome == "succeeded")) _ rest in
      record {
        of_kind = (eq_iff event.kind "authorization.revoked").0 (not-false _ kind);
        outcome = (eq_iff event.outcome "succeeded").0 (not-false _ outcome);
        by = Selects-not-excludes actor event.actor by;
        authority = as_str_eq _ _ read;
      }

  some_of_IsRevocation :
      IsRevocation actor authority_id event → revoked_authority actor event ≡ some authority_id
  some_of_IsRevocation r =
      let selected = not-excludes_of_Selects actor event.actor r.by in
      rw (r.of_kind, r.outcome, selected, r.authority) refl

  lookup-note_other :
      (o : Option String) (n : ℤ) (revocations : Dict ℤ)
      → o ≢ some authority_id
      → lookup authority_id (note_revocation o n revocations) ≡ lookup authority_id revocations
  lookup-note_other none n revocations h = refl
  lookup-note_other (some other) n revocations h = elim (Bool-cases (other == authority_id)) [
    | inl same ↦ absurd (h (ap some ((eq_iff other authority_id).0 same)))
    | inr differs ↦
        lookup-insert other authority_id n revocations
        ∙ ap (λ b. if b then some n else lookup authority_id revocations) differs
  ]

  lookup-note_self :
      (n : ℤ) (revocations : Dict ℤ)
      → lookup authority_id (note_revocation (some authority_id) n revocations) ≡ some n
  lookup-note_self n revocations =
      lookup-insert authority_id authority_id n revocations ∙ (rw eq_refl)

  noted_number :
      (o : Option String) (number n : ℤ) (revocations : Dict ℤ)
      → o ≡ some authority_id
      → lookup authority_id (note_revocation o number revocations) ≡ some n
      → number ≡ n
  noted_number o number n revocations same held =
      let noted = rw same at held in cc (lookup-note_self number revocations, noted)

is_or_not : (s : String) (o : Option String) → (o ≡ some s) ⊎ (o ≢ some s)
is_or_not s none = inr (λ e. cc)
is_or_not s (some t) = elim (Bool-cases (t == s)) [
  | inl e ↦ inl (ap some ((eq_iff t s).0 e))
  | inr e ↦ inr (λ same. ground (arith, eq_iff t s))
]

module _ (actor : JsonValue) (authority_id : String) where
  abbrev after_loop : ℕ → List EvidenceEvent → Dict ℤ → Option ℤ
  after_loop index events revocations =
      lookup authority_id (revocations_from actor index events revocations)

  lookup-NoRevocation :
      (index : ℕ) (events : List EvidenceEvent) (revocations : Dict ℤ)
      → NoRevocation actor authority_id events
      → after_loop index events revocations ≡ lookup authority_id revocations
  unfolding revocations_from
  lookup-NoRevocation index [] revocations h = refl
  lookup-NoRevocation index (event ∷ events) revocations (absent, h) =
      lookup-NoRevocation (suc index) events _ h
      ∙ lookup-note_other actor authority_id event (revoked_authority actor event) _ revocations
          (λ e. absent (IsRevocation-some actor authority_id event e))

  -- After the loop the dictionary holds the number of the last revocation.
  pub lookup-last :
      (index : ℕ) (events : List EvidenceEvent) (revocations : Dict ℤ) (n : ℤ)
      → LastRevokedAt actor authority_id index events n
      → after_loop index events revocations ≡ some n
  unfolding revocations_from
  lookup-last index [] revocations n h = absurd h
  lookup-last index (event ∷ events) revocations n (inl later) =
      lookup-last (suc index) events _ n later
  lookup-last index (event ∷ events) revocations n (inr (revokes, none_later, number)) =
      lookup-NoRevocation (suc index) events _ none_later
      ∙ rw (some_of_IsRevocation actor authority_id event revokes)
          (lookup-note_self actor authority_id event _ revocations ∙ ap some number)

  HeldOrLast : ℕ → List EvidenceEvent → Dict ℤ → ℤ → Type 0
  HeldOrLast index events revocations n =
      LastRevokedAt actor authority_id index events n
      ⊎ ((lookup authority_id revocations ≡ some n) × NoRevocation actor authority_id events)

  HeldOrLast-step :
      (index : ℕ) (event : EvidenceEvent) (events : List EvidenceEvent) (revocations : Dict ℤ)
      (n : ℤ) (o : Option String)
      → revoked_authority actor event ≡ o
      → HeldOrLast
          (suc index)
          events
          (note_revocation o (event_sequence index event.sequence) revocations)
          n
      → HeldOrLast index (event ∷ events) revocations n
  unfolding HeldOrLast
  HeldOrLast-step index event events revocations n o e (inl later) = inl (inl later)
  HeldOrLast-step index event events revocations n o e (inr (held, none_later)) =
      elim (is_or_not authority_id o) [
        | inl same ↦ inl (
            inr (
              IsRevocation-some actor authority_id event (e ∙ same),
              none_later,
              noted_number actor authority_id event o _ n revocations same held,
            ))
        | inr other ↦ inr (
          sym (lookup-note_other actor authority_id event o _ revocations other) ∙ held,
          (λ r. other (sym e ∙ some_of_IsRevocation actor authority_id event r), none_later),
        )
      ]

  held_or_last :
      (index : ℕ) (events : List EvidenceEvent) (revocations : Dict ℤ) (n : ℤ)
      → after_loop index events revocations ≡ some n
      → HeldOrLast index events revocations n
  unfolding revocations_from HeldOrLast
  held_or_last index [] revocations n h = inr (h, tt)
  held_or_last index (event ∷ events) revocations n h =
      HeldOrLast-step index event events revocations n (revoked_authority actor event) refl
        (held_or_last (suc index) events _ n h)

  -- A number that the dictionary holds after the loop is that of the last revocation.
  pub last_of_lookup :
      (events : List EvidenceEvent) (n : ℤ)
      → after_loop 0 events [] ≡ some n
      → LastRevokedAt actor authority_id 0 events n
  unfolding HeldOrLast
  last_of_lookup events n h = elim (held_or_last 0 events [] n h) [
    | inl last ↦ last
    | inr (held, _) ↦ cc
  ]
