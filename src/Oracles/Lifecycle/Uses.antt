-- ===== src/Oracles/Lifecycle/Uses.antt =====
-- The second loop of src/ddsleuth/oracles/lifecycle.py: a use of an authority that was revoked.
use ddsleuth.Json.{Dict, lookup, JsonValue, get, str}
use ddsleuth.Model.{EvidenceEvent}
use ddsleuth.Model.EventKind.{
  application_sample_received, decrypt_capability, forge_capability, protected_message_accepted,
  value,
}
use ddsleuth.Oracles.Base.{event_sequence}
use ddsleuth.Oracles.Lifecycle.{Use, stale_use, is_accepted, is_capability, used_authority}
use ddsleuth.Oracles.Lifecycle.Revocations.{LastRevokedAt, as_str_eq, kept_of_some}
use ddsleuth.Prelude.{
  Bool-cases, Option, if◌then◌else◌, inl, inr, none, List, String, arith, eq_iff, get_elem?, lt_int,
  not, not-false, or-false, refl, some, true, ℕ, ℤ, ◌||◌, ◌≡◌, ◌⊎◌,
}

-- An accepted capability of the authority: a decryption, a forgery, an accepted protected message,
-- a sample received, or an outage.
pub record IsUse (authority_id : String) (event : EvidenceEvent) : Type 0 where
  pub capability :
      (event.kind ≡ value decrypt_capability)
      ⊎ ((event.kind ≡ value forge_capability)
          ⊎ ((event.kind ≡ value protected_message_accepted)
              ⊎ ((event.kind ≡ value application_sample_received)
                  ⊎ (event.kind ≡ "capability.availability"))))
  pub accepted :
      (event.outcome ≡ "succeeded") ⊎ ((event.outcome ≡ "accepted") ⊎ (event.outcome ≡ "received"))
  pub authority : get event.attributes "authority_id" ≡ str authority_id

-- A use of an authority behind the last revocation of it, by their sequence numbers.
pub record StaleUse (actor : JsonValue) (events : List EvidenceEvent) : Type 0 where
  pub place : ℕ
  pub event : EvidenceEvent
  pub there : get_elem? events place ≡ some event
  pub authority_id : String
  pub revoked : ℤ
  pub is_use : IsUse authority_id event
  pub last : LastRevokedAt actor authority_id 0 events revoked
  pub behind : lt_int revoked (event_sequence place event.sequence) ≡ true

module _ (event : EvidenceEvent) where
  capability_of_test :
      is_capability event ≡ true
      → (event.kind ≡ value decrypt_capability)
        ⊎ ((event.kind ≡ value forge_capability)
            ⊎ ((event.kind ≡ value protected_message_accepted)
                ⊎ ((event.kind ≡ value application_sample_received)
                    ⊎ (event.kind ≡ "capability.availability"))))
  capability_of_test h = ground (
    arith,
    eq_iff event.kind "capability.decrypt",
    eq_iff event.kind "capability.forge",
    eq_iff event.kind "crypto.protected_message_accepted",
    eq_iff event.kind "application.sample_received",
    eq_iff event.kind "capability.availability",
  )

  accepted_of_test :
      is_accepted event ≡ true
      → (event.outcome ≡ "succeeded")
        ⊎ ((event.outcome ≡ "accepted") ⊎ (event.outcome ≡ "received"))
  accepted_of_test h = ground (
    arith,
    eq_iff event.outcome "succeeded",
    eq_iff event.outcome "accepted",
    eq_iff event.outcome "received",
  )

module _ (authority_id : String) (event : EvidenceEvent) where
  pub test_of_capability : IsUse authority_id event → is_capability event ≡ true
  test_of_capability u = ground (
    arith,
    u.capability,
    eq_iff event.kind "capability.decrypt",
    eq_iff event.kind "capability.forge",
    eq_iff event.kind "crypto.protected_message_accepted",
    eq_iff event.kind "application.sample_received",
    eq_iff event.kind "capability.availability",
  )

  test_of_accepted : IsUse authority_id event → is_accepted event ≡ true
  test_of_accepted u = ground (
    arith,
    u.accepted,
    eq_iff event.outcome "succeeded",
    eq_iff event.outcome "accepted",
    eq_iff event.outcome "received",
  )

  pub IsUse-some : used_authority event ≡ some authority_id → IsUse authority_id event
  IsUse-some h =
      let (kept, read) =
        kept_of_some (not (is_capability event) || not (is_accepted event)) _ authority_id h in
      let (capability, accepted) = or-false (not (is_capability event)) _ kept in
      record {
        capability = capability_of_test event (not-false _ capability);
        accepted = accepted_of_test event (not-false _ accepted);
        authority = as_str_eq _ _ read;
      }

  pub some_of_IsUse : IsUse authority_id event → used_authority event ≡ some authority_id
  some_of_IsUse u =
      rw (test_of_capability u, used_authority) (rw (test_of_accepted u, u.authority) refl)

-- What the body of the second loop found.
pub record Found (revocations : Dict ℤ) (index : ℕ) (event : EvidenceEvent) : Type 0 where
  pub authority_id : String
  pub revoked : ℤ
  pub used : used_authority event ≡ some authority_id
  pub held : lookup authority_id revocations ≡ some revoked
  pub behind : lt_int revoked (event_sequence index event.sequence) ≡ true

module _ (revocations : Dict ℤ) (index : ℕ) (event : EvidenceEvent) where
  Found-at :
      (authority_id : String) (o : Option ℤ) (b : Use)
      → used_authority event ≡ some authority_id
      → lookup authority_id revocations ≡ o
      → (elim o [
        | none ↦ none
        | some at ↦
            if lt_int at (event_sequence index event.sequence)
            then some (event_sequence index event.sequence, event, at)
            else none
      ])
        ≡ some b
      → Found revocations index event
  Found-at authority_id none b used held h = cc
  Found-at authority_id (some n) b used held h =
      elim (Bool-cases (lt_int n (event_sequence index event.sequence))) [
        | inl behind ↦ record {
          authority_id = authority_id;
          revoked = n;
          used = used;
          held = held;
          behind = behind;
        }
        | inr early ↦ absurd (nothing (rw early at h))
      ]
    where
      nothing : none ≡ some b → ⊥
      nothing e = cc

  pub Found-some :
      (o : Option String) (b : Use)
      → used_authority event ≡ o
      → stale_use revocations index event ≡ some b
      → Found revocations index event
  Found-some none b used h = absurd (nothing (rw (used, stale_use) at h))
    where
      nothing : none ≡ some b → ⊥
      nothing e = cc
  Found-some (some authority_id) b used h =
      Found-at authority_id (lookup authority_id revocations) b used refl
        (rw (used, stale_use) at h)

  pub some_of_Found :
      Found revocations index event → (b : Use) × (stale_use revocations index event ≡ some b)
  some_of_Found f = (
    (event_sequence index event.sequence, event, f.revoked),
    rw (f.used, stale_use) (rw f.held (rw f.behind refl)),
  )
