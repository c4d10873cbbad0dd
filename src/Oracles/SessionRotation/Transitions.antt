-- ===== src/Oracles/SessionRotation/Transitions.antt =====
-- The rotations that src/ddsleuth/oracles/session_rotation.py considers, and their session ids.
use ddsleuth.Json.{JsonValue, as_plain_int, equals_int, equals_str, get, str}
use ddsleuth.Model.{EvidenceEvent, is_kind}
use ddsleuth.Model.EventKind.{key_rotated, value}
use ddsleuth.Oracles.Base.{equals_str_eq}
use ddsleuth.Oracles.SampleDelivery.Attempts.{Filled}
use ddsleuth.Oracles.SessionRotation.{
  Parameters, Rotations, advances, advances_by, is_configured, is_rotation, next_session, rotation,
}
use Prim.Native.Nat.{◌/◌}
use ddsleuth.Prelude.{
  ◌-◌, Bool, List, Memᴰ, Option, String, [], and-true, ap, arith, collect, collect_complete,
  collect_sound, eq_iff, eq_int_iff, eq_refl, false, get_elem?, if◌then◌else◌, negsuc, none, not,
  not-false, passed_of_some, pos, refl, some, subst, suc, sym, true, zero, zero-add, ℕ, ℤ, ◌*◌, ◌+◌,
  ◌<◌, ◌==◌, ◌^◌, ◌↔◌, ◌∙◌, ◌∷◌, ◌≡◌,
}

-- A rotation of the writer's session key in the assertion's context.
pub record IsRotation (p : Parameters) (event : EvidenceEvent) : Type 0 where
  pub of_kind : event.kind ≡ value key_rotated
  pub by : event.actor ≡ p.writer
  pub outcome : event.outcome ≡ "rotated"
  pub key : get event.attributes "rotation_kind" ≡ str "session_key"
  pub context : get event.attributes "context" ≡ str p.context

-- The session id after the rotation is the 32-bit successor of the one before it, both numbers.
pub record Advances (event : EvidenceEvent) : Type 0 where
  pub previous : ℤ
  pub current : ℤ
  pub previous_id : as_plain_int (get event.attributes "previous_session_id") ≡ some previous
  pub current_id : as_plain_int (get event.attributes "session_id") ≡ some current
  pub successor : current ≡ pos (next_session previous)

abbrev pub Asked : Option ℤ → JsonValue → Type 0
Asked none v = Unit
Asked (some n) v = equals_int v n ≡ true

-- The rotation is configured as the assertion asks, where it asks.
abbrev pub IsConfigured : Parameters → EvidenceEvent → Type 0
IsConfigured p event = Asked p.max_blocks (get event.attributes "max_blocks_per_session")

module _ (p : Parameters) (event : EvidenceEvent) where
  IsRotation-test : is_rotation p event ≡ true → IsRotation p event
  IsRotation-test h =
      let (kind, more) = and-true (is_kind event key_rotated) _ h in
      let (by, more) = and-true (event.actor == p.writer) _ more in
      let (outcome, more) = and-true (event.outcome == "rotated") _ more in
      let (key, context) =
        and-true (equals_str (get event.attributes "rotation_kind") "session_key") _ more in
      record {
        of_kind = (eq_iff event.kind (value key_rotated)).0 kind;
        by = (eq_iff event.actor p.writer).0 by;
        outcome = (eq_iff event.outcome "rotated").0 outcome;
        key = equals_str_eq _ _ key;
        context = equals_str_eq _ _ context;
      }

  test_of_IsRotation : IsRotation p event → is_rotation p event ≡ true
  test_of_IsRotation r = rw (r.of_kind, r.by, r.outcome, r.key, r.context) (simp eq_refl)

  pub IsConfigured-iff : (is_configured p event ≡ true) ↔ IsConfigured p event
  unfolding is_configured
  IsConfigured-iff = by_blocks p.max_blocks
    where
      by_blocks :
          (o : Option ℤ)
          → ((elim o [
            | none ↦ true
            | some n ↦ equals_int (get event.attributes "max_blocks_per_session") n
          ])
              ≡ true)
            ↔ Asked o (get event.attributes "max_blocks_per_session")
      by_blocks none = (λ h. tt, λ h. refl)
      by_blocks (some n) = (λ h. h, λ h. h)

advances_by_sound :
    (event : EvidenceEvent) (previous current : Option ℤ)
    → as_plain_int (get event.attributes "previous_session_id") ≡ previous
    → as_plain_int (get event.attributes "session_id") ≡ current
    → advances_by previous current ≡ true
    → Advances event
advances_by_sound event none current e f h = cc
advances_by_sound event (some previous) none e f h = cc
advances_by_sound event (some previous) (some current) e f h = record {
  previous = previous;
  current = current;
  previous_id = e;
  current_id = f;
  successor = (eq_int_iff current (pos (next_session previous))).0 h;
}

pub Advances-iff : (event : EvidenceEvent) → (advances event ≡ true) ↔ Advances event
unfolding advances
Advances-iff event = (
  λ h. advances_by_sound event _ _ refl refl h,
  λ a.
      rw (a.previous_id, a.current_id)
        ((eq_int_iff a.current (pos (next_session a.previous))).1 a.successor),
)

module _ (p : Parameters) (events : List EvidenceEvent) where
  abbrev pub rotations : Rotations
  rotations = collect (rotation p) 0 events

  pub IsRotation-mem :
      (item : ℕ × EvidenceEvent)
      → Memᴰ item rotations
      → (get_elem? events item.0 ≡ some item.1) × IsRotation p item.1
  IsRotation-mem item m =
      let f = collect_sound (rotation p) 0 events m in
      let (test, same) =
        passed_of_some (not (is_rotation p f.item)) (0 + f.place, f.item) item
          (flip_test (is_rotation p f.item) (0 + f.place, f.item) ∙ f.found) in
      let at : f.place ≡ item.0 =
        sym (zero-add f.place) ∙ ap (λ (x : ℕ × EvidenceEvent). x.0) same in
      let what : f.item ≡ item.1 = ap (λ (x : ℕ × EvidenceEvent). x.1) same in
      (
        subst (λ n. get_elem? events n ≡ some item.1) at (f.at ∙ ap some what),
        subst (IsRotation p) what (IsRotation-test p f.item (not-false _ test)),
      )
    where
      flip_test :
          (b : Bool) (x : ℕ × EvidenceEvent)
          → (if not b then none else some x) ≡ (if b then some x else none)
      flip_test true x = refl
      flip_test false x = refl

  pub mem_of_rotation :
      (place : ℕ) (event : EvidenceEvent)
      → get_elem? events place ≡ some event
      → IsRotation p event
      → Memᴰ (place, event) rotations
  mem_of_rotation place event at r =
      collect_complete (rotation p) 0 events place at
        (rw (zero-add, rotation) (rw (test_of_IsRotation p event r) refl))

  pub Filled-rotation :
      (writer : String) (place : ℕ) (event : EvidenceEvent)
      → get_elem? events place ≡ some event
      → Filled writer events place
  Filled-rotation writer place event at k early = below events place k at early
    where
      below :
          (xs : List EvidenceEvent) (n k : ℕ)
          → get_elem? xs n ≡ some event
          → k < n
          → (e : EvidenceEvent) × (get_elem? xs k ≡ some e)
      below [] n k h early = cc
      below (x ∷ xs) n zero h early = (x, refl)
      below (x ∷ xs) zero (suc k) h early = absurd (omega (arith, early))
      below (x ∷ xs) (suc n) (suc k) h early = below xs n k h (omega (arith, early))

-- The successor of a session id fits 32 bits, and is the successor up to a multiple of 2^32, for a
-- negative id -(n + 1) as for any other.
pub next_session_lem :
    (n : ℕ)
    → ((next_session (pos n) < 2 ^ 32) × ((q : ℕ) × (next_session (pos n) + q * 2 ^ 32 ≡ n + 1)))
      × ((next_session (negsuc n) < 2 ^ 32)
          × ((q : ℕ) × (next_session (negsuc n) + n ≡ q * 2 ^ 32)))
unfolding next_session
next_session_lem n = (
  (omega arith, ((n + 1) / 2 ^ 32, omega arith)),
  (omega arith, ((n + (2 ^ 32 - 1)) / 2 ^ 32, omega arith)),
)
