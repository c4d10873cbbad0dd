-- ===== src/Oracles/SessionRotation/Verdict.antt =====
-- When the oracle of src/ddsleuth/oracles/session_rotation.py reports a violation, and when it
-- passes.
use ddsleuth.Evidence.{EvidenceBundle}
use ddsleuth.Model.{AssertionSpec, EvidenceEvent, Scenario}
use ddsleuth.Oracles.Base.{pass, violation}
use ddsleuth.Oracles.SampleDelivery.{delivery, is_delivered}
use ddsleuth.Oracles.SampleDelivery.Receipts.{IsDelivered, is_delivered_iff}
use ddsleuth.Oracles.SessionRotation.{
  Parameters, Rotations, advances, is_configured, is_rotation, read_parameters, report,
  session_rotation_delivery,
}
use ddsleuth.Oracles.SessionRotation.Transitions.{
  Advances, Advances-iff, Filled-rotation, IsConfigured, IsConfigured-iff, IsRotation,
  mem_of_rotation, IsRotation-mem, rotations,
}
use ddsleuth.Prelude.{
  Bool, Bool-cases, List, Occurs, any_of_mem, arith, fails_of_none, false, false≢true, get_elem?,
  inl, inr, keep, length, ltb, mem_of_any, non_empty, non_empty-keep, none_of_fails, not, not-false,
  not-true, refl, some, sym, true, ℕ, ◌↔◌, ◌∙◌, ◌≡◌, ◌≤◌,
}

-- Some rotation did not advance the session id.
abbrev pub SomeStuck : Parameters → List EvidenceEvent → Type 0
SomeStuck p events = Occurs (λ event. IsRotation p event × (¬ Advances event)) events

-- Each rotation advanced the session id, was configured as asked, and its sample was delivered.
abbrev pub AllDelivered : Parameters → List EvidenceEvent → Type 0
AllDelivered p events =
    (place : ℕ) (event : EvidenceEvent)
    → get_elem? events place ≡ some event
    → IsRotation p event
    → Advances event × IsConfigured p event × IsDelivered p.writer p.reader events place

-- The run has as many rotations as the assertion asks for.
abbrev pub EnoughRotations : Parameters → List EvidenceEvent → Type 0
EnoughRotations p events = p.minimum_rotations ≤ length (rotations p events)

module _ (p : Parameters) (events : List EvidenceEvent) where
  abbrev is_stuck : ℕ × EvidenceEvent → Bool
  is_stuck item = not (advances item.1)

  abbrev is_mismatch : ℕ × EvidenceEvent → Bool
  is_mismatch item = not (is_configured p item.1)

  abbrev is_missing : ℕ × EvidenceEvent → Bool
  is_missing item = not (is_delivered (delivery p.writer p.reader events item.0))

  stuck_iff : (non_empty (keep is_stuck (rotations p events)) ≡ true) ↔ SomeStuck p events
  stuck_iff = (
    λ h.
        let (item, m, test) =
          mem_of_any is_stuck (rotations p events)
            (sym (non_empty-keep is_stuck (rotations p events)) ∙ h) in
        let (there, is_rotation) = IsRotation-mem p events item m in
        (
          item.0,
          item.1,
          there,
          (is_rotation, λ a. false≢true (sym (not-true _ test) ∙ (Advances-iff item.1).1 a)),
        ),
    λ (place, event, there, (is_rotation, stuck)).
        let fails : advances event ≡ false = elim (Bool-cases (advances event)) [
          | inl e ↦ absurd (stuck ((Advances-iff event).0 e))
          | inr e ↦ e
        ] in
        non_empty-keep is_stuck (rotations p events)
        ∙ any_of_mem is_stuck (rotations p events)
            (mem_of_rotation p events place event there is_rotation) (rw fails refl),
  )

  AllDelivered-iff :
      ((non_empty (keep is_stuck (rotations p events)) ≡ false)
        × (non_empty (keep is_mismatch (rotations p events)) ≡ false)
        × (non_empty (keep is_missing (rotations p events)) ≡ false))
      ↔ AllDelivered p events
  AllDelivered-iff = (
    λ (none_stuck, none_mismatch, none_missing) place event there is_rotation.
        let m = mem_of_rotation p events place event there is_rotation in
        let filled = Filled-rotation p events p.writer place event there in
        (
          (Advances-iff event).0 (not-false _ (fails_of_none is_stuck _ none_stuck m)),
          (IsConfigured-iff p event).0 (not-false _ (fails_of_none is_mismatch _ none_mismatch m)),
          (is_delivered_iff p.writer p.reader events place filled).0
              (not-false _ (fails_of_none is_missing _ none_missing m)),
        ),
    λ all. (
      none_of_fails is_stuck (rotations p events) (λ item m.
          let (there, is_rotation) = IsRotation-mem p events item m in
          let (advanced, _, _) = all item.0 item.1 there is_rotation in
          rw ((Advances-iff item.1).1 advanced) refl),
      none_of_fails is_mismatch (rotations p events) (λ item m.
          let (there, is_rotation) = IsRotation-mem p events item m in
          let (_, configured, _) = all item.0 item.1 there is_rotation in
          rw ((IsConfigured-iff p item.1).1 configured) refl),
      none_of_fails is_missing (rotations p events) (λ item m.
          let (there, is_rotation) = IsRotation-mem p events item m in
          let (_, _, arrived) = all item.0 item.1 there is_rotation in
          let filled = Filled-rotation p events p.writer item.0 item.1 there in
          rw ((is_delivered_iff p.writer p.reader events item.0 filled).1 arrived) refl),
    ),
  )

module _ (assertion : AssertionSpec) (p : Parameters) (events : List EvidenceEvent)
    (found : Rotations) where
  abbrev few : Bool
  few = ltb (length found) p.minimum_rotations

  report_iff :
      let status = (report assertion p events found).status in
      let stuck = non_empty (keep (is_stuck p events) found) in
      let mismatch = non_empty (keep (is_mismatch p events) found) in
      let missing = non_empty (keep (is_missing p events) found) in
      ((status ≡ violation) ↔ ((few ≡ false) × (stuck ≡ true)))
      × ((status ≡ pass)
          ↔ ((few ≡ false) × (stuck ≡ false) × (mismatch ≡ false) × (missing ≡ false)))
  unfolding report
  report_iff = elim (Bool-cases few) [
    | inl e ↦ rw e ((λ h. cc, λ h. cc), (λ h. cc, λ h. cc))
    | inr e ↦ elim (Bool-cases (non_empty (keep (is_stuck p events) found))) [
      | inl s ↦ rw (e, s) ((λ h. (refl, refl), λ h. refl), (λ h. cc, λ h. cc))
      | inr s ↦ elim (Bool-cases (non_empty (keep (is_mismatch p events) found))) [
        | inl m ↦ rw (e, s, m) ((λ h. cc, λ h. cc), (λ h. cc, λ h. cc))
        | inr m ↦ elim (Bool-cases (non_empty (keep (is_missing p events) found))) [
          | inl d ↦ rw (e, s, m, d) ((λ h. cc, λ h. cc), (λ h. cc, λ h. cc))
          | inr d ↦ rw (e, s, m, d) ((λ h. cc, λ h. cc), (λ h. (refl, refl, refl, refl), λ h. refl))
        ]
      ]
    ]
  ]

-- For an assertion whose parameters are read, the oracle reports a violation exactly when the run
-- has enough rotations of the writer's session key and one of them does not advance the session id
-- by one modulo 2^32. It passes exactly when there are enough, each advances it, each is
-- configured with the number of blocks that the assertion asks for, and the sample of each, that
-- of the writer's last write before it, which is an attempt, is received by the reader behind it.
pub session_rotation_delivery_verdict :
    (scenario : Scenario) (assertion : AssertionSpec) (evidence : EvidenceBundle) (p : Parameters)
    → read_parameters scenario assertion ≡ some p
    → let status = (session_rotation_delivery scenario assertion evidence).status in
      let events = evidence.events in
      ((status ≡ violation) ↔ (EnoughRotations p events × SomeStuck p events))
      × ((status ≡ pass) ↔ (EnoughRotations p events × AllDelivered p events))
unfolding session_rotation_delivery
session_rotation_delivery_verdict scenario assertion evidence p read =
    let events = evidence.events in
    let (on_violation, on_pass) = report_iff assertion p events (rotations p events) in
    let stuck = stuck_iff p events in
    let all_iff = AllDelivered-iff p events in
    let enough_of : ltb (length (rotations p events)) p.minimum_rotations ≡ false
        → EnoughRotations p events =
      λ h. ground (arith, h) in
    let of_enough : EnoughRotations p events
        → ltb (length (rotations p events)) p.minimum_rotations ≡ false =
      λ h. ground (arith, h) in
    rw (read, session_rotation_delivery)
      (
        (
          λ h. let (few, s) = on_violation.0 h in (enough_of few, stuck.0 s),
          λ (enough, s). on_violation.1 (of_enough enough, stuck.1 s),
        ),
        (
          λ h. let (few, s, m, d) = on_pass.0 h in (enough_of few, all_iff.0 (s, m, d)),
          λ (enough, all). let (s, m, d) = all_iff.1 all in on_pass.1 (of_enough enough, s, m, d),
        ),
      )
