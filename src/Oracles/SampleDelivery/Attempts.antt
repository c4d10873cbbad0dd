-- ===== src/Oracles/SampleDelivery/Attempts.antt =====
-- The backward search of src/ddsleuth/oracles/session_rotation.py finds the writer's last write
-- attempt before a position, unless a written sample is later.
use ddsleuth.Json.{as_plain_int, get}
use ddsleuth.Model.{EvidenceEvent, is_kind}
use ddsleuth.Model.EventKind.{application_sample_written, application_write_attempt, value}
use ddsleuth.Oracles.SampleDelivery.{before, enumerate, find_attempt, sample_at}
use ddsleuth.Prelude.{
  eq_refl, ◌↔◌, Bool-cases, eq_iff, false, false≢true, inl, inr, ltb, ltb→lt, refl, subst, sym,
  true, List, Option, String, [], ap, arith, get_elem?, if◌then◌else◌, none, not, some, suc, zero,
  zero-add, ℕ, ℤ, ◌<◌, ◌==◌, ◌∙◌, ◌≡◌,
}
use ddsleuth.Oracles.SampleDelivery.Places.{IsWrite, LastAttempt, before-suc, get_elem?-enumerate}
use ddsleuth.Samples.{event}

module _ (writer : String) (events : List EvidenceEvent) where
  abbrev found_before : ℕ → Option (ℕ × ℤ)
  found_before position = find_attempt writer (before position (enumerate 0 events) [])

  -- What one step of the search does with the event at hand.
  abbrev step : ℕ → EvidenceEvent → Option (ℕ × ℤ) → Option (ℕ × ℤ)
  step index event further =
      if not (event.actor == writer)
      then further
      else if is_kind event application_write_attempt
      then sample_at index (as_plain_int (get event.attributes "sample_index"))
      else if is_kind event application_sample_written
      then none
      else further

  found_before-suc :
      (n : ℕ) (event : EvidenceEvent)
      → get_elem? events n ≡ some event
      → found_before (suc n) ≡ step n event (found_before n)
  unfolding find_attempt
  found_before-suc n event h = ap (find_attempt writer) (
      before-suc n (enumerate 0 events) [] (n, event)
        (get_elem?-enumerate n 0 events event h ∙ ap (λ i. some (i, event)) (zero-add n)))

  not_by_other : (event : EvidenceEvent) → (event.actor == writer) ≡ false → ¬ IsWrite writer event
  not_by_other event differs w =
      let same = (eq_iff event.actor writer).1 w.by in false≢true (sym differs ∙ same)

  not_of_kind :
      (event : EvidenceEvent)
      → is_kind event application_write_attempt ≡ false
      → is_kind event application_sample_written ≡ false
      → ¬ IsWrite writer event
  not_of_kind event not_attempt no_sample w = elim w.of_kind [
    | inl e ↦ false≢true (sym not_attempt ∙ (eq_iff event.kind _).1 e)
    | inr e ↦ false≢true (sym no_sample ∙ (eq_iff event.kind _).1 e)
  ]

  further-LastAttempt :
      (n place : ℕ) (sample : ℤ) (event : EvidenceEvent)
      → get_elem? events n ≡ some event
      → ¬ IsWrite writer event
      → LastAttempt writer events n place sample
      → LastAttempt writer events (suc n) place sample
  further-LastAttempt n place sample event here no_write a = record {
    event = a.event;
    there = a.there;
    before_position = let b = a.before_position in omega (arith, b);
    by = a.by;
    of_kind = a.of_kind;
    numbered = a.numbered;
    last = λ later other behind early there. elim (Bool-cases (ltb later n)) [
      | inl e ↦ a.last later other behind (ltb→lt later n e) there
      | inr e ↦
          let at : later ≡ n = ground (arith, e, early) in
          let same : other ≡ event = cc (subst (λ k. get_elem? events k ≡ some other) at there) in
          subst (λ x. ¬ IsWrite writer x) (sym same) no_write
    ];
  }

  step_sound :
      (n place : ℕ) (sample : ℤ) (event : EvidenceEvent)
      → get_elem? events n ≡ some event
      → (found_before n ≡ some (place, sample) → LastAttempt writer events n place sample)
      → step n event (found_before n) ≡ some (place, sample)
      → LastAttempt writer events (suc n) place sample
  step_sound n place sample event here earlier h = elim (Bool-cases (event.actor == writer)) [
    | inr other ↦
        further-LastAttempt n place sample event here (not_by_other event other)
          (earlier (rw other at h))
    | inl by ↦ elim (Bool-cases (is_kind event application_write_attempt)) [
      | inl attempt ↦
          numbered (as_plain_int (get event.attributes "sample_index")) refl (rw (by, attempt) at h)
            by attempt
      | inr not_attempt ↦ elim (Bool-cases (is_kind event application_sample_written)) [
        | inl written ↦
            let nothing : none ≡ some (place, sample) = rw (by, not_attempt, written) at h in cc
        | inr no_sample ↦
            further-LastAttempt n place sample event here (not_of_kind event not_attempt no_sample)
              (earlier (rw (by, not_attempt, no_sample) at h))
      ]
    ]
  ]
    where
      numbered :
          (o : Option ℤ)
          → as_plain_int (get event.attributes "sample_index") ≡ o
          → sample_at n o ≡ some (place, sample)
          → (event.actor == writer) ≡ true
          → is_kind event application_write_attempt ≡ true
          → LastAttempt writer events (suc n) place sample
      numbered none e h by attempt = cc
      numbered (some s) e h by attempt =
          let same : (n, s) ≡ (place, sample) = cc in
          let at : n ≡ place = ap (λ (p : ℕ × ℤ). p.0) same in
          record {
            event = event;
            there = subst (λ k. get_elem? events k ≡ some event) at here;
            before_position = omega (arith, at);
            by = (eq_iff event.actor writer).0 by;
            of_kind = (eq_iff event.kind (value application_write_attempt)).0 attempt;
            numbered = e ∙ ap (λ (p : ℕ × ℤ). some p.1) same;
            last = λ later other behind early there. absurd (omega (arith, at, behind, early));
          }

  step-not_write :
      (n : ℕ) (event : EvidenceEvent) (further : Option (ℕ × ℤ))
      → ¬ IsWrite writer event
      → step n event further ≡ further
  step-not_write n event further no_write = elim (Bool-cases (event.actor == writer)) [
    | inr other ↦ rw other refl
    | inl by ↦
        let is_by = (eq_iff event.actor writer).0 by in
        elim (Bool-cases (is_kind event application_write_attempt)) [
          | inl attempt ↦
              absurd
                (no_write (record { by = is_by; of_kind = inl ((eq_iff event.kind _).0 attempt) }))
          | inr not_attempt ↦ elim (Bool-cases (is_kind event application_sample_written)) [
            | inl written ↦
                absurd (
                  no_write (record { by = is_by; of_kind = inr ((eq_iff event.kind _).0 written) }))
            | inr no_sample ↦ rw (by, not_attempt, no_sample) refl
          ]
        ]
  ]

  step_complete :
      (n place : ℕ) (sample : ℤ) (event : EvidenceEvent)
      → get_elem? events n ≡ some event
      → (LastAttempt writer events n place sample → found_before n ≡ some (place, sample))
      → LastAttempt writer events (suc n) place sample
      → step n event (found_before n) ≡ some (place, sample)
  step_complete n place sample event here earlier a = elim (Bool-cases (ltb place n)) [
    | inl e ↦
        let no_write = a.last n event (ltb→lt place n e) (omega arith) here in
        step-not_write n event (found_before n) no_write
        ∙ earlier (record {
          event = a.event;
          there = a.there;
          before_position = ltb→lt place n e;
          by = a.by;
          of_kind = a.of_kind;
          numbered = a.numbered;
          last = λ later other behind early there.
              a.last later other behind (omega (arith, early)) there;
        })
    | inr e ↦
        let at : place ≡ n = let b = a.before_position in ground (arith, e, b) in
        let there = subst (λ k. get_elem? events k ≡ some a.event) at a.there in
        let same : event ≡ a.event = cc (here, there) in
        subst (λ x. step n x (found_before n) ≡ some (place, sample)) (sym same)
          (at_attempt a.by a.of_kind a.numbered at)
  ]
    where
      at_attempt :
          a.event.actor ≡ writer
          → a.event.kind ≡ value application_write_attempt
          → as_plain_int (get a.event.attributes "sample_index") ≡ some sample
          → place ≡ n
          → step n a.event (found_before n) ≡ some (place, sample)
      at_attempt by of_kind numbered at =
          rw (by, of_kind, numbered) (rw (eq_refl writer) (rw at refl))

  -- Every position before this one holds an event.
  abbrev pub Filled : ℕ → Type 0
  Filled n = (k : ℕ) → k < n → (event : EvidenceEvent) × (get_elem? events k ≡ some event)

  pub find_attempt_iff :
      (n place : ℕ) (sample : ℤ)
      → Filled n
      → (found_before n ≡ some (place, sample)) ↔ LastAttempt writer events n place sample
  unfolding find_attempt
  find_attempt_iff zero place sample filled =
      (λ h. cc, λ a. absurd (let b = a.before_position in omega (arith, b)))
  find_attempt_iff (suc n) place sample filled =
      let (event, here) = filled n (omega arith) in
      let earlier = find_attempt_iff n place sample (λ k b. filled k (omega (arith, b))) in
      let step_at = found_before-suc n event here in
      (
        λ h. step_sound n place sample event here earlier.0 (sym step_at ∙ h),
        λ a. step_at ∙ step_complete n place sample event here earlier.1 a,
      )
