-- ===== src/Oracles/EndpointLifecycle/Boundaries.antt =====
-- The destruction that src/ddsleuth/oracles/endpoint_lifecycle.py splits a run at.
use ddsleuth.Model.{EvidenceEvent, is_kind}
use ddsleuth.Model.EventKind.{endpoint_destroyed, value}
use ddsleuth.Oracles.EndpointLifecycle.{boundary}
use ddsleuth.Prelude.{
  List, Memᴰ, Option, String, [], ap, append_found, arith, collect, collect_complete, collect_sound,
  eq_iff, eq_refl, get_elem?, none, not, not-false, or-false, passed_of_some, refl, some, subst,
  suc, sym, zero-add, ℕ, ◌+◌, ◌<◌, ◌==◌, ◌||◌, ◌∙◌, ◌∷◌, ◌≡◌, ◌≤◌,
}

-- The actor destroyed an endpoint.
pub record IsBoundary (actor : String) (event : EvidenceEvent) : Type 0 where
  pub by : event.actor ≡ actor
  pub of_kind : event.kind ≡ value endpoint_destroyed

-- The event at the position is the only destruction of the run.
pub record OnlyBoundary (actor : String) (events : List EvidenceEvent) (at : ℕ) : Type 0 where
  pub event : EvidenceEvent
  pub there : get_elem? events at ≡ some event
  pub is_boundary : IsBoundary actor event
  pub alone :
      (place : ℕ) (other : EvidenceEvent)
      → get_elem? events place ≡ some other
      → IsBoundary actor other
      → place ≡ at

module _ (actor : String) where
  boundary_sound :
      (index : ℕ) (event : EvidenceEvent) (found : ℕ × EvidenceEvent)
      → boundary actor index event ≡ some found
      → IsBoundary actor event × (found ≡ (index, event))
  boundary_sound index event found h =
      let (kept, same) =
        passed_of_some (not (event.actor == actor) || not (is_kind event endpoint_destroyed))
          (index, event) found h in
      let (by, kind) = or-false (not (event.actor == actor)) _ kept in
      (
        record {
          by = (eq_iff event.actor actor).0 (not-false _ by);
          of_kind = (eq_iff event.kind "endpoint.destroyed").0 (not-false _ kind);
        },
        sym same,
      )

  boundary_complete :
      (index : ℕ) (event : EvidenceEvent)
      → IsBoundary actor event
      → boundary actor index event ≡ some (index, event)
  boundary_complete index event b = rw (b.by, b.of_kind) (rw eq_refl refl)

  index_of_mem :
      (i : ℕ) (events : List EvidenceEvent) (found : ℕ × EvidenceEvent)
      → Memᴰ found (collect (boundary actor) i events)
      → i ≤ found.0
  index_of_mem i events found m =
      let f = collect_sound (boundary actor) i events m in
      let (_, same) = boundary_sound (i + f.place) f.item found f.found in
      let at : found.0 ≡ i + f.place = ap (λ (p : ℕ × EvidenceEvent). p.0) same in omega (arith, at)

  increasing :
      (i : ℕ) (events : List EvidenceEvent) (x y : ℕ × EvidenceEvent)
      (rest : List (ℕ × EvidenceEvent))
      → collect (boundary actor) i events ≡ x ∷ y ∷ rest
      → x.0 < y.0
  increasing i [] x y rest h = cc
  increasing i (event ∷ events) x y rest h =
      here (boundary actor i event) refl (increasing (suc i) events x y rest) h
    where
      here :
          (o : Option (ℕ × EvidenceEvent))
          → boundary actor i event ≡ o
          → (collect (boundary actor) (suc i) events ≡ x ∷ y ∷ rest → x.0 < y.0)
          → append_found o (collect (boundary actor) (suc i) events) ≡ x ∷ y ∷ rest
          → x.0 < y.0
      here none e further h = further h
      here (some found) e further h =
          let (_, same) = boundary_sound i event found e in
          let first : found ≡ x = cc in
          let later : collect (boundary actor) (suc i) events ≡ y ∷ rest = cc in
          let at : x.0 ≡ i = ap (λ (p : ℕ × EvidenceEvent). p.0) (sym first ∙ same) in
          let behind = index_of_mem (suc i) events y (rw later (Memᴰ.head refl)) in
          omega (arith, at, behind)

  module _ (events : List EvidenceEvent) where
    abbrev boundaries : List (ℕ × EvidenceEvent)
    boundaries = collect (boundary actor) 0 events

    IsBoundary-mem :
        (found : ℕ × EvidenceEvent)
        → Memᴰ found boundaries
        → (get_elem? events found.0 ≡ some found.1) × IsBoundary actor found.1
    IsBoundary-mem found m =
        let f = collect_sound (boundary actor) 0 events m in
        let (is_boundary, same) = boundary_sound (0 + f.place) f.item found f.found in
        let at : f.place ≡ found.0 =
          sym (ap (λ (p : ℕ × EvidenceEvent). p.0) same ∙ zero-add f.place) in
        let what : f.item ≡ found.1 = sym (ap (λ (p : ℕ × EvidenceEvent). p.1) same) in
        (
          subst (λ n. get_elem? events n ≡ some found.1) at (f.at ∙ ap some what),
          subst (IsBoundary actor) what is_boundary,
        )

    mem_of_boundary :
        (place : ℕ) (event : EvidenceEvent)
        → get_elem? events place ≡ some event
        → IsBoundary actor event
        → Memᴰ (place, event) boundaries
    mem_of_boundary place event at b =
        let shift : 0 + place ≡ place = zero-add place in
        collect_complete (boundary actor) 0 events place at
          (boundary_complete (0 + place) event b ∙ ap (λ n. some (n, event)) shift)

    pub OnlyBoundary-single :
        (at : ℕ) (event : EvidenceEvent)
        → boundaries ≡ (at, event) ∷ []
        → OnlyBoundary actor events at
    OnlyBoundary-single at event h =
        let (there, is_boundary) =
          IsBoundary-mem (at, event)
            (subst (λ l. Memᴰ {A = ℕ × EvidenceEvent} (at, event) l) (sym h) (Memᴰ.head refl)) in
        record {
          event = event;
          there = there;
          is_boundary = is_boundary;
          alone = λ place other p b. only_one place other (
              subst (λ l. Memᴰ {A = ℕ × EvidenceEvent} (place, other) l) h
                (mem_of_boundary place other p b));
        }
      where
        only_one :
            (place : ℕ) (other : EvidenceEvent)
            → Memᴰ {A = ℕ × EvidenceEvent} (place, other) ((at, event) ∷ [])
            → place ≡ at
        only_one place other (Memᴰ.head e) = ap (λ (p : ℕ × EvidenceEvent). p.0) e
        only_one place other (Memᴰ.tail m) = elim m [ ]

    pub single_of_OnlyBoundary :
        (at : ℕ) (b : OnlyBoundary actor events at) → boundaries ≡ (at, b.event) ∷ []
    single_of_OnlyBoundary at b =
        alone boundaries refl (mem_of_boundary at b.event b.there b.is_boundary)
      where
        alone :
            (found : List (ℕ × EvidenceEvent))
            → boundaries ≡ found
            → Memᴰ (at, b.event) found
            → found ≡ (at, b.event) ∷ []
        alone [] h m = elim m [ ]
        alone (x ∷ []) h (Memᴰ.head e) = ap (λ y. y ∷ []) (sym e)
        alone (x ∷ []) h (Memᴰ.tail m) = elim m [ ]
        alone (x ∷ y ∷ rest) h m =
            let (x_there, x_is) =
              IsBoundary-mem x (subst (λ l. Memᴰ x l) (sym h) (Memᴰ.head refl)) in
            let (y_there, y_is) =
              IsBoundary-mem y (subst (λ l. Memᴰ y l) (sym h) (Memᴰ.tail (Memᴰ.head refl))) in
            let at_x = b.alone x.0 x.1 x_there x_is in
            let at_y = b.alone y.0 y.1 y_there y_is in
            let apart = increasing 0 events x y rest h in absurd (omega (arith, at_x, at_y, apart))
