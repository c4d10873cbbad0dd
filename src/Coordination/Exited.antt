-- ===== src/Coordination/Exited.antt =====
-- Which sources `wait_for_barriers` of src/ddsleuth/coordination.py blames, and when.
use ddsleuth.Coordination.{
  LogEvent, Observed, Waited, failed_sources, has_exited, is_met, pending, sources_exited,
  wait_for_barriers,
}
use ddsleuth.Coordination.Waiting.{
  AreGrowing, Step, Step-wait_for_barriers, all_met, exited, expired, extends_met, further,
}
use ddsleuth.Model.{EventBarrier}
use ddsleuth.Prelude.{
  Bool, Bool-cases, List, Memᴰ, String, [], any_of_mem, ap, eq_iff, eq_refl, false, false≢true, inl,
  inr, keep, keep_of_mem, map, map_mem, mem_append_left, mem_append_right, mem_of_any, mem_of_keep,
  mem_of_map, mem_sorted_texts, non_empty, non_empty_of_mem, not, not-true, refl, subst, sym, true,
  ◌++◌, ◌==◌, ◌↔◌, ◌∙◌, ◌∷◌, ◌≡◌,
}

-- The deadline is not over, and no process has exited that a barrier that is not met waits for.
abbrev pub LetsWait : List EventBarrier → Observed → Type 0
LetsWait barriers o =
    (o.expired ≡ false)
    × ((b : EventBarrier)
        → Memᴰ b barriers
        → is_met o.events b ≡ false
        → has_exited o.exited b ≡ false)

-- A barrier that the observation does not meet waits for the actor, whose process has exited.
pub record IsBlamed (barriers : List EventBarrier) (o : Observed) (name : String) : Type 0 where
  pub barrier : EventBarrier
  pub there : Memᴰ barrier barriers
  pub unmet : is_met o.events barrier ≡ false
  pub waits_for : barrier.actor ≡ name
  pub gone : Memᴰ name o.exited

-- The first observation that does not let the loop wait blames the names, and no others.
pub record SourceExited (barriers : List EventBarrier) (observations : List Observed)
    (names : List String) : Type 0 where
  pub early : List Observed
  pub observed : Observed
  pub late : List Observed
  pub whole : observations ≡ early ++ observed ∷ late
  pub waited : (x : Observed) → Memᴰ x early → LetsWait barriers x
  pub some_name : non_empty names ≡ true
  pub blamed : (name : String) → Memᴰ name names ↔ IsBlamed barriers observed name

has_exited_iff :
    (actors : List String) (b : EventBarrier) → (has_exited actors b ≡ true) ↔ Memᴰ b.actor actors
has_exited_iff actors b = (
  λ h.
      let (name, m, e) = mem_of_any (λ actor. actor == b.actor) actors h in
      subst (λ n. Memᴰ n actors) ((eq_iff name b.actor).0 e) m,
  λ m. any_of_mem (λ actor. actor == b.actor) actors m (eq_refl b.actor),
)

module _ (o : Observed) (barriers : List EventBarrier) where
  abbrev unmet_test : EventBarrier → Bool
  unmet_test b = not (is_met o.events b)

  pub exited_of_blamed :
      (name : String) (blamed : IsBlamed barriers o name)
      → has_exited o.exited blamed.barrier ≡ true
  exited_of_blamed name blamed =
      (has_exited_iff o.exited blamed.barrier).1
        (subst (λ n. Memᴰ n o.exited) (sym blamed.waits_for) blamed.gone)

  pub mem_failed_sources :
      (name : String)
      → Memᴰ name (failed_sources o.exited (pending o.events barriers)) ↔ IsBlamed barriers o name
  mem_failed_sources name =
      let open_barriers = pending o.events barriers in
      let gone = keep (has_exited o.exited) open_barriers in
      let named = mem_sorted_texts (map (λ (b : EventBarrier). b.actor) gone) in
      (
        λ m.
            let (b, in_gone, same) = mem_of_map (λ (b : EventBarrier). b.actor) gone (named.1 m) in
            let (in_open, has_gone) = mem_of_keep (has_exited o.exited) open_barriers in_gone in
            let (there, unmet) = mem_of_keep unmet_test barriers in_open in
            record {
              barrier = b;
              there = there;
              unmet = not-true _ unmet;
              waits_for = sym same;
              gone =
                  subst (λ n. Memᴰ n o.exited) (sym same) ((has_exited_iff o.exited b).0 has_gone);
            },
        λ blamed. named.0 (
            subst (λ n. Memᴰ n (map (λ (b : EventBarrier). b.actor) gone)) blamed.waits_for
              (map_mem (λ (b : EventBarrier). b.actor) gone
                (keep_of_mem (has_exited o.exited) open_barriers
                  (keep_of_mem unmet_test barriers blamed.there (rw blamed.unmet refl))
                  (exited_of_blamed name blamed)))),
      )

  lets_wait :
      non_empty (failed_sources o.exited (pending o.events barriers)) ≡ false
      → o.expired ≡ false
      → LetsWait barriers o
  lets_wait none_failed in_time = (
    in_time,
    λ b m unmet. elim (Bool-cases (has_exited o.exited b)) [
      | inr running ↦ running
      | inl has_gone ↦
          let blamed : IsBlamed barriers o b.actor = record {
            barrier = b;
            there = m;
            unmet = unmet;
            waits_for = refl;
            gone = (has_exited_iff o.exited b).0 has_gone;
          } in
          let failed = non_empty_of_mem ((mem_failed_sources b.actor).1 blamed) in
          absurd (false≢true (sym none_failed ∙ failed))
    ],
  )

  -- A barrier that a later observation does not meet was not met.
  still_pending :
      (observations : List Observed) (x : Observed) (b : EventBarrier)
      → AreGrowing o.events observations
      → Memᴰ x observations
      → Memᴰ b barriers
      → is_met x.events b ≡ false
      → Memᴰ b (pending o.events barriers)
  still_pending observations x b growing there m unmet = elim (Bool-cases (is_met o.events b)) [
    | inr open_still ↦ keep_of_mem unmet_test barriers m (rw open_still refl)
    | inl met ↦
        absurd (false≢true (sym unmet ∙ extends_met o.events observations x b growing there met))
  ]

  SourceExited-earlier :
      (observations : List Observed) (names : List String)
      → AreGrowing o.events observations
      → LetsWait barriers o
      → SourceExited (pending o.events barriers) observations names
      → SourceExited barriers (o ∷ observations) names
  SourceExited-earlier observations names growing lets later =
      let seen : (x : Observed)
          → Memᴰ x (later.early ++ later.observed ∷ later.late)
          → Memᴰ x observations =
        λ x m. subst (λ xs. Memᴰ x xs) (sym later.whole) m in
      record {
        early = o ∷ later.early;
        observed = later.observed;
        late = later.late;
        whole = ap (λ xs. o ∷ xs) later.whole;
        waited = waited_on seen;
        some_name = later.some_name;
        blamed = λ name. (
          λ m.
              let blamed = (later.blamed name).0 m in
              record {
                barrier = blamed.barrier;
                there = (mem_of_keep unmet_test barriers blamed.there).0;
                unmet = blamed.unmet;
                waits_for = blamed.waits_for;
                gone = blamed.gone;
              },
          λ blamed. (later.blamed name).1 (record {
            barrier = blamed.barrier;
            there =
                still_pending observations later.observed blamed.barrier growing
                  (seen later.observed
                    (mem_append_right later.early (later.observed ∷ later.late) (Memᴰ.head refl)))
                  blamed.there blamed.unmet;
            unmet = blamed.unmet;
            waits_for = blamed.waits_for;
            gone = blamed.gone;
          }),
        );
      }
    where
      waited_on :
          ((x : Observed)
            → Memᴰ x (later.early ++ later.observed ∷ later.late)
            → Memᴰ x observations)
          → (x : Observed) → Memᴰ x (o ∷ later.early)
          → LetsWait barriers x
      waited_on seen x (Memᴰ.head e) = subst (LetsWait barriers) (sym e) lets
      waited_on seen x (Memᴰ.tail m) =
          let (in_time, running) = later.waited x m in
          (
            in_time,
            λ b there unmet.
                running b
                  (still_pending observations x b growing
                    (seen x (mem_append_left later.early (later.observed ∷ later.late) m)) there
                    unmet)
                  unmet,
          )

-- If the wait over growing logs blames sources, there is an observation, and each one ahead of it
-- is in time and finds no process exited that a barrier that it does not meet waits for. In that
-- observation, the names are those of the actors whose processes have exited and for which a
-- barrier waits that is not met, and there is one.
pub wait_for_barriers-SourceExited :
    (barriers : List EventBarrier) (observations : List Observed) (seen : List LogEvent)
    (names : List String)
    → AreGrowing seen observations
    → wait_for_barriers barriers observations ≡ sources_exited names
    → SourceExited barriers observations names
unfolding wait_for_barriers
wait_for_barriers-SourceExited [] observations seen names growing h = cc
wait_for_barriers-SourceExited (b ∷ barriers) [] seen names growing h = cc
wait_for_barriers-SourceExited (b ∷ barriers) (o ∷ observations) seen names (grows, rest) h =
    go _ (Step-wait_for_barriers b barriers o observations) h (
      wait_for_barriers-SourceExited (pending o.events (b ∷ barriers)) observations o.events names
        rest)
  where
    go :
        (w : Waited)
        → Step o (b ∷ barriers) observations w
        → w ≡ sources_exited names
        → (wait_for_barriers (pending o.events (b ∷ barriers)) observations ≡ sources_exited names
            → SourceExited (pending o.events (b ∷ barriers)) observations names)
        → SourceExited (b ∷ barriers) (o ∷ observations) names
    go _ (all_met e) h on = cc
    go _ (expired e) h on = cc
    go _ (further f x) h on =
        SourceExited-earlier o (b ∷ barriers) observations names rest
          (lets_wait o (b ∷ barriers) f x) (on h)
    go _ (exited e) h on =
        let same : failed_sources o.exited (pending o.events (b ∷ barriers)) ≡ names = cc in
        record {
          early = [];
          observed = o;
          late = observations;
          whole = refl;
          waited = λ x m. elim m [ ];
          some_name = rw same at e;
          blamed = λ name.
              subst (λ ns. Memᴰ name ns ↔ IsBlamed (b ∷ barriers) o name) same
                (mem_failed_sources o (b ∷ barriers) name);
        }
