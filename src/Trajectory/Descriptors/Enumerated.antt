-- ===== src/Trajectory/Descriptors/Enumerated.antt =====
-- Which schedules src/ddsleuth/trajectory.py generates.
use ddsleuth.Prelude.{
  Bool-cases, Unrepeated, IsPermutation, any_of_mem, eq_refl, if◌then◌else◌, inl, inr, map,
  mem_append_cases, mem_append_left, mem_append_right, mem_of_any, mem_of_unique, mem_unique,
  permutations, permutations_iff, unique-Unrepeated, ◌++◌, ◌==◌, ◌⊎◌, List, Memᴰ, String, [],
  eq_iff, map_mem, mem_concat_map, mem_of_concat_map, mem_of_map, none, refl, some, subst, sym,
  true, ℤ, ◌↔◌, ◌∷◌, ◌≡◌,
}
use ddsleuth.Trajectory.Causal.{CausalActionMutation}
use ddsleuth.Trajectory.Descriptors.{
  control_of, has_mode, schedule_descriptors, TrajectoryDescriptor, grid, same_descriptor,
}
use ddsleuth.Trajectory.Descriptors.Sameness.{same_descriptor_iff}

-- A schedule with no causal mutation, whose times are among the given ones.
abbrev pub InGrid :
    String
    → (List String → Type 0)
    → (spacings jitters offsets : List ℤ) → TrajectoryDescriptor
    → Type 0
InGrid mode IsOrder spacings jitters offsets d =
    IsOrder d.order
    × Memᴰ d.spacing_ms spacings
    × (d.barrier_mode ≡ mode)
    × Memᴰ d.action_jitter_ms jitters
    × Memᴰ d.boundary_offset_ms offsets
    × (d.causal_mutation ≡ none)

module _ (mode : String) (orders : List (List String)) (spacings jitters offsets : List ℤ)
    (d : TrajectoryDescriptor) where
  grid_iff :
      Memᴰ d (grid mode orders spacings jitters offsets)
      ↔ InGrid mode (λ order. Memᴰ order orders) spacings jitters offsets d
  unfolding grid
  grid_iff = (
    λ m.
        let (order, ordered, m1) = mem_of_concat_map _ orders m in
        let (spacing, spaced, m2) = mem_of_concat_map _ spacings m1 in
        let (jitter, shaken, m3) = mem_of_concat_map _ jitters m2 in
        let (offset, shifted, same) = mem_of_map _ offsets m3 in
        subst (InGrid mode (λ order. Memᴰ order orders) spacings jitters offsets) (sym same)
          (ordered, spaced, refl, shaken, shifted, refl),
    λ (ordered, spaced, in_mode, shaken, shifted, plain). rw (← in_mode) (
        mem_concat_map _ d.order orders ordered (
          mem_concat_map _ d.spacing_ms spacings spaced (
            mem_concat_map _ d.action_jitter_ms jitters shaken
              (rw (← plain) (map_mem _ offsets shifted))))),
  )

module _ (actors : List String) (spacings : List ℤ) (modes : List String) (jitters offsets : List ℤ)
    (mutations : List CausalActionMutation) where
  -- The control; the given order at every time, if barriers may be preserved; every order at every
  -- time, if they may be relaxed; and each causal mutation of the control.
  abbrev pub IsScheduled : TrajectoryDescriptor → Type 0
  IsScheduled d =
      (d ≡ control_of actors none)
      ⊎ (Memᴰ "preserve" modes
          × InGrid "preserve" (λ order. order ≡ actors) spacings jitters offsets d)
      ⊎ (Memᴰ "relaxed" modes
          × InGrid "relaxed" (λ order. IsPermutation order actors) spacings jitters offsets d)
      ⊎ ((mutation : CausalActionMutation) × Memᴰ mutation mutations
          × (d ≡ control_of actors (some mutation)))

  abbrev preserved : List TrajectoryDescriptor
  preserved =
      if has_mode modes "preserve"
      then grid "preserve" (actors ∷ []) spacings jitters offsets
      else []

  abbrev relaxed : List TrajectoryDescriptor
  relaxed =
      if has_mode modes "relaxed"
      then grid "relaxed" (permutations actors) spacings jitters offsets
      else []

  abbrev crossed : List TrajectoryDescriptor
  crossed = map (λ mutation. control_of actors (some mutation)) mutations

  abbrev generated : List TrajectoryDescriptor
  generated = control_of actors none ∷ (preserved ++ (relaxed ++ crossed))

  mode_of_test : (mode : String) → has_mode modes mode ≡ true → Memᴰ mode modes
  mode_of_test mode h =
      let (other, m, same) = mem_of_any (λ other. other == mode) modes h in
      subst (λ o. Memᴰ o modes) ((eq_iff other mode).0 same) m

  test_of_mode : (mode : String) → Memᴰ mode modes → has_mode modes mode ≡ true
  test_of_mode mode m = any_of_mem (λ other. other == mode) modes m (eq_refl mode)

  -- A grid that is there if the mode is given.
  mem_of_mode :
      (mode : String) (ds : List TrajectoryDescriptor) (d : TrajectoryDescriptor)
      → Memᴰ d (if has_mode modes mode then ds else [])
      → Memᴰ mode modes × Memᴰ d ds
  mem_of_mode mode ds d m = elim (Bool-cases (has_mode modes mode)) [
    | inl e ↦ (mode_of_test mode e, rw e at m)
    | inr e ↦ absurd (elim (let none_there : Memᴰ d [] = rw e at m in none_there) [ ])
  ]

  mode_mem :
      (mode : String) (ds : List TrajectoryDescriptor) (d : TrajectoryDescriptor)
      → Memᴰ mode modes
      → Memᴰ d ds
      → Memᴰ d (if has_mode modes mode then ds else [])
  mode_mem mode ds d given m = rw (test_of_mode mode given) m

  only_order : (d : TrajectoryDescriptor) → Memᴰ d.order (actors ∷ []) → d.order ≡ actors
  only_order d (Memᴰ.head e) = e
  only_order d (Memᴰ.tail m) = elim m [ ]

  IsScheduled-of_mem : (d : TrajectoryDescriptor) → Memᴰ d generated → IsScheduled d
  IsScheduled-of_mem d (Memᴰ.head e) = inl e
  IsScheduled-of_mem d (Memᴰ.tail m) = elim (mem_append_cases preserved (relaxed ++ crossed) m) [
    | inl p ↦
        let (given, there) = mem_of_mode "preserve" _ d p in
        let (ordered, spaced, in_mode, shaken, shifted, plain) =
          (grid_iff "preserve" (actors ∷ []) spacings jitters offsets d).0 there in
        inr (inl (given, (only_order d ordered, spaced, in_mode, shaken, shifted, plain)))
    | inr later ↦ elim (mem_append_cases relaxed crossed later) [
      | inl r ↦
          let (given, there) = mem_of_mode "relaxed" _ d r in
          let (ordered, spaced, in_mode, shaken, shifted, plain) =
            (grid_iff "relaxed" (permutations actors) spacings jitters offsets d).0 there in
          inr (
            inr (
              inl (
                given,
                (
                  (permutations_iff d.order actors).0 ordered,
                  spaced,
                  in_mode,
                  shaken,
                  shifted,
                  plain,
                ),
              )))
      | inr c ↦
          inr (inr (inr (mem_of_map (λ mutation. control_of actors (some mutation)) mutations c)))
    ]
  ]

  mem_of_scheduled : (d : TrajectoryDescriptor) → IsScheduled d → Memᴰ d generated
  mem_of_scheduled d (inl e) = Memᴰ.head e
  mem_of_scheduled d (inr (inl (given, (ordered, spaced, in_mode, shaken, shifted, plain)))) =
      Memᴰ.tail (
        mem_append_left preserved _ (
          mode_mem "preserve" _ d given (
            (grid_iff "preserve" (actors ∷ []) spacings jitters offsets d).1
              (Memᴰ.head ordered, spaced, in_mode, shaken, shifted, plain))))
  mem_of_scheduled d (inr (inr (inl (given, (ordered, spaced, in_mode, shaken, shifted, plain))))) =
      Memᴰ.tail (
        mem_append_right preserved _ (
          mem_append_left relaxed crossed (
            mode_mem "relaxed" _ d given (
              (grid_iff "relaxed" (permutations actors) spacings jitters offsets d).1 (
                (permutations_iff d.order actors).1 ordered,
                spaced,
                in_mode,
                shaken,
                shifted,
                plain,
              )))))
  mem_of_scheduled d (inr (inr (inr (mutation, there, e)))) = Memᴰ.tail (
      mem_append_right preserved _ (
        mem_append_right relaxed crossed (
          subst (λ c. Memᴰ c crossed) (sym e)
            (map_mem (λ mutation. control_of actors (some mutation)) mutations there))))

  -- The control is the first schedule, no schedule comes twice, and a schedule is there exactly if
  -- it is the control; or has the given order, with a spacing, a jitter and an offset among those
  -- given, if barriers may be preserved; or has any permutation of the order, with such times, if
  -- barriers may be relaxed; or is the control with one of the causal mutations.
  pub schedule_descriptors_iff :
      let schedules = schedule_descriptors actors spacings modes jitters offsets mutations in
      ((rest : List TrajectoryDescriptor) × (schedules ≡ control_of actors none ∷ rest))
      × Unrepeated schedules
      × ((d : TrajectoryDescriptor) → Memᴰ d schedules ↔ IsScheduled d)
  unfolding schedule_descriptors
  schedule_descriptors_iff = (
    (_, refl),
    unique-Unrepeated same_descriptor same_descriptor_iff generated,
    λ d. (
      λ m. IsScheduled-of_mem d (mem_of_unique same_descriptor same_descriptor_iff generated m),
      λ s. mem_unique same_descriptor same_descriptor_iff generated (mem_of_scheduled d s),
    ),
  )
