-- ===== src/Trajectory/Causal/Positions.antt =====
-- Where an element stands in a list, and what taking it away and putting it back comes to.
use ddsleuth.Prelude.{
  All, false, Bool, Bool-cases, List, Option-cases, [], ap, get_elem?, inl, inr, length, none, refl,
  some, subst, suc, true, ℕ, ◌++◌, ◌∷◌, ◌≡◌,
}
use ddsleuth.Trajectory.Causal.{first_position, insert_at, last_position, remove_at}

module _ {A : Type 0} (test : A → Bool) where
  -- The list is cut around an element that passes the test.
  pub record CutAt (xs : List A) (i : ℕ) : Type 0 where
    pub before : List A
    pub found : A
    pub after : List A
    pub whole : xs ≡ before ++ found ∷ after
    pub place : length before ≡ i
    pub passes : test found ≡ true

  abbrev cut_later : (x : A) (xs : List A) (i : ℕ) → CutAt xs i → CutAt (x ∷ xs) (suc i)
  cut_later x xs i cut = record {
    before = x ∷ cut.before;
    found = cut.found;
    after = cut.after;
    whole = ap (λ rest. x ∷ rest) cut.whole;
    place = ap suc cut.place;
    passes = cut.passes;
  }

  abbrev cut_here : (x : A) (xs : List A) → test x ≡ true → CutAt (x ∷ xs) 0
  cut_here x xs passes = record {
    before = [];
    found = x;
    after = xs;
    whole = refl;
    place = refl;
    passes = passes;
  }

  abbrev pub Fail : List A → Type 0
  Fail xs = All (λ x. test x ≡ false) xs

  -- Nothing ahead of the element passes.
  pub cut_first :
      (xs : List A) (i : ℕ) → first_position test xs ≡ some i → (cut : CutAt xs i) × Fail cut.before
  cut_first [] i h = cc
  cut_first (x ∷ xs) i h = elim (Bool-cases (test x)) [
    | inl here ↦
        let place : some 0 ≡ some i = rw here at h in
        let zero-i : 0 ≡ i = cc in
        subst (λ n. (cut : CutAt (x ∷ xs) n) × Fail cut.before) zero-i (cut_here x xs here, tt)
    | inr later ↦ elim (Option-cases (first_position test xs)) [
      | inl nowhere ↦ let missing : none ≡ some i = rw (later, nowhere, first_position) at h in cc
      | inr (j, at) ↦
          let place : some (suc j) ≡ some i = rw (later, at, first_position) at h in
          let same : suc j ≡ i = cc in
          let (cut, fail) = cut_first xs j at in
          subst (λ n. (cut : CutAt (x ∷ xs) n) × Fail cut.before) same
            (cut_later x xs j cut, (later, fail))
    ]
  ]

  last_position-Fail : (xs : List A) → last_position test xs ≡ none → Fail xs
  last_position-Fail [] h = tt
  last_position-Fail (x ∷ xs) h = elim (Option-cases (last_position test xs)) [
    | inr (j, at) ↦ let found : some (suc j) ≡ none = rw (at, last_position) at h in cc
    | inl nowhere ↦ elim (Bool-cases (test x)) [
      | inl here ↦ let found : some 0 ≡ none = rw (nowhere, here, last_position) at h in cc
      | inr fails ↦ (fails, last_position-Fail xs nowhere)
    ]
  ]

  -- Nothing behind the element passes.
  pub cut_last :
      (xs : List A) (i : ℕ) → last_position test xs ≡ some i → (cut : CutAt xs i) × Fail cut.after
  cut_last [] i h = cc
  cut_last (x ∷ xs) i h = elim (Option-cases (last_position test xs)) [
    | inl nowhere ↦ elim (Bool-cases (test x)) [
      | inl here ↦
          let place : some 0 ≡ some i = rw (nowhere, here, last_position) at h in
          let zero-i : 0 ≡ i = cc in
          subst (λ n. (cut : CutAt (x ∷ xs) n) × Fail cut.after) zero-i
            (cut_here x xs here, last_position-Fail xs nowhere)
      | inr fails ↦ let missing : none ≡ some i = rw (nowhere, fails, last_position) at h in cc
    ]
    | inr (j, at) ↦
        let place : some (suc j) ≡ some i = rw (at, last_position) at h in
        let same : suc j ≡ i = cc in
        let (cut, fail) = cut_last xs j at in
        subst (λ n. (cut : CutAt (x ∷ xs) n) × Fail cut.after) same (cut_later x xs j cut, fail)
  ]

module _ {A : Type 0} where
  pub remove_at-cut :
      (xs : List A) (x : A) (ys : List A) → remove_at (length xs) (xs ++ x ∷ ys) ≡ xs ++ ys
  remove_at-cut [] x ys = refl
  remove_at-cut (z ∷ xs) x ys = ap (λ rest. z ∷ rest) (remove_at-cut xs x ys)

  pub get_elem?-cut :
      (xs : List A) (x : A) (ys : List A) → get_elem? (xs ++ x ∷ ys) (length xs) ≡ some x
  get_elem?-cut [] x ys = refl
  get_elem?-cut (z ∷ xs) x ys = get_elem?-cut xs x ys

  pub insert_at-before :
      (xs : List A) (x : A) (ys : List A) → insert_at (length xs) x (xs ++ ys) ≡ xs ++ x ∷ ys
  insert_at-before [] x ys = refl
  insert_at-before (z ∷ xs) x ys = ap (λ rest. z ∷ rest) (insert_at-before xs x ys)

  pub insert_at-after :
      (xs : List A) (x y : A) (ys : List A)
      → insert_at (suc (length xs)) x (xs ++ y ∷ ys) ≡ xs ++ y ∷ x ∷ ys
  insert_at-after [] x y ys = refl
  insert_at-after (z ∷ xs) x y ys = ap (λ rest. z ∷ rest) (insert_at-after xs x y ys)
