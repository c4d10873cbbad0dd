-- ===== src/Semantics/Glob/Matching.antt =====
-- The matcher of `fnmatchcase` decides the relation between a pattern's pieces and a name.
use ddsleuth.Prelude.{
  ℕ, ◌≡◌, refl, ◌↔◌, inl, inr, Bool, true, false, List, [], ◌∷◌, Bool-cases, arith,
}
use ddsleuth.Semantics.Glob.{CharTest, Piece, star, one, accepts, matches, any_suffix}

-- A `*` stands for any number of characters, and any other piece for one that it accepts.
pub data Matches : List Piece → List ℕ → Type 0 where
  done : Matches [] []
  single :
      {test : CharTest} {c : ℕ} {ps : List Piece} {cs : List ℕ}
      → accepts test c ≡ true
      → Matches ps cs
      → Matches (one test ∷ ps) (c ∷ cs)
  stop : {ps : List Piece} {cs : List ℕ} → Matches ps cs → Matches (star ∷ ps) cs
  eat :
      {c : ℕ} {ps : List Piece} {cs : List ℕ}
      → Matches (star ∷ ps) cs
      → Matches (star ∷ ps) (c ∷ cs)

any_suffix-Matches :
    (ps : List Piece)
    → ((cs : List ℕ) → matches ps cs ≡ true → Matches ps cs)
    → (cs : List ℕ) → any_suffix (matches ps) cs ≡ true
    → Matches (star ∷ ps) cs
any_suffix-Matches ps sound [] h = stop (sound [] h)
any_suffix-Matches ps sound (c ∷ cs) h = elim (Bool-cases (matches ps (c ∷ cs))) [
  | inl e ↦ stop (sound (c ∷ cs) e)
  | inr e ↦ eat (any_suffix-Matches ps sound cs (rw e at h))
]

pub matches_sound : (ps : List Piece) (cs : List ℕ) → matches ps cs ≡ true → Matches ps cs
unfolding matches
matches_sound [] [] h = done
matches_sound [] (c ∷ cs) h = cc
matches_sound (star ∷ ps) cs h = any_suffix-Matches ps (matches_sound ps) cs h
matches_sound (one test ∷ ps) [] h = cc
matches_sound (one test ∷ ps) (c ∷ cs) h = elim (Bool-cases (accepts test c)) [
  | inl e ↦ single e (matches_sound ps cs (rw e at h))
  | inr e ↦ absurd (cc (let no_match : false ≡ true = rw e at h in no_match))
]

any_suffix_here : (test : List ℕ → Bool) (cs : List ℕ) → test cs ≡ true → any_suffix test cs ≡ true
any_suffix_here test [] h = h
any_suffix_here test (c ∷ cs) h = rw h

any_suffix_later :
    (test : List ℕ → Bool) (c : ℕ) (cs : List ℕ)
    → any_suffix test cs ≡ true
    → any_suffix test (c ∷ cs) ≡ true
any_suffix_later test c cs h = ground arith

pub matches_complete : {ps : List Piece} {cs : List ℕ} → Matches ps cs → matches ps cs ≡ true
unfolding matches
matches_complete done = refl
matches_complete (single e m) = rw e (matches_complete m)
matches_complete (stop {ps} {cs} m) = any_suffix_here (matches ps) cs (matches_complete m)
matches_complete (eat {c} {ps} {cs} m) = any_suffix_later (matches ps) c cs (matches_complete m)

pub matches_iff : (ps : List Piece) (cs : List ℕ) → (matches ps cs ≡ true) ↔ Matches ps cs
matches_iff ps cs = (matches_sound ps cs, matches_complete)
