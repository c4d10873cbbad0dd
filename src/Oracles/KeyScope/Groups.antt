-- ===== src/Oracles/KeyScope/Groups.antt =====
-- The groups by fingerprint of src/ddsleuth/oracles/key_scope.py hold what was considered: a
-- group has two scopes exactly if two considered observations of one fingerprint have.
use ddsleuth.Json.{Dict, lookup}
use ddsleuth.Oracles.KeyScope.{collides, group, scopes, Observation, append_to}
use ddsleuth.Prelude.{
  any, ap, distinct_iff, eq_iff, map_mem, mem_of_map, sym, true, ◌↔◌, ◌∙◌, ◌≢◌, Bool-cases, List,
  Memᴰ, String, [], eq_refl, inl, inr, none, refl, some, ◌++◌, ◌==◌, ◌∷◌, ◌≡◌, ◌⊎◌,
}

-- Every observation of every group is among the items, under the group's key.
abbrev Sourced : List (String × Observation) → Dict (List Observation) → Type 0
Sourced items [] = Unit
Sourced items ((k, xs) ∷ groups) =
    ((x : Observation) → Memᴰ x xs → Memᴰ (k, x) items) × Sourced items groups

-- The group of the key holds the observation.
record Holds (groups : Dict (List Observation)) (k : String) (x : Observation) : Type 0 where
  members : List Observation
  found : lookup k groups ≡ some members
  there : Memᴰ x members

mem_append : {x : Observation} (xs ys : List Observation) → Memᴰ x xs → Memᴰ x (xs ++ ys)
mem_append [] ys m = elim m [ ]
mem_append (y ∷ xs) ys (Memᴰ.head e) = Memᴰ.head e
mem_append (y ∷ xs) ys (Memᴰ.tail m) = Memᴰ.tail (mem_append xs ys m)

mem_last : (x : Observation) (xs : List Observation) → Memᴰ x (xs ++ x ∷ [])
mem_last x [] = Memᴰ.head refl
mem_last x (y ∷ xs) = Memᴰ.tail (mem_last x xs)

mem_snoc :
    {x : Observation} (y : Observation) (xs : List Observation)
    → Memᴰ x (xs ++ y ∷ [])
    → Memᴰ x xs ⊎ (x ≡ y)
mem_snoc y [] (Memᴰ.head e) = inr e
mem_snoc y [] (Memᴰ.tail m) = elim m [ ]
mem_snoc y (z ∷ xs) (Memᴰ.head e) = inl (Memᴰ.head e)
mem_snoc y (z ∷ xs) (Memᴰ.tail m) = elim (mem_snoc y xs m) [
  | inl there ↦ inl (Memᴰ.tail there)
  | inr same ↦ inr same
]

module _ (k : String) (x : Observation) where
  Holds-append_to : (groups : Dict (List Observation)) → Holds (append_to k x groups) k x
  unfolding append_to
  Holds-append_to [] = record { members = x ∷ []; found = rw eq_refl refl; there = Memᴰ.head refl }
  Holds-append_to ((j, xs) ∷ groups) = elim (Bool-cases (j == k)) [
    | inl e ↦ record { members = xs ++ x ∷ []; found = rw e (rw e refl); there = mem_last x xs }
    | inr e ↦
        let h = Holds-append_to groups in
        record { members = h.members; found = rw e (rw e h.found); there = h.there }
  ]

  append_to-Holds :
      (j : String) (y : Observation) (groups : Dict (List Observation))
      → Holds groups j y
      → Holds (append_to k x groups) j y
  unfolding append_to
  append_to-Holds j y [] h = absurd (let e : none ≡ some h.members = h.found in cc)
  append_to-Holds j y ((i, xs) ∷ groups) h = elim (Bool-cases (i == k)) [
    | inl e ↦ elim (Bool-cases (i == j)) [
      | inl same ↦
          let held : some xs ≡ some h.members = rw same at h.found in
          let eq : h.members ≡ xs = cc in
          rw e (record {
            members = xs ++ x ∷ [];
            found = rw same refl;
            there = mem_append xs (x ∷ []) (rw eq at h.there);
          })
      | inr other ↦
          rw e (record {
            members = h.members;
            found = rw other (rw other at h.found);
            there = h.there;
          })
    ]
    | inr e ↦ elim (Bool-cases (i == j)) [
      | inl same ↦
          rw e
            (record { members = h.members; found = rw same (rw same at h.found); there = h.there })
      | inr other ↦
          let held : lookup j groups ≡ some h.members = rw other at h.found in
          let later =
            append_to-Holds j y groups
              (record { members = h.members; found = held; there = h.there }) in
          rw e
            (record { members = later.members; found = rw other later.found; there = later.there })
    ]
  ]

  Sourced-append_to :
      (items : List (String × Observation)) (groups : Dict (List Observation))
      → Memᴰ (k, x) items
      → Sourced items groups
      → Sourced items (append_to k x groups)
  unfolding append_to
  Sourced-append_to items [] m s = (λ z f. only z f, tt)
    where
      only : (z : Observation) → Memᴰ z (x ∷ []) → Memᴰ (k, z) items
      only z (Memᴰ.head e) = rw e m
      only z (Memᴰ.tail f) = elim f [ ]
  Sourced-append_to items ((j, xs) ∷ groups) m (here, later) = elim (Bool-cases (j == k)) [
    | inl e ↦
        let same : j ≡ k = (eq_iff j k).0 e in
        rw e (
          λ z f. elim (mem_snoc x xs f) [ inl there ↦ here z there | inr new ↦ rw (new, same) m ],
          later,
        )
    | inr e ↦ rw e (here, Sourced-append_to items groups m later)
  ]

Sourced-group :
    (items rest : List (String × Observation)) (groups : Dict (List Observation))
    → ((item : String × Observation) → Memᴰ item rest → Memᴰ item items)
    → Sourced items groups
    → Sourced items (group groups rest)
unfolding group
Sourced-group items [] groups inside s = s
Sourced-group items ((k, x) ∷ rest) groups inside s =
    Sourced-group items rest (append_to k x groups) (λ item m. inside item (Memᴰ.tail m))
      (Sourced-append_to k x items groups (inside (k, x) (Memᴰ.head refl)) s)

group-Holds :
    (k : String) (x : Observation) (rest : List (String × Observation))
    (groups : Dict (List Observation))
    → Holds groups k x
    → Holds (group groups rest) k x
unfolding group
group-Holds k x [] groups h = h
group-Holds k x ((j, y) ∷ rest) groups h =
    group-Holds k x rest (append_to j y groups) (append_to-Holds j y k x groups h)

Holds-group :
    (k : String) (x : Observation) (rest : List (String × Observation))
    (groups : Dict (List Observation))
    → Memᴰ (k, x) rest
    → Holds (group groups rest) k x
unfolding group
Holds-group k x [] groups m = elim m [ ]
Holds-group k x ((j, y) ∷ rest) groups (Memᴰ.head e) =
    let key : k ≡ j = ap (λ (p : String × Observation). p.0) e in
    let value : x ≡ y = ap (λ (p : String × Observation). p.1) e in
    rw (key, value) (group-Holds j y rest (append_to j y groups) (Holds-append_to j y groups))
Holds-group k x ((j, y) ∷ rest) groups (Memᴰ.tail m) = Holds-group k x rest (append_to j y groups) m

-- Two of the items have one key and different scopes.
pub record Clash (items : List (String × Observation)) : Type 0 where
  pub key : String
  pub one : Observation
  pub other : Observation
  pub one_there : Memᴰ (key, one) items
  pub other_there : Memᴰ (key, other) items
  pub apart : one.scope ≢ other.scope

any-lookup :
    (k : String) (xs : List Observation) (groups : Dict (List Observation))
    → lookup k groups ≡ some xs
    → collides (k, xs) ≡ true
    → any collides groups ≡ true
any-lookup k xs [] found h = cc
any-lookup k xs ((j, ys) ∷ groups) found h = elim (Bool-cases (j == k)) [
  | inl e ↦
      let held : some ys ≡ some xs = rw e at found in
      let same : ys ≡ xs = cc in let here : collides (j, ys) ≡ true = rw same h in rw here refl
  | inr e ↦ elim (Bool-cases (collides (j, ys))) [
    | inl here ↦ rw here refl
    | inr not_here ↦ rw not_here (any-lookup k xs groups (rw e at found) h)
  ]
]

abbrev scope_of : Observation → String
scope_of o = o.scope

Clash-any :
    (items : List (String × Observation)) (groups : Dict (List Observation))
    → Sourced items groups
    → any collides groups ≡ true
    → Clash items
Clash-any items [] s h = cc
Clash-any items ((k, xs) ∷ groups) (here, later) h = elim (Bool-cases (collides (k, xs))) [
  | inr e ↦ Clash-any items groups later (rw e at h)
  | inl e ↦
      let (a, b, m, n, differ) = (distinct_iff (scopes xs)).0 e in
      let (x, x_there, is_a) = mem_of_map scope_of xs m in
      let (y, y_there, is_b) = mem_of_map scope_of xs n in
      record {
        key = k;
        one = x;
        other = y;
        one_there = here x x_there;
        other_there = here y y_there;
        apart = λ same. differ (is_a ∙ same ∙ sym is_b);
      }
]

pub any-collides_iff :
    (items : List (String × Observation)) → (any collides (group [] items) ≡ true) ↔ Clash items
any-collides_iff items = (
  λ h. Clash-any items (group [] items) (Sourced-group items items [] (λ item m. m) tt) h,
  λ c.
      let one = Holds-group c.key c.one items [] c.one_there in
      let other = Holds-group c.key c.other items [] c.other_there in
      let eq : other.members ≡ one.members = cc (one.found, other.found) in
      any-lookup c.key one.members (group [] items) one.found (
        (distinct_iff (scopes one.members)).1 (
          c.one.scope,
          c.other.scope,
          map_mem scope_of one.members one.there,
          map_mem scope_of one.members (rw eq at other.there),
          c.apart,
        )),
)
