-- ===== src/Section/Palette.antt =====
-- Palettes: looking an id up, collecting the ids of the blocks, and indices for all blocks.
use gtnh_platform.Base.{
  ℕ, zero, suc, ◌+◌, ◌%◌, ◌≤◌, ◌<◌, ◌≡◌, refl, ◌≢◌, inl, inr, subst, sym, true, false, some, List,
  [], ◌∷◌, ◌++◌, arith, Bool-cases, Option-cases, ◌==◌, ltb, length, length-append, All,
}
use gtnh_platform.Base.Ids.{has_id, has_id-append, has_id-one, absent, absent-append_lt}
use gtnh_platform.Section.{at_index, find_id, collect_unique, flat_indices, nonzero_ids}
use gtnh_platform.Section.Packed.{IsByte}

-- A found position holds the id.
pub find_id-at :
    (id : ℕ) (ps : List ℕ) (i : ℕ) → find_id id ps ≡ some i → (at_index ps i ≡ id) × (i < length ps)
unfolding find_id
find_id-at id [] i e = ground arith
find_id-at id (p ∷ ps) i e = elim (Bool-cases (p == id)) [
  | inl y ↦ ground arith
  | inr y ↦ elim (Option-cases (find_id id ps)) [
    | inl n ↦ ground arith
    | inr (j, f) ↦ ground (arith, find_id-at id ps j f)
  ]
]

pub find_id-some : (id : ℕ) (ps : List ℕ) → has_id id ps ≡ true → (i : ℕ) × (find_id id ps ≡ some i)
unfolding find_id has_id
find_id-some id [] h = ground arith
find_id-some id (p ∷ ps) h = elim (Bool-cases (p == id)) [
  | inl y ↦ (0, ground arith)
  | inr y ↦ let (i, e) = find_id-some id ps (ground arith) in (suc i, ground arith)
]

-- What `unique` has is kept.
pub collect_unique-keeps :
    (id : ℕ) (us bs : List ℕ) → has_id id us ≡ true → has_id id (collect_unique us bs) ≡ true
unfolding collect_unique
collect_unique-keeps id us [] h = h
collect_unique-keeps id us (b ∷ bs) h =
    let k = has_id-append id us (b ∷ []) (inl h) in
    ground
      (arith, k, collect_unique-keeps id us bs h, collect_unique-keeps id (us ++ (b ∷ [])) bs k)

collect_unique-same :
    (us bs : List ℕ) (b : ℕ)
    → has_id b us ≡ true
    → collect_unique us (b ∷ bs) ≡ collect_unique us bs
unfolding collect_unique
collect_unique-same us bs b h = rw h refl

collect_unique-more :
    (us bs : List ℕ) (b : ℕ)
    → has_id b us ≡ false
    → ltb 256 (length us + 1) ≡ false
    → collect_unique us (b ∷ bs) ≡ collect_unique (us ++ (b ∷ [])) bs
unfolding collect_unique
collect_unique-more us bs b h l = rw (h, l) refl

collect_unique-full :
    (us bs : List ℕ) (b : ℕ)
    → has_id b us ≡ false
    → ltb 256 (length us + 1) ≡ true
    → collect_unique us (b ∷ bs) ≡ us ++ (b ∷ [])
unfolding collect_unique
collect_unique-full us bs b h l = rw (h, l) refl

-- `u` has the ids of the blocks, if it is not too long.
abbrev Covers : List ℕ → List ℕ → Type 0
Covers bs u = length u ≤ 256 → All (λ b. has_id b u ≡ true) bs

-- Unless it stops, the collection has the id of every block.
pub collect_unique-covers :
    (us bs : List ℕ)
    → length (collect_unique us bs) ≤ 256
    → All (λ b. has_id b (collect_unique us bs) ≡ true) bs
collect_unique-covers us [] h = tt
collect_unique-covers us (b ∷ bs) h = elim (Bool-cases (has_id b us)) [
  | inl y ↦
      subst (Covers (b ∷ bs)) (sym (collect_unique-same us bs b y))
        (λ k. (collect_unique-keeps b us bs y, collect_unique-covers us bs k)) h
  | inr y ↦ elim (Bool-cases (ltb 256 (length us + 1))) [
    | inl z ↦
        subst (Covers (b ∷ bs)) (sym (collect_unique-full us bs b y z))
          (λ k. absurd (ground (arith, length-append us (b ∷ []), k))) h
    | inr z ↦
        let us' = us ++ (b ∷ []) in
        subst (Covers (b ∷ bs)) (sym (collect_unique-more us bs b y z))
          (λ k. (
            collect_unique-keeps b us' bs (has_id-append b us (b ∷ []) (inr (has_id-one b))),
            collect_unique-covers us' bs k,
          ))
          h
  ]
]

collect_unique-none : (ps us : List ℕ) → length (collect_unique us []) ≤ length us + absent ps us
unfolding collect_unique
collect_unique-none ps us = omega arith

-- Blocks of one palette have no more ids than the palette.
pub collect_unique-bound :
    (ps us bs : List ℕ)
    → All (λ b. has_id b ps ≡ true) bs
    → length (collect_unique us bs) ≤ length us + absent ps us
collect_unique-bound ps us [] a = collect_unique-none ps us
collect_unique-bound ps us (b ∷ bs) a = elim (Bool-cases (has_id b us)) [
  | inl y ↦ rw (collect_unique-same us bs b y) (collect_unique-bound ps us bs a.1)
  | inr y ↦
      let long = length-append us (b ∷ []) in
      let fewer = absent-append_lt ps us b a.0 y in
      elim (Bool-cases (ltb 256 (length us + 1))) [
        | inl z ↦ rw (collect_unique-full us bs b y z) (omega arith)
        | inr z ↦
            rw (collect_unique-more us bs b y z)
              (omega (arith, collect_unique-bound ps (us ++ (b ∷ [])) bs a.1))
      ]
]

pub has_id-at : (ps : List ℕ) (i : ℕ) → i < length ps → has_id (at_index ps i) ps ≡ true
unfolding has_id
has_id-at [] i h = absurd (omega arith)
has_id-at (p ∷ ps) zero h = ground arith
has_id-at (p ∷ ps) (suc i) h = ground (arith, has_id-at ps i)

has_id-nonzero :
    (id : ℕ) (us : List ℕ) → id ≢ 0 → has_id id us ≡ true → has_id id (nonzero_ids us) ≡ true
unfolding has_id nonzero_ids
has_id-nonzero id [] n h = ground arith
has_id-nonzero id (u ∷ us) n h = ground (arith, has_id-nonzero id us n)

-- The palette of a promoted section has the collected ids.
pub has_id-palette :
    (id : ℕ) (us : List ℕ) → has_id id us ≡ true → has_id id (0 ∷ nonzero_ids us) ≡ true
unfolding has_id
has_id-palette id us h = elim (Bool-cases (0 == id)) [
  | inl y ↦ ground arith
  | inr y ↦ ground (arith, has_id-nonzero id us)
]

pub nonzero_ids-le : (us : List ℕ) → length (nonzero_ids us) ≤ length us
unfolding nonzero_ids
nonzero_ids-le [] = omega arith
nonzero_ids-le (u ∷ us) = ground (arith, nonzero_ids-le us)

pub nonzero_ids-lt : (us : List ℕ) → has_id 0 us ≡ true → length (nonzero_ids us) < length us
unfolding nonzero_ids has_id
nonzero_ids-lt [] h = ground arith
nonzero_ids-lt (u ∷ us) h = ground (arith, nonzero_ids-lt us, nonzero_ids-le us)

pub flat_indices-IsByte : (ps bs : List ℕ) → All IsByte (flat_indices ps bs)
unfolding flat_indices
flat_indices-IsByte ps [] = (omega arith, tt)
flat_indices-IsByte ps (b ∷ bs) = (omega arith, flat_indices-IsByte ps bs)

pub length-flat_indices : (ps bs : List ℕ) → length (flat_indices ps bs) ≡ length bs + 1
unfolding flat_indices
length-flat_indices ps [] = refl
length-flat_indices ps (b ∷ bs) = omega (arith, length-flat_indices ps bs)

-- The indices of a palette of at most 256 ids that has all blocks lead back to the blocks.
pub flat_indices-read :
    (ps bs : List ℕ) (i : ℕ)
    → length ps ≤ 256
    → All (λ b. has_id b ps ≡ true) bs
    → i < length bs
    → (at_index ps (at_index (flat_indices ps bs) i) ≡ at_index bs i)
      × (at_index (flat_indices ps bs) i < length ps)
unfolding flat_indices
flat_indices-read ps [] i l a h = absurd (omega arith)
flat_indices-read ps (b ∷ bs) (suc i) l a h = flat_indices-read ps bs i l a.1 (omega arith)
flat_indices-read ps (b ∷ bs) zero l a h =
    let (j, e) = find_id-some b ps a.0 in
    let found = find_id-at b ps j e in
    let small : j % 256 ≡ j = omega (arith, found.1) in rw (e, small) found
