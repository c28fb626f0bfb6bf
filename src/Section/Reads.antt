-- ===== src/Section/Reads.antt =====
-- The sections that `promoteToFlatOrOverflow`, `checkOverflowDemote` and the first block of a section
-- of air make, with the blocks that they read.
use gtnh_platform.Base.{
  ℕ, zero, suc, ◌+◌, ◌/◌, ◌≤◌, ◌<◌, ◌≡◌, refl, ◌⊎◌, inl, inr, ap, subst, ◌∙◌, true, false, List, [],
  ◌∷◌, arith, Bool-cases, ◌==◌, ltb, leb, leb→le, if◌then◌else◌, length, replicate, All,
}
use gtnh_platform.Base.Ids.{has_id, has_id-one}
use gtnh_platform.Section.{
  at_index, FlatData, BlockData, air, bitpack4, flat, overflow, get_block, read_bitpacked,
  collect_unique, flat_indices, nonzero_ids, blocks_from, promoted, check_overflow_demote,
  first_block,
}
use gtnh_platform.Section.Packed.{IsByte, read_byte, read_nibble}
use gtnh_platform.Section.Palette.{
  collect_unique-keeps, collect_unique-covers, has_id-palette, nonzero_ids-lt, flat_indices-IsByte,
  length-flat_indices, flat_indices-read,
}
use gtnh_platform.Section.Blocks.{IsPaletted, block_at, nibble_law, written}

-- What each representation keeps.
unfoldable pub IsWf : BlockData → Type 0
IsWf air = Unit
IsWf (bitpack4 f) = IsPaletted 4 2049 f
IsWf (flat f) = IsPaletted 8 4097 f
IsWf (overflow blocks) = length blocks ≡ 4096

-- The section has the blocks of the list.
abbrev pub Reads : BlockData → List ℕ → Type 0
Reads s blocks = (lj : ℕ) → lj < 4096 → get_block s lj ≡ at_index blocks lj

pub length-blocks_from : (s : BlockData) (li n : ℕ) → length (blocks_from s li n) ≡ n
unfolding blocks_from
length-blocks_from s li zero = refl
length-blocks_from s li (suc n) = omega (arith, length-blocks_from s (suc li) n)

pub blocks_from-read :
    (s : BlockData) (li n i : ℕ) → i < n → at_index (blocks_from s li n) i ≡ get_block s (li + i)
unfolding blocks_from
blocks_from-read s li zero i h = absurd (omega arith)
blocks_from-read s li (suc n) zero h = ap (get_block s) (omega arith)
blocks_from-read s li (suc n) (suc i) h =
    blocks_from-read s (suc li) n i (omega arith) ∙ ap (get_block s) (omega arith)

pub blocks_from-Reads :
    (s : BlockData) (i : ℕ) → i < 4096 → at_index (blocks_from s 0 4096) i ≡ get_block s i
blocks_from-Reads s i h = blocks_from-read s 0 4096 i h ∙ ap (get_block s) (omega arith)

pub All-at : (P : ℕ → Type 0) (bs : List ℕ) (i : ℕ) → All P bs → i < length bs → P (at_index bs i)
All-at P [] i a h = absurd (omega arith)
All-at P (b ∷ bs) zero a h = a.0
All-at P (b ∷ bs) (suc i) a h = All-at P bs i a.1 (omega arith)

All-map : (P Q : ℕ → Type 0) (bs : List ℕ) → ((b : ℕ) → P b → Q b) → All P bs → All Q bs
All-map P Q [] f a = tt
All-map P Q (b ∷ bs) f a = (f b a.0, All-map P Q bs f a.1)

-- A palette with all the blocks, and their indices.
pub flat_section :
    (ps bs : List ℕ)
    → length ps ≤ 256
    → All (λ b. has_id b ps ≡ true) bs
    → length bs ≡ 4096
    → IsWf (flat (record { palette = ps; indices = flat_indices ps bs }))
      × Reads (flat (record { palette = ps; indices = flat_indices ps bs })) bs
unfolding IsWf IsPaletted get_block
flat_section ps bs l a n =
    let bytes = flat_indices-IsByte ps bs in
    let read = λ (i : ℕ). read_byte (flat_indices ps bs) i bytes in
    (
      (
        omega (arith, length-flat_indices ps bs),
        bytes,
        l,
        λ i k. rw (read i) (flat_indices-read ps bs i l a (omega arith)).1,
      ),
      λ lj k. ap (at_index ps) (read lj) ∙ (flat_indices-read ps bs lj l a (omega arith)).0,
    )

-- The ids that `promoteToFlatOrOverflow` collects.
abbrev pub ids_with : ℕ → List ℕ → List ℕ
ids_with id blocks = collect_unique (id ∷ []) blocks

-- There is a place for air in the palette.
abbrev pub HasPlace : ℕ → List ℕ → Type 0
HasPlace id blocks = length (nonzero_ids (ids_with id blocks)) < 256

pub air_place :
    (id : ℕ) (bs : List ℕ)
    → (id ≡ 0) ⊎ ((lj : ℕ) × (lj < length bs) × (at_index bs lj ≡ 0))
    → length (ids_with id bs) ≤ 256
    → HasPlace id bs
unfolding has_id
air_place id bs (inl z) l =
    let k = collect_unique-keeps 0 (id ∷ []) bs (ground arith) in
    omega (arith, nonzero_ids-lt (ids_with id bs) k)
air_place id bs (inr (lj, lt, z)) l =
    let k =
      All-at (λ b. has_id b (ids_with id bs) ≡ true) bs lj (collect_unique-covers (id ∷ []) bs l)
        lt in
    omega
      (arith, nonzero_ids-lt (ids_with id bs) (subst (λ b. has_id b (ids_with id bs) ≡ true) z k))

promoted-flat :
    (blocks : List ℕ) (id : ℕ)
    → leb (length (ids_with id blocks)) 256 ≡ true
    → promoted blocks id
      ≡ flat (record {
        palette = 0 ∷ nonzero_ids (ids_with id blocks);
        indices = flat_indices (0 ∷ nonzero_ids (ids_with id blocks)) blocks;
      })
unfolding promoted
promoted-flat blocks id e = rw (promoted, e) refl

promoted-overflow :
    (blocks : List ℕ) (id : ℕ)
    → leb (length (ids_with id blocks)) 256 ≡ false
    → promoted blocks id ≡ overflow blocks
unfolding promoted
promoted-overflow blocks id e = rw (promoted, e) refl

-- After a promotion for `id` the section is flat and its palette has `id`, or it is an overflow.
pub promoted_cases :
    (bs : List ℕ) (id : ℕ)
    → length bs ≡ 4096
    → (length (ids_with id bs) ≤ 256 → HasPlace id bs)
    → ((f : FlatData) × (promoted bs id ≡ flat f)
        × (has_id id f.palette ≡ true)
        × IsWf (flat f)
        × Reads (flat f) bs)
      ⊎ (promoted bs id ≡ overflow bs)
promoted_cases bs id n place = elim (Bool-cases (leb (length (ids_with id bs)) 256)) [
  | inl y ↦
      let us = ids_with id bs in
      let l : length us ≤ 256 = leb→le (length us) 256 y in
      let ps = 0 ∷ nonzero_ids us in
      let covered =
        All-map (λ b. has_id b us ≡ true) (λ b. has_id b ps ≡ true) bs (λ b. has_id-palette b us)
          (collect_unique-covers (id ∷ []) bs l) in
      inl (
        record { palette = ps; indices = flat_indices ps bs },
        promoted-flat bs id y,
        has_id-palette id us (collect_unique-keeps id (id ∷ []) bs (has_id-one id)),
        (flat_section ps bs (omega (arith, place l)) covered n).0,
        (flat_section ps bs (omega (arith, place l)) covered n).1,
      )
  | inr y ↦ inr (promoted-overflow bs id y)
]

-- An overflow section keeps its blocks, demoted or not.
pub demote_lem :
    (bs : List ℕ)
    → length bs ≡ 4096
    → IsWf (check_overflow_demote bs) × Reads (check_overflow_demote bs) bs
unfolding check_overflow_demote IsWf get_block
demote_lem bs n = elim (Bool-cases (ltb 256 (length (collect_unique (0 ∷ []) bs)))) [
  | inl y ↦ rw (check_overflow_demote, y) (n, λ lj k. refl)
  | inr y ↦
      let us = collect_unique (0 ∷ []) bs in
      let l : length us ≤ 256 = ground arith in
      rw (check_overflow_demote, y) (flat_section us bs l (collect_unique-covers (0 ∷ []) bs l) n)
]

pub length-replicate : (n v : ℕ) → length (replicate n v) ≡ n
length-replicate zero v = refl
length-replicate (suc n) v = omega (arith, length-replicate n v)

pub replicate-IsByte : (n : ℕ) → All IsByte (replicate n 0)
replicate-IsByte zero = tt
replicate-IsByte (suc n) = (omega arith, replicate-IsByte n)

pub replicate-read : (n i : ℕ) → at_index (replicate n 0) i ≡ 0
replicate-read zero i = refl
replicate-read (suc n) zero = refl
replicate-read (suc n) (suc i) = replicate-read n i

pub zero_nibble : (i : ℕ) → read_bitpacked (replicate 2049 0) i 4 ≡ 0
zero_nibble i =
    read_nibble (replicate 2049 0) i (replicate-IsByte 2049)
    ∙ ground (arith, replicate-read 2049 (i / 2))

-- The first block of a section of air.
pub first_block_lem :
    (li id : ℕ)
    → li < 4096
    → IsPaletted 4 2049 (first_block li id)
      × ((lj : ℕ) → lj < 4096 → block_at 4 (first_block li id) lj ≡ (if li == lj then id else 0))
unfolding first_block IsPaletted
first_block_lem li id h =
    let (ok, law) =
      written 4 2049 (record { palette = 0 ∷ []; indices = replicate 2049 0 }) (0 ∷ id ∷ []) li 1 id
        nibble_law
        (
          length-replicate 2049 0,
          replicate-IsByte 2049,
          omega arith,
          λ i k. ground (arith, zero_nibble i),
        )
        h (omega arith) (omega arith) refl (omega arith) (λ i k. ground arith) in
    (ok, λ lj k. law lj k ∙ ap (λ v. if li == lj then id else at_index (0 ∷ []) v) (zero_nibble lj))
