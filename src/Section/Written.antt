-- ===== src/Section/Written.antt =====
-- `setBlock`: the block is written, the others are kept, and the section stays well-formed.
use gtnh_platform.Base.{
  ℕ, zero, suc, ◌+◌, ◌≤◌, ◌<◌, ◌≡◌, refl, ◌⊎◌, inl, inr, ap, ◌∙◌, true, Option, none, some, List,
  [], ◌∷◌, arith, Bool-cases, ◌==◌, if◌then◌else◌, length, length-set, set, All,
}
use gtnh_platform.Base.Ids.{has_id, absent-le}
use gtnh_platform.Section.{
  sec_vol, at_index, FlatData, BlockData, air, bitpack4, flat, overflow, get_block, blocks_from,
  promoted, promote_to_flat_or_overflow, check_overflow_demote, first_block, set_in_palette,
  set_directly, set_block, map_flat, read_bitpacked,
}
use gtnh_platform.Section.Packed.{at_index-set}
use gtnh_platform.Section.Palette.{find_id-some, collect_unique-bound, has_id-at, nonzero_ids-le}
use gtnh_platform.Section.Blocks.{IsPaletted, nibble_law, byte_law, set_in_palette_cases}
use gtnh_platform.Section.Reads.{
  IsWf, length-blocks_from, blocks_from-Reads, ids_with, HasPlace, air_place, promoted_cases,
  demote_lem, first_block_lem,
}

-- `s'` is well-formed, and has the blocks of `s` but for `id` at `li`.
abbrev pub IsWrite : BlockData → ℕ → ℕ → BlockData → Type 0
IsWrite s li id s' =
    IsWf s' × ((lj : ℕ) → lj < 4096 → get_block s' lj ≡ (if li == lj then id else get_block s lj))

-- What a flat section needs that may have to promote: the new id or one of its blocks is air. Other
-- sections need nothing.
unfoldable pub HasAir : BlockData → ℕ → Type 0
HasAir air id = Unit
HasAir (bitpack4 f) id = Unit
HasAir (flat f) id = (id ≡ 0) ⊎ ((lj : ℕ) × (lj < 4096) × (get_block (flat f) lj ≡ 0))
HasAir (overflow blocks) id = Unit

write_overflow :
    (blocks : List ℕ) (li id : ℕ)
    → length blocks ≡ 4096
    → li < 4096
    → (s' : BlockData) × (set_directly (overflow blocks) li id ≡ some s')
      × IsWf s'
      × ((lj : ℕ) → lj < 4096 → get_block s' lj ≡ (if li == lj then id else at_index blocks lj))
unfolding set_directly IsWf get_block
write_overflow blocks li id n h =
    let long = length-set blocks li id in
    let law = λ (lj : ℕ). at_index-set blocks li lj id (omega arith) in
    elim (Bool-cases (at_index blocks li == id)) [
      | inl y ↦ (overflow (set blocks li id), rw y refl, long ∙ n, λ lj k. law lj)
      | inr y ↦
          let d = demote_lem (set blocks li id) (long ∙ n) in
          (check_overflow_demote (set blocks li id), rw y refl, d.0, λ lj k. d.1 lj k ∙ law lj)
    ]

set_directly-flat :
    (f : FlatData) (li id : ℕ) (o : Option FlatData)
    → set_in_palette f li id 8 ≡ o
    → set_directly (flat f) li id ≡ map_flat flat o
unfolding set_directly
set_directly-flat f li id o e = ap (map_flat flat) e

set_directly-bitpack4 :
    (f : FlatData) (li id : ℕ) (o : Option FlatData)
    → set_in_palette f li id 4 ≡ o
    → set_directly (bitpack4 f) li id ≡ map_flat bitpack4 o
unfolding set_directly
set_directly-bitpack4 f li id o e = ap (map_flat bitpack4) e

set_block-directly :
    (n : ℕ) (s s' : BlockData) (li id : ℕ)
    → set_directly s li id ≡ some s'
    → set_block (suc n) s li id ≡ some s'
unfolding set_block
set_block-directly n s s' li id e = rw (set_block, e) refl

set_block-again :
    (n : ℕ) (s : BlockData) (li id : ℕ)
    → set_directly s li id ≡ none
    → set_block (suc n) s li id ≡ set_block n (promote_to_flat_or_overflow s id) li id
unfolding set_block
set_block-again n s li id e =
    ap
      (λ (o : Option BlockData). elim o [
        | some s' ↦ some s'
        | none ↦ set_block n (promote_to_flat_or_overflow s id) li id
      ])
      e

put_known_id :
    (f : FlatData) (li id n : ℕ)
    → IsWf (flat f)
    → li < 4096
    → has_id id f.palette ≡ true
    → (s' : BlockData) × (set_block (suc n) (flat f) li id ≡ some s') × IsWrite (flat f) li id s'
unfolding IsWf get_block
put_known_id f li id n w h has = elim (set_in_palette_cases 8 4097 f li id byte_law w h) [
  | inl (f', e, (ok, law)) ↦ (
    flat f',
    set_block-directly n (flat f) (flat f') li id (set_directly-flat f li id (some f') e),
    (ok, law),
  )
  | inr (e, absent_id, full) ↦
      let (i, found) = find_id-some id f.palette has in absurd (ground arith)
]

-- The write after a promotion.
write_promoted :
    (bs : List ℕ) (li id n : ℕ)
    → length bs ≡ 4096
    → li < 4096
    → (length (ids_with id bs) ≤ 256 → HasPlace id bs)
    → (s' : BlockData) × (set_block (suc n) (promoted bs id) li id ≡ some s')
      × IsWf s'
      × ((lj : ℕ) → lj < 4096 → get_block s' lj ≡ (if li == lj then id else at_index bs lj))
write_promoted bs li id n l h place = elim (promoted_cases bs id l place) [
  | inl (f, e, has, w, reads) ↦
      let (s', r, (ok, law)) = put_known_id f li id n w h has in
      (
        s',
        ap (λ s. set_block (suc n) s li id) e ∙ r,
        ok,
        λ lj k. law lj k ∙ ap (λ v. if li == lj then id else v) (reads lj k),
      )
  | inr e ↦
      let (s', r, ok, law) = write_overflow bs li id l h in
      (
        s',
        ap (λ s. set_block (suc n) s li id) e ∙ set_block-directly n (overflow bs) s' li id r,
        ok,
        law,
      )
]

-- A section that has to promote.
after_promotion :
    (s : BlockData) (li id n : ℕ)
    → li < 4096
    → set_directly s li id ≡ none
    → (length (ids_with id (blocks_from s 0 sec_vol)) ≤ 256 → HasPlace id (blocks_from s 0 sec_vol))
    → (s' : BlockData) × (set_block (suc (suc n)) s li id ≡ some s') × IsWrite s li id s'
unfolding promote_to_flat_or_overflow
after_promotion s li id n h e place =
    let (s', r, ok, law) =
      write_promoted (blocks_from s 0 sec_vol) li id n (length-blocks_from s 0 sec_vol) h place in
    (
      s',
      set_block-again (suc n) s li id e ∙ r,
      (ok, λ lj k. law lj k ∙ ap (λ v. if li == lj then id else v) (blocks_from-Reads s lj k)),
    )

-- A section that has room for one more id in its palette, or the id in it.
palette_ids :
    (f : FlatData) (id li n : ℕ)
    → IsPaletted 4 2049 f
    → li + n ≤ 4096
    → All (λ b. has_id b f.palette ≡ true) (blocks_from (bitpack4 f) li n)
unfolding blocks_from get_block IsPaletted
palette_ids f id li zero w h = tt
palette_ids f id li (suc n) w h = (
  has_id-at f.palette (read_bitpacked f.indices li 4) (w.3 li (omega arith)),
  palette_ids f id (suc li) n w (omega arith),
)

few_ids :
    (f : FlatData) (id : ℕ)
    → IsPaletted 4 2049 f
    → length (ids_with id (blocks_from (bitpack4 f) 0 sec_vol)) ≤ 17
unfolding IsPaletted
few_ids f id w =
    let bound =
      collect_unique-bound f.palette (id ∷ []) (blocks_from (bitpack4 f) 0 sec_vol)
        (palette_ids f id 0 4096 w (omega arith)) in
    omega (arith, bound, absent-le f.palette (id ∷ []), w.2)

flat_air :
    (f : FlatData) (id : ℕ)
    → (id ≡ 0) ⊎ ((lj : ℕ) × (lj < 4096) × (get_block (flat f) lj ≡ 0))
    → (id ≡ 0)
      ⊎ ((lj : ℕ) × (lj < length (blocks_from (flat f) 0 4096))
          × (at_index (blocks_from (flat f) 0 4096) lj ≡ 0))
flat_air f id (inl z) = inl z
flat_air f id (inr (lj, h, z)) =
    inr (lj, omega (arith, length-blocks_from (flat f) 0 4096), blocks_from-Reads (flat f) lj h ∙ z)

-- A write at a position below 4096 of a well-formed section needs at most one promotion, so two
-- nested calls or more give a result, when the section is not flat, or the id or one of its blocks
-- is air. The result is well-formed, has the new id at the written position and the old ids at the
-- others.
pub set_block_lem :
    (s : BlockData) (li id n : ℕ)
    → IsWf s
    → li < 4096
    → HasAir s id
    → (s' : BlockData) × (set_block (suc (suc n)) s li id ≡ some s') × IsWrite s li id s'
unfolding IsWf HasAir get_block set_directly
set_block_lem air li id n w h a = elim (Bool-cases (id == 0)) [
  | inl y ↦ (air, set_block-directly (suc n) air air li id (rw y refl), (tt, λ lj k. ground arith))
  | inr y ↦ (
    bitpack4 (first_block li id),
    set_block-directly (suc n) air (bitpack4 (first_block li id)) li id (rw y refl),
    first_block_lem li id h,
  )
]
set_block_lem (overflow blocks) li id n w h a =
    let (s', r, ok, law) = write_overflow blocks li id w h in
    (s', set_block-directly (suc n) (overflow blocks) s' li id r, (ok, law))
set_block_lem (bitpack4 f) li id n w h a =
    elim (set_in_palette_cases 4 2049 f li id nibble_law w h) [
      | inl (f', e, (ok, law)) ↦ (
        bitpack4 f',
        set_block-directly (suc n) (bitpack4 f) (bitpack4 f') li id
            (set_directly-bitpack4 f li id (some f') e),
        (ok, law),
      )
      | inr (e, absent_id, full) ↦
          let us = ids_with id (blocks_from (bitpack4 f) 0 sec_vol) in
          after_promotion (bitpack4 f) li id n h (set_directly-bitpack4 f li id none e)
            (λ l. omega (arith, nonzero_ids-le us, few_ids f id w))
    ]
set_block_lem (flat f) li id n w h a = elim (set_in_palette_cases 8 4097 f li id byte_law w h) [
  | inl (f', e, (ok, law)) ↦ (
    flat f',
    set_block-directly (suc n) (flat f) (flat f') li id (set_directly-flat f li id (some f') e),
    (ok, law),
  )
  | inr (e, absent_id, full) ↦
      after_promotion (flat f) li id n h (set_directly-flat f li id none e)
        (air_place id (blocks_from (flat f) 0 sec_vol) (flat_air f id a))
]
