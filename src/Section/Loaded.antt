-- ===== src/Section/Loaded.antt =====
-- `MutableSection::fromBlocks`: the smallest representation of 4096 blocks.
use gtnh_platform.Base.{
  ℕ, suc, ◌+◌, ◌-◌, ◌≤◌, ◌<◌, ◌≡◌, refl, inl, inr, ap, sym, ◌∙◌, true, ◌&&◌, List, [], ◌∷◌, arith,
  Bool-cases, ◌==◌, ltb, leb, leb→le, if◌then◌else◌, length, replicate, All,
}
use gtnh_platform.Base.Ids.{has_id, has_id-one}
use gtnh_platform.Section.{
  or_zero, at_index, BlockData, air, bitpack4, flat, overflow, get_block, find_id, collect_unique,
  flat_indices, read_bitpacked, write_bitpacked,
}
use gtnh_platform.Section.Packed.{IsByte}
use gtnh_platform.Section.Palette.{
  find_id-some, find_id-at, collect_unique-covers, collect_unique-keeps,
}
use gtnh_platform.Section.Blocks.{IsPaletted, nibble_law}
use gtnh_platform.Section.Reads.{
  IsWf, Reads, flat_section, length-replicate, replicate-IsByte, All-at,
}

-- The loop that writes the index of each block, from block `li` on.
pub pack_indices : List ℕ → List ℕ → ℕ → List ℕ → List ℕ
unfolding find_id write_bitpacked
pack_indices palette [] li bytes = bytes
pack_indices palette (b ∷ bs) li bytes =
    pack_indices palette bs (suc li) (write_bitpacked bytes li (or_zero (find_id b palette)) 4)

-- `fromBlocks`
unfoldable pub from_blocks : List ℕ → BlockData
unfolding collect_unique flat_indices pack_indices
from_blocks blocks =
    let unique = collect_unique (0 ∷ []) blocks in
    if length unique == 1
    then air
    else (if leb (length unique) 16
        then bitpack4
            (record { palette = unique; indices = pack_indices unique blocks 0 (replicate 2049 0) })
        else (if leb (length unique) 256
            then flat (record { palette = unique; indices = flat_indices unique blocks })
            else overflow blocks))

at_next :
    (b : ℕ) (bs : List ℕ) (li lj : ℕ)
    → ((lj ≡ li) → at_index (b ∷ bs) (lj - li) ≡ b)
      × ((li < lj) → at_index (b ∷ bs) (lj - li) ≡ at_index bs (lj - suc li))
at_next b bs li lj = (
  λ e. let z : lj - li ≡ 0 = omega arith in rw z refl,
  λ h. let s : lj - li ≡ suc (lj - suc li) = omega arith in rw s refl,
)

-- After the loop each of its fields has the index of its block, and the others are as before.
pack_indices-read :
    (ps bs : List ℕ) (li : ℕ) (bytes : List ℕ)
    → length ps ≤ 16
    → All (λ b. has_id b ps ≡ true) bs
    → All IsByte bytes
    → length bytes ≡ 2049
    → li + length bs ≤ 4096
    → All IsByte (pack_indices ps bs li bytes)
      × (length (pack_indices ps bs li bytes) ≡ 2049)
      × ((lj : ℕ)
          → read_bitpacked (pack_indices ps bs li bytes) lj 4 ≡ (
              if leb li lj && ltb lj (li + length bs)
              then or_zero (find_id (at_index bs (lj - li)) ps)
              else read_bitpacked bytes lj 4))
unfolding pack_indices
pack_indices-read ps [] li bytes l a ok n h = (ok, n, λ lj. ground arith)
pack_indices-read ps (b ∷ bs) li bytes l a ok n h =
    let (i, e) = find_id-some b ps a.0 in
    let (at, lt) = find_id-at b ps i e in
    let idx_eq : or_zero (find_id b ps) ≡ i = ap or_zero e in
    let bytes' = write_bitpacked bytes li (or_zero (find_id b ps)) 4 in
    let w = λ (lj : ℕ).
      nibble_law bytes li lj (or_zero (find_id b ps)) ok n (omega arith) (omega arith) in
    let (ok', n', law) =
      pack_indices-read ps bs (suc li) bytes' l a.1 (w 0).1 ((w 0).2 ∙ n) (omega arith) in
    (ok', n', λ lj. law lj ∙ ground (arith, (w lj).0, at_next b bs li lj))

-- The index of a block in a palette that has all of them.
index_lem :
    (ps bs : List ℕ) (lj : ℕ)
    → All (λ b. has_id b ps ≡ true) bs
    → lj < length bs
    → (or_zero (find_id (at_index bs lj) ps) < length ps)
      × (at_index ps (or_zero (find_id (at_index bs lj) ps)) ≡ at_index bs lj)
index_lem ps bs lj a h =
    let (i, e) = find_id-some (at_index bs lj) ps (All-at (λ b. has_id b ps ≡ true) bs lj a h) in
    let (at, lt) = find_id-at (at_index bs lj) ps i e in rw e (lt, at)

in_range :
    (lj n : ℕ) (f : ℕ → ℕ) (b : ℕ)
    → lj < n
    → (if leb 0 lj && ltb lj (0 + n) then f (lj - 0) else b) ≡ f lj
in_range lj n f b h = let z : lj - 0 ≡ lj = omega arith in rw z (ground arith)

packed_section :
    (ps bs : List ℕ)
    → length ps ≤ 16
    → All (λ b. has_id b ps ≡ true) bs
    → length bs ≡ 4096
    → IsWf (bitpack4 (record { palette = ps; indices = pack_indices ps bs 0 (replicate 2049 0) }))
      × Reads
          (bitpack4 (record { palette = ps; indices = pack_indices ps bs 0 (replicate 2049 0) }))
          bs
unfolding IsWf IsPaletted get_block
packed_section ps bs l a n =
    let (ok, long, law) =
      pack_indices-read ps bs 0 (replicate 2049 0) l a (replicate-IsByte 2049)
        (length-replicate 2049 0) (omega arith) in
    let read : (lj : ℕ)
        → lj < 4096
        → read_bitpacked (pack_indices ps bs 0 (replicate 2049 0)) lj 4
          ≡ or_zero (find_id (at_index bs lj) ps) =
      λ lj k.
        law lj
        ∙ in_range lj (length bs) (λ i. or_zero (find_id (at_index bs i) ps))
            (read_bitpacked (replicate 2049 0) lj 4) (omega arith) in
    (
      (long, ok, l, λ i k. rw (read i k) (index_lem ps bs i a (omega arith)).0),
      λ lj k. ap (at_index ps) (read lj k) ∙ (index_lem ps bs lj a (omega arith)).1,
    )

only_air : (us : List ℕ) (b : ℕ) → length us ≡ 1 → has_id 0 us ≡ true → has_id b us ≡ true → b ≡ 0
unfolding has_id
only_air [] b n z h = absurd (omega arith)
only_air (u ∷ []) b n z h = ground arith
only_air (u ∷ v ∷ us) b n z h = absurd (omega arith)

-- `fromBlocks` gives a well-formed section with the given blocks, whichever representation it picks.
pub from_blocks-Reads :
    (bs : List ℕ) → length bs ≡ 4096 → IsWf (from_blocks bs) × Reads (from_blocks bs) bs
unfolding IsWf get_block from_blocks
from_blocks-Reads bs n =
    let us = collect_unique (0 ∷ []) bs in
    let has_air = collect_unique-keeps 0 (0 ∷ []) bs (has_id-one 0) in
    elim (Bool-cases (length us == 1)) [
      | inl x ↦
          let one : length us ≡ 1 = ground arith in
          let covered = collect_unique-covers (0 ∷ []) bs (omega arith) in
          rw (from_blocks, x)
            (
              tt,
              λ lj k. sym (
                  only_air us (at_index bs lj) one has_air
                    (All-at (λ b. has_id b us ≡ true) bs lj covered (omega arith))),
            )
      | inr x ↦ elim (Bool-cases (leb (length us) 16)) [
        | inl y ↦
            let l = leb→le (length us) 16 y in
            rw (from_blocks, x, y)
              (packed_section us bs l (collect_unique-covers (0 ∷ []) bs (omega arith)) n)
        | inr y ↦ elim (Bool-cases (leb (length us) 256)) [
          | inl z ↦
              let l = leb→le (length us) 256 z in
              rw (from_blocks, x, y, z)
                (flat_section us bs l (collect_unique-covers (0 ∷ []) bs l) n)
          | inr z ↦ rw (from_blocks, x, y, z) (n, λ lj k. refl)
        ]
      ]
    ]
