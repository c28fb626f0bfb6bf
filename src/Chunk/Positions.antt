-- ===== src/Chunk/Positions.antt =====
-- Reads and writes at positions of a chunk.
use gtnh_platform.Base.{
  ℕ, zero, suc, ◌+◌, ◌*◌, ◌/◌, ◌%◌, ◌<◌, ◌≡◌, refl, ap, sym, ◌∙◌, Bool, true, false, ◌&&◌, Option,
  none, some, List, [], ◌∷◌, arith, ◌==◌, if◌then◌else◌, length, length-set, set, All, All-set,
}
use gtnh_platform.Section.{at_index, BlockData, get_block, set_block}
use gtnh_platform.Section.Reads.{IsWf}
use gtnh_platform.Section.Written.{HasAir, set_block_lem}
use gtnh_platform.Section.Loaded.{from_blocks-Reads}
use gtnh_platform.Section.Wire.{Section}
use gtnh_platform.Chunk.{
  Chunk, section_at, section_index, local_index, get_block_at, set_block_at, local_blocks,
  loaded_section, sections_from, chunk_from_blocks,
}

-- A position in a chunk.
abbrev pub IsPosition : ℕ → ℕ → ℕ → Type 0
IsPosition x y z = (x < 32) × (y < 32) × (z < 32)

abbrev pub same_position : ℕ → ℕ → ℕ → ℕ → ℕ → ℕ → Bool
same_position x y z x' y' z' = (x == x') && (y == y') && (z == z')

section_at-set :
    (c : Chunk) (i j : ℕ) (s : Section)
    → i < length c
    → section_at (set c i s) j ≡ (if i == j then s else section_at c j)
section_at-set [] i j s h = absurd (omega arith)
section_at-set (t ∷ c) zero zero s h = refl
section_at-set (t ∷ c) zero (suc j) s h = ground arith
section_at-set (t ∷ c) (suc i) zero s h = ground arith
section_at-set (t ∷ c) (suc i) (suc j) s h = section_at-set c i j s (omega arith) ∙ ground arith

-- The section and the index in it determine the position.
position_lem :
    (x y z x' y' z' : ℕ)
    → IsPosition x y z
    → IsPosition x' y' z'
    → same_position x y z x' y' z' ≡ (
        (section_index x y z == section_index x' y' z')
        && (local_index x y z == local_index x' y' z'))
unfolding section_index local_index
position_lem x y z x' y' z' (a, b, c) (a', b', c') = ground arith

indices_small :
    (x y z : ℕ) → IsPosition x y z → (section_index x y z < 8) × (local_index x y z < 4096)
unfolding section_index local_index
indices_small x y z (a, b, c) = (omega arith, omega arith)

abbrev pub IsWfBlocks : Section → Type 0
IsWfBlocks s = IsWf s.blocks

-- Eight well-formed sections.
abbrev pub IsWfChunk : Chunk → Type 0
IsWfChunk c = (length c ≡ 8) × All IsWfBlocks c

section_at-IsWf :
    (c : Chunk) (i : ℕ) → All IsWfBlocks c → i < length c → IsWf (section_at c i).blocks
section_at-IsWf [] i a h = absurd (omega arith)
section_at-IsWf (s ∷ c) zero a h = a.0
section_at-IsWf (s ∷ c) (suc i) a h = section_at-IsWf c i a.1 (omega arith)

-- The case of a write that succeeds.
set_block_at-some :
    (c : Chunk) (x y z id : ℕ) (b : BlockData)
    → set_block 2 (section_at c (section_index x y z)).blocks (local_index x y z) id ≡ some b
    → set_block_at c x y z id
      ≡ some
          (set c (section_index x y z) (record (section_at c (section_index x y z)) { blocks = b }))
unfolding set_block_at
set_block_at-some c x y z id b e =
    ap
      (λ (o : Option BlockData). elim o [
        | none ↦ none
        | some b ↦ some (
            set c (section_index x y z)
              (record (section_at c (section_index x y z)) { blocks = b }))
      ])
      e

-- The section written, or another one.
write_law :
    (same_section same_index : Bool) (s : Section) (b : BlockData) (li id : ℕ)
    → (same_section ≡ true → get_block b li ≡ (if same_index then id else get_block s.blocks li))
    → (t : Section) → t.blocks ≡ b
    → get_block (if same_section then t else s).blocks li
      ≡ (if same_section && same_index then id else get_block s.blocks li)
write_law true same_index s b li id h t e = ap (λ b. get_block b li) e ∙ h refl
write_law false same_index s b li id h t e = refl

-- `setBlock` at a position from 0 to 31 on each axis of a well-formed chunk gives a well-formed
-- chunk with the id at the position and the old ids at all others, when the section of the
-- position is not flat, or the id or a block of that section is air.
pub set_block_at_lem :
    (c : Chunk) (x y z id : ℕ)
    → IsWfChunk c
    → IsPosition x y z
    → HasAir (section_at c (section_index x y z)).blocks id
    → (c' : Chunk) × (set_block_at c x y z id ≡ some c')
      × IsWfChunk c'
      × ((x' y' z' : ℕ)
          → IsPosition x' y' z'
          → get_block_at c' x' y' z'
            ≡ (if same_position x y z x' y' z' then id else get_block_at c x' y' z'))
unfolding get_block_at
set_block_at_lem c x y z id (eight, ok) p room =
    let i = section_index x y z in
    let s = section_at c (section_index x y z) in
    let (i_lt, li_lt) = indices_small x y z p in
    let inside : section_index x y z < length c = omega (arith, i_lt) in
    let (b, e, (b_ok, law)) =
      set_block_lem s.blocks (local_index x y z) id 0 (section_at-IsWf c i ok inside) li_lt room in
    (
      set c i (record s { blocks = b }),
      set_block_at-some c x y z id b e,
      (
        length-set c i (record s { blocks = b }) ∙ eight,
        All-set IsWfBlocks c i (record s { blocks = b }) ok b_ok,
      ),
      λ x' y' z' p'.
          let j = section_index x' y' z' in
          let at = section_at-set c i j (record s { blocks = b }) inside in
          let small = (indices_small x' y' z' p').1 in
          ap (λ t. get_block t.blocks (local_index x' y' z')) at
          ∙ write_law (section_index x y z == section_index x' y' z')
              (local_index x y z == local_index x' y' z') (section_at c (section_index x' y' z')) b
              (local_index x' y' z') id
              (λ same.
                law (local_index x' y' z') small
                ∙ ap
                    (λ j.
                      if local_index x y z == local_index x' y' z'
                      then id
                      else get_block (section_at c j).blocks (local_index x' y' z'))
                    (ground arith))
              (record s { blocks = b }) refl
          ∙ ap (λ t. if t then id else get_block_at c x' y' z')
              (sym (position_lem x y z x' y' z' p p')),
    )

-- The blocks of a section in a chunk.
abbrev chunk_position : ℕ → ℕ → ℕ
chunk_position s li =
    ((s / 4) % 2 * 16 + li / 256) * 1024
    + ((s / 2) % 2 * 16 + (li / 16) % 16) * 32
    + (s % 2 * 16 + li % 16)

length-local_blocks : (s : ℕ) (bs : List ℕ) (li n : ℕ) → length (local_blocks s bs li n) ≡ n
unfolding local_blocks
length-local_blocks s bs li zero = refl
length-local_blocks s bs li (suc n) = omega (arith, length-local_blocks s bs (suc li) n)

local_blocks-read :
    (s : ℕ) (bs : List ℕ) (li n i : ℕ)
    → i < n
    → at_index (local_blocks s bs li n) i ≡ at_index bs (chunk_position s (li + i))
unfolding local_blocks
local_blocks-read s bs li zero i h = absurd (omega arith)
local_blocks-read s bs li (suc n) zero h = ap (λ l. at_index bs (chunk_position s l)) (omega arith)
local_blocks-read s bs li (suc n) (suc i) h =
    local_blocks-read s bs (suc li) n i (omega arith)
    ∙ ap (λ l. at_index bs (chunk_position s l)) (omega arith)

sections_from-at :
    (bs : List ℕ) (s n i : ℕ)
    → i < n
    → section_at (sections_from bs s n) i ≡ loaded_section bs (s + i)
unfolding sections_from
sections_from-at bs s zero i h = absurd (omega arith)
sections_from-at bs s (suc n) zero h = let e : s ≡ s + 0 = omega arith in ap (loaded_section bs) e
sections_from-at bs s (suc n) (suc i) h =
    let e : suc s + i ≡ s + suc i = omega arith in
    sections_from-at bs (suc s) n i (omega arith) ∙ ap (loaded_section bs) e

loaded_section-read :
    (bs : List ℕ) (s li : ℕ)
    → li < 4096
    → get_block (loaded_section bs s).blocks li ≡ at_index bs (chunk_position s (0 + li))
unfolding loaded_section
loaded_section-read bs s li h =
    (from_blocks-Reads (local_blocks s bs 0 4096) (length-local_blocks s bs 0 4096)).1 li h
    ∙ local_blocks-read s bs 0 4096 li h

chunk_position_lem :
    (x y z : ℕ)
    → IsPosition x y z
    → chunk_position (0 + section_index x y z) (0 + local_index x y z) ≡ y * 1024 + z * 32 + x
unfolding section_index local_index
chunk_position_lem x y z (a, b, c) = omega arith

-- A chunk made by `fromBlocks` has at each position from 0 to 31 on each axis the block of the
-- array at index y * 1024 + z * 32 + x.
pub get_block_at-chunk_from_blocks :
    (bs : List ℕ) (x y z : ℕ)
    → IsPosition x y z
    → get_block_at (chunk_from_blocks bs) x y z ≡ at_index bs (y * 1024 + z * 32 + x)
unfolding get_block_at chunk_from_blocks
get_block_at-chunk_from_blocks bs x y z p =
    let (i_lt, li_lt) = indices_small x y z p in
    ap (λ s. get_block s.blocks (local_index x y z))
      (sections_from-at bs 0 8 (section_index x y z) i_lt)
    ∙ loaded_section-read bs (0 + section_index x y z) (local_index x y z) li_lt
    ∙ ap (at_index bs) (chunk_position_lem x y z p)
