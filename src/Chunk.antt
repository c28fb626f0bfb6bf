-- ===== src/Chunk.antt =====
-- A chunk of eight sections, apps/chunk_store/Storage/cache/MutableChunk.cpp. Positions are from 0 to 31
-- on each axis, where the source's `|` of shifted coordinates is a sum.
pub mod Positions
mod Tests
use gtnh_platform.Base.{
  ℕ, zero, suc, ◌+◌, ◌*◌, ◌/◌, ◌%◌, ◌≤◌, ◌<◌, ◌≡◌, refl, inl, inr, ap, sym, ◌∙◌, Bool, true, false,
  ◌&&◌, Option, none, some, List, [], ◌∷◌, ◌++◌, arith, Bool-cases, ◌==◌, ltb, if◌then◌else◌,
  length, length-set, get_elem?, set, All, All-set,
}
use gtnh_platform.Section.{at_index, BlockData, air, get_block, set_block, sec_vol}
use gtnh_platform.Section.Bytes.{◌>>=◌, write_u8, write_u32, read_u8, read_u32}
use gtnh_platform.Section.Sparse.{Sparse, entries, sparse_get, sparse_set}
use gtnh_platform.Section.Reads.{IsWf}
use gtnh_platform.Section.Written.{HasAir, set_block_lem}
use gtnh_platform.Section.Loaded.{from_blocks}
use gtnh_platform.Section.Wire.{Section, encode_to_wire, from_wire}

abbrev pub sec_cnt : ℕ
sec_cnt = 8

-- `MAGIC`
abbrev pub magic : ℕ
magic = 1263027015

abbrev pub Chunk : Type 0
Chunk = List Section

abbrev pub empty_section : Section
empty_section = record { blocks = air; meta = entries []; mb = entries [] }

-- `sections[i]`
abbrev pub section_at : Chunk → ℕ → Section
section_at [] i = empty_section
section_at (s ∷ ss) zero = s
section_at (s ∷ ss) (suc i) = section_at ss i

pub section_index : ℕ → ℕ → ℕ → ℕ
section_index x y z = y / 16 * 4 + z / 16 * 2 + x / 16

pub local_index : ℕ → ℕ → ℕ → ℕ
local_index x y z = y % 16 * 256 + z % 16 * 16 + x % 16

pub get_block_at : Chunk → ℕ → ℕ → ℕ → ℕ
unfolding section_index local_index get_block
get_block_at c x y z = get_block (section_at c (section_index x y z)).blocks (local_index x y z)

-- `setBlock`, where a write takes at most two nested calls.
pub set_block_at : Chunk → ℕ → ℕ → ℕ → ℕ → Option Chunk
unfolding section_index local_index set_block
set_block_at c x y z id =
    let i = section_index x y z in
    let s = section_at c i in
    elim (set_block 2 s.blocks (local_index x y z) id) [
      | none ↦ none
      | some b ↦ some (set c i (record s { blocks = b }))
    ]

unfoldable pub get_meta_at : Chunk → ℕ → ℕ → ℕ → ℕ
unfolding section_index local_index sparse_get
get_meta_at c x y z = sparse_get (section_at c (section_index x y z)).meta (local_index x y z)

unfoldable pub set_meta_at : Chunk → ℕ → ℕ → ℕ → ℕ → Chunk
unfolding section_index local_index sparse_set
set_meta_at c x y z m =
    let i = section_index x y z in
    let s = section_at c i in set c i (record s { meta = sparse_set s.meta (local_index x y z) m })

unfoldable pub get_multiblock_at : Chunk → ℕ → ℕ → ℕ → ℕ
unfolding section_index local_index sparse_get
get_multiblock_at c x y z = sparse_get (section_at c (section_index x y z)).mb (local_index x y z)

unfoldable pub set_multiblock_at : Chunk → ℕ → ℕ → ℕ → ℕ → Chunk
unfolding section_index local_index sparse_set
set_multiblock_at c x y z mb_id =
    let i = section_index x y z in
    let s = section_at c i in set c i (record s { mb = sparse_set s.mb (local_index x y z) mb_id })

-- `local` of the section `s`, for `n` blocks from local index `li` on: the three loops run through the
-- local indices in order.
pub local_blocks : ℕ → List ℕ → ℕ → ℕ → List ℕ
local_blocks s blocks li zero = []
local_blocks s blocks li (suc n) =
    let x = s % 2 * 16 + li % 16 in
    let y = (s / 4) % 2 * 16 + li / 256 in
    let z = (s / 2) % 2 * 16 + (li / 16) % 16 in
    at_index blocks (y * 1024 + z * 32 + x) ∷ local_blocks s blocks (suc li) n

pub loaded_section : List ℕ → ℕ → Section
unfolding local_blocks from_blocks
loaded_section blocks s = record empty_section {
  blocks = from_blocks (local_blocks s blocks 0 sec_vol);
}

-- `fromBlocks`, for `n` sections from `s` on.
pub sections_from : List ℕ → ℕ → ℕ → Chunk
sections_from blocks s zero = []
sections_from blocks s (suc n) = loaded_section blocks s ∷ sections_from blocks (suc s) n

pub chunk_from_blocks : List ℕ → Chunk
unfolding sections_from
chunk_from_blocks blocks = sections_from blocks 0 sec_cnt

pub encode_sections : Chunk → List ℕ
unfolding encode_to_wire
encode_sections [] = []
encode_sections (s ∷ ss) = encode_to_wire s ++ encode_sections ss

unfoldable pub chunk_encode_to_wire : Chunk → List ℕ
unfolding write_u32 write_u8 encode_sections
chunk_encode_to_wire c = write_u32 magic ++ (write_u8 2 ++ (write_u8 sec_cnt ++ encode_sections c))

-- The loop that decodes `n` sections.
pub read_sections : ℕ → List ℕ → Option Chunk
unfolding from_wire
read_sections zero rest = some []
read_sections (suc n) rest = do (s, rest) ← from_wire rest; ss ← read_sections n rest; some (s ∷ ss)

unfoldable pub chunk_from_wire : List ℕ → Option Chunk
unfolding read_u32 read_u8 read_sections
chunk_from_wire data_bytes = do
  (m, rest) ← read_u32 data_bytes
  (ver, rest) ← (if m == magic then read_u8 rest else none)
  (count, rest) ← (if ltb ver 2 then none else read_u8 rest)
  (if count == sec_cnt then read_sections sec_cnt rest else none)
