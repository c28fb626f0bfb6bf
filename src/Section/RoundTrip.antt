-- ===== src/Section/RoundTrip.antt =====
-- `fromWire` reads what `encodeToWire` wrote.
use gtnh_platform.Base.{
  ℕ, ◌/◌, ◌%◌, ◌<◌, ◌≡◌, refl, ap, sym, ◌∙◌, Bool, true, false, some, List, [], ◌++◌, append_assoc,
  arith, ◌==◌, if◌then◌else◌, length, All,
}
use gtnh_platform.Section.{
  at_index, FlatData, BlockData, air, bitpack4, flat, overflow, get_block, read_bitpacked,
}
use gtnh_platform.Section.Bytes.{write_u8, write_u16, read_u8, read_u16, read_u16s, bind_some}
use gtnh_platform.Section.Packed.{read_nibble, read_byte}
use gtnh_platform.Section.Blocks.{IsPaletted}
use gtnh_platform.Section.Sparse.{sparse_get}
use gtnh_platform.Section.Reads.{IsWf}
use gtnh_platform.Section.Wire.{
  Section, write_meta_mb_to_wire, read_meta_mb, flat_to_wire, blocks_to_wire, encode_to_wire,
  read_indices, read_section, skip_meta_mb, from_wire, take_bytes,
}
use gtnh_platform.Section.WireMeta.{set_entries-wire_entries}
use gtnh_platform.Section.WireSection.{
  decoded_over, blank_section, IsWfMeta, read_meta_mb_lem, skip_meta_mb_lem, from_wire_palette,
  if_false,
}
use gtnh_platform.Section.WireIndices.{
  padded, padded-read, padded-IsByte, read_packed_lem, read_flat_lem, read_indices-4,
  read_indices-8, if_true,
}

-- The ids that a section holds.
abbrev pub ids_of : BlockData → List ℕ
ids_of air = []
ids_of (bitpack4 f) = f.palette
ids_of (flat f) = f.palette
ids_of (overflow blocks) = blocks

abbrev pub is_overflow : BlockData → Bool
is_overflow (overflow blocks) = true
is_overflow b = false

abbrev pub is_air : BlockData → Bool
is_air air = true
is_air b = false

-- What is read back: all blocks, and the metadata unless the section is air.
abbrev pub IsReadBack : Section → Section → Type 0
IsReadBack s s' =
    ((lj : ℕ) → lj < 4096 → get_block s'.blocks lj ≡ get_block s.blocks lj)
    × ((lj : ℕ)
        → lj < 4096
        → sparse_get s'.meta lj ≡ (if is_air s.blocks then 0 else sparse_get s.meta lj))
    × ((lj : ℕ)
        → lj < 4096
        → sparse_get s'.mb lj ≡ (if is_air s.blocks then 0 else sparse_get s.mb lj))

-- A section over a palette.
palette_wire :
    (s : Section) (f : FlatData) (bpi n : ℕ) (blocks : BlockData) (rest : List ℕ)
    → s.blocks ≡ blocks
    → is_air blocks ≡ false
    → blocks_to_wire blocks ≡ flat_to_wire f bpi n
    → All (λ v. v < 65536) f.palette
    → 0 < length f.palette
    → length f.palette < 65536
    → 0 < bpi
    → bpi < 256
    → (blocks' : BlockData)
    → read_indices f.palette bpi (take_bytes n f.indices ++ (write_meta_mb_to_wire s ++ rest))
      ≡ some (blocks', write_meta_mb_to_wire s ++ rest)
    → ((lj : ℕ) → lj < 4096 → get_block blocks' lj ≡ get_block blocks lj)
    → IsWfMeta s
    → (s' : Section) × (from_wire (encode_to_wire s ++ rest) ≡ some (s', rest)) × IsReadBack s s'
unfolding encode_to_wire flat_to_wire
palette_wire s f bpi n blocks rest e air_e wire ids some_ids few pos small blocks' read same m =
    let (wm, vm, wb, vb) = m in
    (
      decoded_over blocks' s,
      ap (λ b. from_wire ((blocks_to_wire b ++ write_meta_mb_to_wire s) ++ rest)) e
          ∙ ap from_wire (
              ap (λ b. (b ++ write_meta_mb_to_wire s) ++ rest) wire
              ∙ append_assoc (flat_to_wire f bpi n) (write_meta_mb_to_wire s) rest)
          ∙ from_wire_palette f.palette bpi (take_bytes n f.indices)
              (write_meta_mb_to_wire s ++ rest) ids some_ids few pos small
          ∙ bind_some (λ ((blocks, rest) : BlockData × List ℕ). read_meta_mb blocks rest) read
              (read_meta_mb_lem blocks' s rest m),
      (
        λ lj k. same lj k ∙ ap (λ b. get_block b lj) (sym e),
        λ lj k.
            set_entries-wire_entries 256 s.meta wm vm lj k
            ∙ sym (if_false (is_air s.blocks) 0 (sparse_get s.meta lj) (ap is_air e ∙ air_e)),
        λ lj k.
            set_entries-wire_entries 4294967296 s.mb wb vb lj k
            ∙ sym (if_false (is_air s.blocks) 0 (sparse_get s.mb lj) (ap is_air e ∙ air_e)),
      ),
    )

packed_same :
    (f : FlatData) (lj : ℕ)
    → IsPaletted 4 2049 f
    → lj < 4096
    → read_bitpacked (padded 2048 f.indices) lj 4 ≡ read_bitpacked f.indices lj 4
unfolding IsPaletted
packed_same f lj (n, ok, few, inside) k =
    let same = padded-read 2048 f.indices (lj / 2) (omega arith) (omega arith) in
    read_nibble (padded 2048 f.indices) lj (padded-IsByte 2048 f.indices ok)
    ∙ ap (λ b. if lj % 2 == 0 then b % 16 else b / 16) same
    ∙ sym (read_nibble f.indices lj ok)

flat_same :
    (f : FlatData) (lj : ℕ)
    → IsPaletted 8 4097 f
    → lj < 4096
    → read_bitpacked (padded 4096 f.indices) lj 8 ≡ read_bitpacked f.indices lj 8
unfolding IsPaletted
flat_same f lj (n, ok, few, inside) k =
    read_byte (padded 4096 f.indices) lj (padded-IsByte 4096 f.indices ok)
    ∙ padded-read 4096 f.indices lj k (omega arith)
    ∙ sym (read_byte f.indices lj ok)

air_wire :
    (m rest : List ℕ) → from_wire ((blocks_to_wire air ++ m) ++ rest) ≡ skip_meta_mb (m ++ rest)
unfolding from_wire read_section read_u16 read_u16s read_u8 blocks_to_wire write_u16 write_u8
air_wire m rest = refl

air_round_trip :
    (s : Section) (rest : List ℕ)
    → s.blocks ≡ air
    → IsWfMeta s
    → (s' : Section) × (from_wire (encode_to_wire s ++ rest) ≡ some (s', rest)) × IsReadBack s s'
unfolding encode_to_wire blocks_to_wire sparse_get
air_round_trip s rest e m = (
  blank_section,
  ap (λ b. from_wire ((blocks_to_wire b ++ write_meta_mb_to_wire s) ++ rest)) e
      ∙ air_wire (write_meta_mb_to_wire s) rest
      ∙ skip_meta_mb_lem s rest m,
  (
    λ lj k. ap (λ b. get_block b lj) (sym e),
    λ lj k. sym (if_true (is_air s.blocks) 0 (sparse_get s.meta lj) (ap is_air e)),
    λ lj k. sym (if_true (is_air s.blocks) 0 (sparse_get s.mb lj) (ap is_air e)),
  ),
)

read_back :
    (s : Section) (b : BlockData) (rest : List ℕ)
    → s.blocks ≡ b
    → is_overflow b ≡ false
    → IsWf b
    → All (λ v. v < 65536) (ids_of b)
    → IsWfMeta s
    → (s' : Section) × (from_wire (encode_to_wire s ++ rest) ≡ some (s', rest)) × IsReadBack s s'
unfolding IsWf IsPaletted get_block blocks_to_wire
read_back s air rest e o w ids m = air_round_trip s rest e m
read_back s (overflow blocks) rest e o w ids m = absurd cc
read_back s (bitpack4 f) rest e o w ids m =
    palette_wire s f 4 2048 (bitpack4 f) rest e refl refl ids (omega (arith, w.3 0 (omega arith)))
      (omega (arith, w.2)) (omega arith) (omega arith)
      (bitpack4 (record { palette = f.palette; indices = padded 2048 f.indices }))
      (read_indices-4 f.palette (take_bytes 2048 f.indices ++ (write_meta_mb_to_wire s ++ rest))
          (omega (arith, w.2))
        ∙ read_packed_lem f.palette f.indices (write_meta_mb_to_wire s ++ rest)
            (omega (arith, w.0)))
      (λ lj k. ap (at_index f.palette) (packed_same f lj w k)) m
read_back s (flat f) rest e o w ids m =
    palette_wire s f 8 4096 (flat f) rest e refl refl ids (omega (arith, w.3 0 (omega arith)))
      (omega (arith, w.2)) (omega arith) (omega arith)
      (flat (record { palette = f.palette; indices = padded 4096 f.indices }))
      (read_indices-8 f.palette (take_bytes 4096 f.indices ++ (write_meta_mb_to_wire s ++ rest))
          (omega (arith, w.2))
        ∙ read_flat_lem f.palette f.indices (write_meta_mb_to_wire s ++ rest) (omega (arith, w.0)))
      (λ lj k. ap (at_index f.palette) (flat_same f lj w k)) m

-- A well-formed section that is not an overflow, whose ids fit 16 bits and whose metadata and
-- multiblock ids are well-formed and fit 8 and 32 bits, is written and read back, whatever follows
-- it: each block is the same, and so is each metadata value and multiblock id, except that those
-- of a section of air are read as 0.
pub from_wire-encode_to_wire :
    (s : Section) (rest : List ℕ)
    → IsWf s.blocks
    → is_overflow s.blocks ≡ false
    → All (λ v. v < 65536) (ids_of s.blocks)
    → IsWfMeta s
    → (s' : Section) × (from_wire (encode_to_wire s ++ rest) ≡ some (s', rest)) × IsReadBack s s'
from_wire-encode_to_wire s rest w o ids m = read_back s s.blocks rest refl o w ids m
