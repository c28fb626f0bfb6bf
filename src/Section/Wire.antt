-- ===== src/Section/Wire.antt =====
-- The wire format of a section: `encodeToWire`, `writeMetaMbToWire` and `fromWire`.
use gtnh_platform.Base.{
  ℕ, zero, suc, ◌+◌, ◌-◌, ◌*◌, ◌/◌, ◌%◌, ◌^◌, ◌&&◌, Option, none, some, List, [], ◌∷◌, ◌++◌, ◌==◌,
  ltb, leb, if◌then◌else◌, length, replicate,
}
use gtnh_platform.Base.Ids.{has_id}
use gtnh_platform.Section.{
  sec_vol, or_zero, at_index, FlatData, BlockData, air, bitpack4, flat, overflow, find_id,
}
use gtnh_platform.Section.Bytes.{
  ◌>>=◌, write_u8, write_u16, write_u32, write_u16s, read_u8, read_u16, read_u32, read_u16s,
  read_bytes,
}
use gtnh_platform.Section.Sparse.{Entry, Sparse, entries, dense, sparse_set}

-- `MutableSection`
pub record Section : Type 0 where
  pub blocks : BlockData
  pub meta : Sparse
  pub mb : Sparse

-- The entries of an array whose value is not 0, from position `li` on.
unfoldable pub dense_entries : List ℕ → ℕ → List Entry
dense_entries [] li = []
dense_entries (v ∷ vs) li =
    let rest = dense_entries vs (suc li) in
    if v == 0 then rest else record { li = li; value = v } ∷ rest

unfoldable pub wire_entries : Sparse → List Entry
unfolding dense_entries
wire_entries (entries es) = es
wire_entries (dense values) = dense_entries values 0

-- The loops over the entries, whose values are 8-bit for the metadata and 32-bit for the multiblocks.
unfoldable pub write_entries : (ℕ → List ℕ) → List Entry → List ℕ
unfolding write_u16
write_entries write_value [] = []
write_entries write_value (e ∷ es) =
    (write_u16 e.li ++ write_value e.value) ++ write_entries write_value es

-- The number of entries, and the entries.
unfoldable pub write_sparse : (ℕ → List ℕ) → Sparse → List ℕ
unfolding wire_entries write_entries write_u16
write_sparse write_value s =
    write_u16 (length (wire_entries s)) ++ write_entries write_value (wire_entries s)

-- `writeMetaMbToWire`
unfoldable pub write_meta_mb_to_wire : Section → List ℕ
unfolding write_sparse write_u8 write_u32
write_meta_mb_to_wire s = write_sparse write_u8 s.meta ++ write_sparse write_u32 s.mb

-- All ids of an overflow, without a bound.
pub all_ids : List ℕ → List ℕ → List ℕ
unfolding has_id
all_ids pal [] = pal
all_ids pal (b ∷ bs) =
    let same = all_ids pal bs in
    let more = all_ids (pal ++ (b ∷ [])) bs in if has_id b pal then same else more

-- How often `tmp` is halved until it is 0; 32 steps are enough for a `uint32_t`.
pub bit_width : ℕ → ℕ → ℕ
bit_width zero tmp = 0
bit_width (suc fuel) tmp = let rest = bit_width fuel (tmp / 2) in if tmp == 0 then 0 else suc rest

-- The full bytes so far, and the bits of the next one.
pub record BitSink : Type 0 where
  pub full : List ℕ
  pub byte : ℕ
  pub bit_idx : ℕ

unfoldable pub put_bit : BitSink → ℕ → BitSink
put_bit s bit =
    let byte = s.byte + bit * 2 ^ s.bit_idx in
    if s.bit_idx + 1 == 8
    then record { full = s.full ++ (byte ∷ []); byte = 0; bit_idx = 0 }
    else record s { byte = byte; bit_idx = s.bit_idx + 1 }

-- The loop over the bits of an index, the lowest first.
unfoldable pub put_bits : BitSink → ℕ → ℕ → BitSink
unfolding put_bit
put_bits s idx zero = s
put_bits s idx (suc bpi) = put_bits (put_bit s (idx % 2)) (idx / 2) bpi

pub put_blocks : BitSink → List ℕ → List ℕ → ℕ → BitSink
unfolding put_bits find_id
put_blocks s pal [] bpi = s
put_blocks s pal (b ∷ bs) bpi = put_blocks (put_bits s (or_zero (find_id b pal)) bpi) pal bs bpi

pub sink_bytes : BitSink → List ℕ
sink_bytes s = if s.bit_idx == 0 then s.full else s.full ++ (s.byte ∷ [])

-- The bits of an overflow; a palette of air alone has none.
pub overflow_to_wire : List ℕ → List ℕ
unfolding all_ids bit_width put_blocks sink_bytes write_u16 write_u16s write_u8
overflow_to_wire blocks =
    let pal = all_ids (0 ∷ []) blocks in
    let bpi = bit_width 32 (length pal - 1) in
    (write_u16 (length pal) ++ write_u16s pal)
    ++ (write_u8 bpi
        ++ sink_bytes (put_blocks (record { full = []; byte = 0; bit_idx = 0 }) pal blocks bpi))

-- The first `n` bytes of an array.
abbrev pub take_bytes : ℕ → List ℕ → List ℕ
take_bytes zero bs = []
take_bytes (suc n) [] = []
take_bytes (suc n) (b ∷ bs) = b ∷ take_bytes n bs

-- The palette, the bits of an index, and `wire_bytes` bytes of indices.
unfoldable pub flat_to_wire : FlatData → ℕ → ℕ → List ℕ
unfolding write_u16 write_u16s write_u8
flat_to_wire f bpi wire_bytes =
    (write_u16 (length f.palette) ++ write_u16s f.palette)
    ++ (write_u8 bpi ++ take_bytes wire_bytes f.indices)

unfoldable pub blocks_to_wire : BlockData → List ℕ
unfolding flat_to_wire overflow_to_wire write_u16 write_u8
blocks_to_wire air = (write_u16 1 ++ write_u16 0) ++ write_u8 0
blocks_to_wire (bitpack4 f) = flat_to_wire f 4 2048
blocks_to_wire (flat f) = flat_to_wire f 8 sec_vol
blocks_to_wire (overflow blocks) = overflow_to_wire blocks

-- `encodeToWire`: the bytes that it appends.
unfoldable pub encode_to_wire : Section → List ℕ
unfolding blocks_to_wire write_meta_mb_to_wire
encode_to_wire s = blocks_to_wire s.blocks ++ write_meta_mb_to_wire s

-- `BitReader::read`. The source shifts `1u` by the number of the bit, which is out of range from 32 bits
-- on; here the value is the plain sum.
unfoldable pub read_bits : List ℕ → ℕ → ℕ → ℕ
read_bits bytes bit_pos zero = 0
read_bits bytes bit_pos (suc bits) =
    (at_index bytes (bit_pos / 8) / 2 ^ (bit_pos % 8)) % 2 + 2 * read_bits bytes (suc bit_pos) bits

-- The loop that reads `n` blocks of an overflow.
pub read_blocks : List ℕ → List ℕ → ℕ → ℕ → ℕ → Option (List ℕ)
unfolding read_bits
read_blocks bytes palette bpi bit_pos zero = some []
read_blocks bytes palette bpi bit_pos (suc n) =
    let idx = read_bits bytes bit_pos bpi in
    let rest = read_blocks bytes palette bpi (bit_pos + bpi) n in
    if leb (length palette) idx
    then none
    else elim rest [ none ↦ none | some bs ↦ some (at_index palette idx ∷ bs) ]

-- The loops that read entries, and keep those of the section.
unfoldable pub read_entries :
    (List ℕ → Option (ℕ × List ℕ)) → ℕ → List ℕ → Option (List Entry × List ℕ)
unfolding read_u16
read_entries read_value zero rest = some ([], rest)
read_entries read_value (suc n) rest = do
  (li, rest) ← read_u16 rest
  (value, rest) ← read_value rest
  (es, rest) ← read_entries read_value n rest
  some (if ltb li sec_vol then record { li = li; value = value } ∷ es else es, rest)

-- The loop that sets the entries.
unfoldable pub set_entries : Sparse → List Entry → Sparse
unfolding sparse_set
set_entries s [] = s
set_entries s (e ∷ es) = set_entries (sparse_set s e.li e.value) es

-- The three ways to read the indices: 4 bits, 8 bits, and any other number.
unfoldable pub read_packed : List ℕ → List ℕ → Option (BlockData × List ℕ)
unfolding read_bytes
read_packed palette rest = do
  (bytes, rest) ← read_bytes 2048 rest
  some (bitpack4 (record { palette = palette; indices = bytes ++ (0 ∷ []) }), rest)

unfoldable pub read_flat : List ℕ → List ℕ → Option (BlockData × List ℕ)
unfolding read_bytes
read_flat palette rest = do
  (bytes, rest) ← read_bytes sec_vol rest
  some (flat (record { palette = palette; indices = bytes ++ (0 ∷ []) }), rest)

pub read_overflow : List ℕ → ℕ → List ℕ → Option (BlockData × List ℕ)
unfolding read_bytes read_blocks
read_overflow palette bpi rest = do
  (bytes, rest) ← read_bytes ((sec_vol * bpi + 7) / 8) rest
  blocks ← read_blocks bytes palette bpi 0 sec_vol
  some (overflow blocks, rest)

-- The part of `fromWire` that reads the indices, after the palette and the number of bits.
unfoldable pub read_indices : List ℕ → ℕ → List ℕ → Option (BlockData × List ℕ)
unfolding read_packed read_flat read_overflow
read_indices palette bpi rest =
    let uniform = bitpack4 (record { palette = palette; indices = replicate 2049 0 }) in
    if leb (length palette) 16 && (bpi == 4)
    then read_packed palette rest
    else (if leb (length palette) 256 && (bpi == 8)
        then read_flat palette rest
        else (if bpi == 0 then some (uniform, rest) else read_overflow palette bpi rest))

-- The metadata of a section of air is skipped.
unfoldable pub skip_meta_mb : List ℕ → Option (Section × List ℕ)
unfolding read_u16 read_bytes
skip_meta_mb rest = do
  (mc, rest) ← read_u16 rest
  (skipped, rest) ← read_bytes (mc * 3) rest
  (mbc, rest) ← read_u16 rest
  (skipped, rest) ← read_bytes (mbc * 6) rest
  some (record { blocks = air; meta = entries []; mb = entries [] }, rest)

unfoldable pub read_meta_mb : BlockData → List ℕ → Option (Section × List ℕ)
unfolding read_u16 read_u8 read_u32 read_entries set_entries
read_meta_mb blocks rest = do
  (mc, rest) ← read_u16 rest
  (metas, rest) ← read_entries read_u8 mc rest
  (mbc, rest) ← read_u16 rest
  (mbs, rest) ← read_entries read_u32 mbc rest
  some (
    record {
      blocks = blocks;
      meta = set_entries (entries []) metas;
      mb = set_entries (entries []) mbs;
    },
    rest,
  )

-- What `fromWire` does after the size of the palette.
unfoldable pub read_section : ℕ → List ℕ → Option (Section × List ℕ)
unfolding read_u8 read_u16s read_indices skip_meta_mb read_meta_mb
read_section psz rest = do
  (palette, rest) ← read_u16s psz rest
  (bpi, rest) ← read_u8 rest
  (if (psz == 1) && (at_index palette 0 == 0) && (bpi == 0)
      then skip_meta_mb rest
      else (read_indices palette bpi rest >>= λ (blocks, rest). read_meta_mb blocks rest))

-- `fromWire`: the section and the bytes left, or `none` where it returns false.
unfoldable pub from_wire : List ℕ → Option (Section × List ℕ)
unfolding read_u16 read_section
from_wire bytes = do
  (psz, rest) ← read_u16 bytes
  (if psz == 0 then none else read_section psz rest)
