-- ===== src/Section.antt =====
-- A section of a chunk, apps/chunk_store/Storage/cache/MutableSection.{h,cpp}: 4096 blocks under a
-- palette. `pal_size` and `indices_bytes` are the lengths of the lists `palette` and `indices`. A read
-- outside an array, which the source does not make on a well-formed section, gives 0.
pub mod Packed
pub mod Palette
pub mod Blocks
pub mod Reads
pub mod Written
pub mod Loaded
pub mod Bytes
pub mod Wire
pub mod Sparse
pub mod WireMeta
pub mod WireIndices
pub mod RoundTrip
pub mod WireSection
pub mod Entries
mod Tests
use gtnh_platform.Base.{
  ℕ, zero, suc, ◌+◌, ◌-◌, ◌*◌, ◌/◌, ◌%◌, ◌^◌, Bool, true, false, not, Option, none, some, List, [],
  ◌∷◌, ◌++◌, ltb, leb, ◌==◌, if◌then◌else◌, length, get_elem?, set, replicate,
}
use gtnh_platform.Base.Ids.{has_id}

abbrev pub sec_vol : ℕ
sec_vol = 4096

abbrev pub or_zero : Option ℕ → ℕ
or_zero none = 0
or_zero (some n) = n

-- `a[i]`
abbrev pub at_index : List ℕ → ℕ → ℕ
at_index a i = or_zero (get_elem? a i)

-- `FlatData`
pub record FlatData : Type 0 where
  pub palette : List ℕ
  pub indices : List ℕ

-- The block representation of `MutableSection` under its `type`.
pub data BlockData : Type 0 where
  air : BlockData
  bitpack4 : FlatData → BlockData
  flat : FlatData → BlockData
  overflow : List ℕ → BlockData

-- The index of a block, of `bpi` bits, in two adjacent bytes.
pub read_bitpacked : List ℕ → ℕ → ℕ → ℕ
read_bitpacked bytes li bpi =
    let shift = li * bpi in
    let byte = shift / 8 in
    let bit = shift % 8 in
    (at_index bytes byte / 2 ^ bit + at_index bytes (byte + 1) * 2 ^ (8 - bit)) % 2 ^ bpi

-- `(b & ~mask) | ((idx << bit) & mask)`, where the mask has `bpi` ones from `bit` on.
abbrev pub masked_write : ℕ → ℕ → ℕ → ℕ → ℕ
masked_write b bit bpi idx = (b - (b / 2 ^ bit) % 2 ^ bpi * 2 ^ bit + idx % 2 ^ bpi * 2 ^ bit) % 256

-- The same for the byte after, whose mask is `mask >> 8`.
abbrev pub masked_rest : ℕ → ℕ → ℕ → ℕ → ℕ
masked_rest b bit bpi idx =
    let ones = 2 ^ (bit + bpi - 8) in (b - b % ones + idx / 2 ^ (8 - bit) % ones) % 256

pub write_bitpacked : List ℕ → ℕ → ℕ → ℕ → List ℕ
write_bitpacked bytes li idx bpi =
    let shift = li * bpi in
    let byte = shift / 8 in
    let bit = shift % 8 in
    let written = set bytes byte (masked_write (at_index bytes byte) bit bpi idx) in
    if ltb 8 (bit + bpi)
    then set written (byte + 1) (masked_rest (at_index written (byte + 1)) bit bpi idx)
    else written

unfoldable pub get_block : BlockData → ℕ → ℕ
unfolding read_bitpacked
get_block air li = 0
get_block (bitpack4 f) li = at_index f.palette (read_bitpacked f.indices li 4)
get_block (flat f) li = at_index f.palette (read_bitpacked f.indices li 8)
get_block (overflow blocks) li = at_index blocks li

-- The first position of an id in a palette.
pub find_id : ℕ → List ℕ → Option ℕ
find_id id [] = none
find_id id (p ∷ ps) =
    let rest = find_id id ps in
    if p == id then some 0 else elim rest [ none ↦ none | some i ↦ some (suc i) ]

-- The loop that collects the ids of the blocks which `unique` does not have, until it has more than
-- 256.
pub collect_unique : List ℕ → List ℕ → List ℕ
unfolding has_id
collect_unique unique [] = unique
collect_unique unique (b ∷ bs) =
    let same = collect_unique unique bs in
    let more = collect_unique (unique ++ (b ∷ [])) bs in
    if has_id b unique
    then same
    else (if ltb 256 (length unique + 1) then unique ++ (b ∷ []) else more)

-- `static_cast<uint8_t>(idx)` for each block, and the byte after the last.
pub flat_indices : List ℕ → List ℕ → List ℕ
unfolding find_id
flat_indices palette [] = 0 ∷ []
flat_indices palette (b ∷ bs) = or_zero (find_id b palette) % 256 ∷ flat_indices palette bs

pub nonzero_ids : List ℕ → List ℕ
nonzero_ids [] = []
nonzero_ids (u ∷ us) = let rest = nonzero_ids us in if u == 0 then rest else u ∷ rest

-- `blocks[li] = getBlock(li)` for `n` blocks from `li` on.
pub blocks_from : BlockData → ℕ → ℕ → List ℕ
unfolding get_block
blocks_from s li zero = []
blocks_from s li (suc n) = get_block s li ∷ blocks_from s (suc li) n

pub promoted : List ℕ → ℕ → BlockData
unfolding collect_unique nonzero_ids flat_indices
promoted blocks new_id =
    let unique = collect_unique (new_id ∷ []) blocks in
    let palette = 0 ∷ nonzero_ids unique in
    if leb (length unique) 256
    then flat (record { palette = palette; indices = flat_indices palette blocks })
    else overflow blocks

pub promote_to_flat_or_overflow : BlockData → ℕ → BlockData
unfolding promoted blocks_from
promote_to_flat_or_overflow s new_id = promoted (blocks_from s 0 sec_vol) new_id

pub check_overflow_demote : List ℕ → BlockData
unfolding collect_unique flat_indices
check_overflow_demote blocks =
    let unique = collect_unique (0 ∷ []) blocks in
    if ltb 256 (length unique)
    then overflow blocks
    else flat (record { palette = unique; indices = flat_indices unique blocks })

-- A write to an allocated palette section of `bpi` bits; `none` when the palette has no place for the
-- id.
pub set_in_palette : FlatData → ℕ → ℕ → ℕ → Option FlatData
unfolding find_id write_bitpacked
set_in_palette f li id bpi = elim (find_id id f.palette) [
  | some i ↦ some (record f { indices = write_bitpacked f.indices li i bpi })
  | none ↦
      if leb (2 ^ bpi) (length f.palette)
      then none
      else some (record {
        palette = f.palette ++ (id ∷ []);
        indices = write_bitpacked f.indices li (length f.palette) bpi;
      })
]

-- A section of air with one block.
pub first_block : ℕ → ℕ → FlatData
unfolding write_bitpacked
first_block li id = record {
  palette = 0 ∷ id ∷ [];
  indices = write_bitpacked (replicate 2049 0) li 1 4;
}

abbrev pub map_flat : (FlatData → BlockData) → Option FlatData → Option BlockData
map_flat c none = none
map_flat c (some f) = some (c f)

-- `setBlock` without its call of itself: `none` when it has to promote first.
pub set_directly : BlockData → ℕ → ℕ → Option BlockData
unfolding first_block set_in_palette check_overflow_demote
set_directly air li id = if id == 0 then some air else some (bitpack4 (first_block li id))
set_directly (bitpack4 f) li id = map_flat bitpack4 (set_in_palette f li id 4)
set_directly (flat f) li id = map_flat flat (set_in_palette f li id 8)
set_directly (overflow blocks) li id =
    let written = set blocks li id in
    if at_index blocks li == id
    then some (overflow written)
    else some (check_overflow_demote written)

-- `setBlock`: `none` means that `fuel` nested calls were not enough.
unfoldable pub set_block : ℕ → BlockData → ℕ → ℕ → Option BlockData
unfolding set_directly
set_block zero s li id = none
set_block (suc fuel) s li id =
    let again = set_block fuel (promote_to_flat_or_overflow s id) li id in
    elim (set_directly s li id) [ some s' ↦ some s' | none ↦ again ]
