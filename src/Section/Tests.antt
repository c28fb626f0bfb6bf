-- ===== src/Section/Tests.antt =====
-- Tests and examples for sections.
use gtnh_platform.Base.{ℕ, ◌<◌, ◌≡◌, refl, some, [], ◌∷◌, ◌++◌, arith, All}
use gtnh_platform.Section.{BlockData, bitpack4, set_block, first_block}
use gtnh_platform.Section.Sparse.{Entry, Sparse, entries, sparse_set, put_entry, has_entry}
use gtnh_platform.Section.Entries.{IsSorted, IsWfSparse, IsSparseWrite, sparse_set_lem}
use gtnh_platform.Section.Reads.{IsWf, first_block_lem}
use gtnh_platform.Section.Written.{HasAir, IsWrite, set_block_lem}
use gtnh_platform.Section.Wire.{
  Section, encode_to_wire, from_wire, put_bits, BitSink, put_bit, read_bits,
}
use gtnh_platform.Section.WireMeta.{IsValued}
use gtnh_platform.Section.RoundTrip.{IsReadBack, from_wire-encode_to_wire}

abbrev one_block : BlockData
one_block = bitpack4 (first_block 5 7)

one_block-IsWf : IsWf one_block
unfolding IsWf
one_block-IsWf = (first_block_lem 5 7 (omega arith)).0

one_block-HasAir : HasAir one_block 9
unfolding HasAir
one_block-HasAir = tt

set_block_lem_example :
    (s' : BlockData) × (set_block 2 one_block 6 9 ≡ some s') × IsWrite one_block 6 9 s'
set_block_lem_example = set_block_lem one_block 6 9 0 one_block-IsWf (omega arith) one_block-HasAir

abbrev entry : ℕ → ℕ → Entry
entry li value = record { li = li; value = value }

abbrev two_entries : Sparse
two_entries = entries (entry 3 1 ∷ entry 8 2 ∷ [])

two_entries-IsWf : IsWfSparse two_entries
unfolding IsWfSparse IsSorted
two_entries-IsWf = ((omega arith, omega arith, (omega arith, omega arith, tt)), omega arith)

inserted_in_order : sparse_set two_entries 5 9 ≡ entries (entry 3 1 ∷ entry 5 9 ∷ entry 8 2 ∷ [])
unfolding sparse_set put_entry has_entry
inserted_in_order = refl

sparse_set_lem_example : IsSparseWrite two_entries 5 9 (sparse_set two_entries 5 9)
sparse_set_lem_example = sparse_set_lem two_entries 5 9 two_entries-IsWf (omega arith)

-- bits from the lowest, over the end of a byte
abbrev some_bits : BitSink
some_bits = record { full = []; byte = 0; bit_idx = 6 }

over_the_end : put_bits some_bits 13 4 ≡ record { full = 64 ∷ []; byte = 3; bit_idx = 2 }
unfolding put_bits put_bit
over_the_end = refl

read_over_the_end : read_bits (64 ∷ 3 ∷ []) 6 4 ≡ 13
unfolding read_bits
read_over_the_end = refl

abbrev written_section : Section
written_section = record { blocks = one_block; meta = two_entries; mb = entries [] }

valued : IsValued 256 two_entries
unfolding IsValued
valued = (omega arith, (omega arith, tt))

no_entries : IsWfSparse (entries []) × IsValued 4294967296 (entries [])
unfolding IsWfSparse IsSorted IsValued
no_entries = ((tt, omega arith), tt)

small_ids : All (λ v. v < 65536) (0 ∷ 7 ∷ [])
small_ids = (omega arith, (omega arith, tt))

from_wire-encode_to_wire_example :
    (s' : Section) × (from_wire (encode_to_wire written_section ++ (1 ∷ [])) ≡ some (s', 1 ∷ []))
    × IsReadBack written_section s'
unfolding first_block
from_wire-encode_to_wire_example =
    from_wire-encode_to_wire written_section (1 ∷ []) one_block-IsWf refl small_ids
      (two_entries-IsWf, valued, no_entries.0, no_entries.1)
