-- ===== src/Chunk/Tests.antt =====
-- Tests and examples for chunks.
use gtnh_platform.Base.{ℕ, ◌≡◌, refl, some, [], ◌∷◌, arith, if◌then◌else◌}
use gtnh_platform.Section.Reads.{IsWf}
use gtnh_platform.Section.Written.{HasAir}
use gtnh_platform.Chunk.{
  Chunk, empty_section, get_block_at, set_block_at, section_index, local_index, chunk_from_blocks,
}
use gtnh_platform.Chunk.Positions.{
  IsPosition, IsWfChunk, same_position, set_block_at_lem, get_block_at-chunk_from_blocks,
}

abbrev empty_chunk : Chunk
empty_chunk =
    empty_section ∷ empty_section ∷ empty_section ∷ empty_section ∷ empty_section ∷ empty_section
    ∷ empty_section ∷ empty_section ∷ []

last_index : local_index 31 31 31 ≡ 4095
unfolding local_index
last_index = refl

empty_chunk-IsWf : IsWfChunk empty_chunk
unfolding IsWf
empty_chunk-IsWf = (refl, (tt, (tt, (tt, (tt, (tt, (tt, (tt, (tt, tt)))))))))

air_is_enough : HasAir empty_section.blocks 42
unfolding HasAir
air_is_enough = tt

set_block_at_lem_example :
    (c' : Chunk) × (set_block_at empty_chunk 17 3 5 42 ≡ some c')
    × IsWfChunk c'
    × ((x' y' z' : ℕ)
        → IsPosition x' y' z'
        → get_block_at c' x' y' z'
          ≡ (if same_position 17 3 5 x' y' z' then 42 else get_block_at empty_chunk x' y' z'))
unfolding section_index
set_block_at_lem_example =
    set_block_at_lem empty_chunk 17 3 5 42 empty_chunk-IsWf (omega arith, omega arith, omega arith)
      air_is_enough

get_block_at-chunk_from_blocks_example : get_block_at (chunk_from_blocks (7 ∷ 8 ∷ [])) 1 0 0 ≡ 8
get_block_at-chunk_from_blocks_example =
    get_block_at-chunk_from_blocks (7 ∷ 8 ∷ []) 1 0 0 (omega arith, omega arith, omega arith)
