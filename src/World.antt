-- ===== src/World.antt =====
-- src/world/world.c: blocks, chunks and what is sent of them, and the numbers of entities.
pub mod Pack
pub mod Unpack
pub mod Chunks
mod Tests
use stronk.Base.{ℕ, ◌+◌, ◌-◌, ◌*◌, ◌/◌, ◌%◌, ◌^◌, Bool, true, false, ◌||◌, leb, ltb}
use stronk.Base.{List, [], ◌∷◌, ◌++◌, map, if◌then◌else◌, bit_or, u64, replicate}
use stronk.Codec.Endian.{htonll}

-- struct block of src/world/block.h, `block_state` being its member `data`, and without the pointer
-- `extra_data`, which nothing sets.
pub record Block : Type 0 where
  pub type_id : ℕ
  pub block_state : ℕ

-- `current_block_data`
unfoldable pub block_data : Block → ℕ
block_data block = bit_or (block.type_id * 2 ^ 4) block.block_state

abbrev is_last : List Block → Bool
is_last [] = true
is_last (block ∷ blocks) = false

-- `bits_used` and `tmp_result` at the end of a turn of the loop, from `bits_used` after the
-- addition, the block's data, the bits so far and whether a word was stored.
unfoldable pub pack_next : ℕ → ℕ → ℕ → Bool → ℕ × ℕ
pack_next used d tmp false = (used, tmp)
pack_next used d tmp true = if ltb 64 used then (used - 64, d / 2 ^ (13 - (used - 64))) else (0, 0)

-- The loop of `encode_chunk_section_blocks`, and the words that it stores. The shift is by
-- `bits_used`, which stays below 64.
pub pack_loop : List Block → ℕ → ℕ → List ℕ
unfolding pack_next block_data
pack_loop [] bits_used tmp_result = []
pack_loop (block ∷ blocks) bits_used tmp_result =
    let tmp = bit_or tmp_result (u64 (block_data block * 2 ^ bits_used)) in
    let used = bits_used + 13 in
    let stored = leb 64 used || is_last blocks in
    let next = pack_next used (block_data block) tmp stored in
    let rest = pack_loop blocks next.0 next.1 in if stored then htonll tmp ∷ rest else rest

unfoldable pub encode_chunk_section_blocks : List Block → List ℕ
unfolding pack_loop
encode_chunk_section_blocks blocks = pack_loop blocks 0 0
