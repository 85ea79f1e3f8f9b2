-- ===== src/World/Tests.antt =====
-- Chunks, keys and entity numbers of src/world/world.c.
use stronk.Base.{ℕ, zero, suc, ◌+◌, ◌-◌, ◌*◌, ◌^◌, ◌≡◌, ◌↔◌, refl, arith, true, some}
use stronk.Base.{◌++◌, map, length, take, replicate, length-replicate, All, All-append, get_elem?}
use stronk.Codec.Endian.{htonll}
use stronk.Packet.Encode.Chunk.{data_size, encode_sections}
use stronk.World.{Block, block_data, encode_chunk_section_blocks}
use stronk.World.Pack.{stream, words_of, Fits13}
use stronk.World.Unpack.{fields13, number_of, fields-encode_chunk_section_blocks}
use stronk.World.Chunks.{
  filled, load_chunk, send_chunk_data, get_chunk_key, nth_entity_id, world_send_chunk_data1,
}
use stronk.World.Chunks.Laws.{
  get_chunk_key_iff, get_chunk_key_collides, nth_entity_id_iff, world_send_chunk_data1_at,
}
use stronk.World.Chunks.Sent.{IsSection, IsChunk, data_size-send_chunk_data}

abbrev block_of : ℕ → Block
block_of type_id = record { type_id = type_id; block_state = 0 }

All-replicate : {A : Type 0} (P : A → Type 0) (n : ℕ) (a : A) → P a → All P (replicate n a)
All-replicate P zero a h = tt
All-replicate P (suc n) a h = (h, All-replicate P n a h)

stone_fits : Fits13 (block_of 1)
unfolding block_data
stone_fits = omega arith

air_fits : Fits13 (block_of 0)
unfolding block_data
air_fits = omega arith

-- 64 blocks of stone fill 13 words.
fields-encode_chunk_section_blocks_example :
    let blocks = replicate 64 (block_of 1) in
    (encode_chunk_section_blocks blocks ≡ map htonll (words_of 13 (stream blocks)))
    × (fields13 (length blocks) (number_of (encode_chunk_section_blocks blocks))
        ≡ map block_data blocks)
fields-encode_chunk_section_blocks_example =
    fields-encode_chunk_section_blocks (replicate 64 (block_of 1)) 13
      (All-replicate Fits13 64 (block_of 1) stone_fits)
      (omega (arith, length-replicate 64 (block_of 1)))

filled-IsSection : (type_id : ℕ) → Fits13 (block_of type_id) → IsSection (filled type_id)
unfolding filled
filled-IsSection type_id h =
    (length-replicate 4096 (block_of type_id), All-replicate Fits13 4096 (block_of type_id) h)

load_chunk-IsChunk : IsChunk load_chunk
unfolding load_chunk
load_chunk-IsChunk =
    let stone = filled-IsSection 1 stone_fits in
    let air = filled-IsSection 0 air_fits in
    (
      refl,
      All-append IsSection (replicate 8 (filled 1)) (replicate 8 (filled 0))
          (All-replicate IsSection 8 (filled 1) stone) (All-replicate IsSection 8 (filled 0) air),
      length-replicate {A = ℕ} 256 0,
    )

data_size-send_chunk_data_example :
    data_size (send_chunk_data load_chunk 0 0 true)
    ≡ length (
        encode_sections (send_chunk_data load_chunk 0 0 true).chunk_sections
        ++ take 256 load_chunk.biomes)
data_size-send_chunk_data_example = data_size-send_chunk_data load_chunk 0 0 true load_chunk-IsChunk

abbrev here : ℕ
here = 3

abbrev there : ℕ
there = 5

get_chunk_key_iff_example :
    (get_chunk_key here 4 ≡ get_chunk_key there 4) ↔ (here ≡ there) × ◌≡◌ {A = ℕ} 4 4
get_chunk_key_iff_example =
    get_chunk_key_iff here 4 there 4 (omega arith) (omega arith) (omega arith) (omega arith)

get_chunk_key_collides_example : get_chunk_key 3 (2 ^ 64 - 1) ≡ 2 ^ 64 - 1
get_chunk_key_collides_example = get_chunk_key_collides 3 (2 ^ 64 - 1) (omega arith) (omega arith)

nth_entity_id_iff_example : (nth_entity_id here ≡ nth_entity_id there) ↔ (here ≡ there)
nth_entity_id_iff_example = nth_entity_id_iff here there (omega arith) (omega arith)

world_send_chunk_data1_at_example :
    get_elem? (world_send_chunk_data1 0 5) (21 * 10 + 10) ≡ some (0, 5)
world_send_chunk_data1_at_example = world_send_chunk_data1_at 0 5 10 10 (omega arith) (omega arith)
