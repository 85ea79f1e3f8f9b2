-- ===== src/World/Chunks.antt =====
-- src/world/world.c: chunks, their keys, the packet that carries one, and entity numbers.
-- A `long` is its bit pattern below 2 ^ 64.
pub mod Laws
pub mod Sent
use stronk.Base.{ℕ, zero, suc, ◌+◌, ◌-◌, ◌*◌, ◌%◌, ◌^◌, Bool, true, false, Option, none, some}
use stronk.Base.{List, [], ◌∷◌, ◌++◌, map, if◌then◌else◌, bit_or, u32, u64, replicate}
use stronk.Codec.Endian.{bytes_of}
use stronk.Packet.Types.{Dimension}
use stronk.Packet.Outgoing.{ChunkSection, ChunkData}
use stronk.World.{Block, encode_chunk_section_blocks}

-- BLOCKS_PER_CHUNK_SECTION
abbrev pub blocks_per_chunk_section : ℕ
blocks_per_chunk_section = 4096

-- struct chunk, of sixteen sections; the locks of the sections are not used by the code.
pub record Chunk : Type 0 where
  pub last_update : ℕ
  pub sections : List (List Block)
  pub biomes : List ℕ

-- `get_chunk_key`: the conversion of a `long` to unsigned long long keeps its bits.
unfoldable pub get_chunk_key : ℕ → ℕ → ℕ
get_chunk_key x z = bit_or (u64 (x * 2 ^ 32)) z

-- A section that the loops of `load_chunk` fill with one type of block.
unfoldable pub filled : ℕ → List Block
filled type_id = replicate blocks_per_chunk_section (record { type_id = type_id; block_state = 0 })

-- The chunk that `load_chunk` makes: eight sections of stone below eight of air.
unfoldable pub load_chunk : Chunk
unfolding filled
load_chunk = record {
  last_update = 0;
  sections = replicate 8 (filled 1) ++ replicate 8 (filled 0);
  biomes = replicate 256 0;
}

-- The bytes of an array of uint64_t in memory.
unfoldable pub array_bytes : List ℕ → List ℕ
array_bytes [] = []
array_bytes (w ∷ ws) = bytes_of 8 w ++ array_bytes ws

-- One turn of the loop of `send_chunk_data`.
unfoldable pub send_section : Bool → List Block → ChunkSection
unfolding array_bytes
send_section send_sky_light section = record {
  bits_per_block = 13;
  palette = [];
  block_array_length = 832;
  blocks = array_bytes (encode_chunk_section_blocks section);
  block_light = replicate 2048 0;
  sky_light = if send_sky_light then some (replicate 2048 0xFF) else none;
}

-- The packet that `send_chunk_data` writes; its coordinates are cast to int32_t.
unfoldable pub send_chunk_data : Chunk → ℕ → ℕ → Bool → ChunkData
unfolding send_section
send_chunk_data chunk x z send_sky_light = record {
  chunk_x = u32 x;
  chunk_z = u32 z;
  ground_up_continuous = true;
  primary_bit_mask = 0xFFFF;
  chunk_sections = map (send_section send_sky_light) chunk.sections;
  biomes = chunk.biomes;
  block_entity_count = 0;
  raw_block_entities = none;
}

-- `default_world->dimension == MCPR_DIMENSION_OVERWORLD`
unfoldable pub sends_sky_light : Dimension → Bool
sends_sky_light Dimension.overworld = true
sends_sky_light _ = false

-- The inner and the outer loop of `world_send_chunk_data1`, with `left` turns to go.
unfoldable pub row_loop : ℕ → ℕ → ℕ → List (ℕ × ℕ)
row_loop zero x z = []
row_loop (suc left) x z = (u64 x, u64 z) ∷ row_loop left x (z + 1)

unfoldable pub view_loop : ℕ → ℕ → ℕ → List (ℕ × ℕ)
unfolding row_loop
view_loop zero x z = []
view_loop (suc left) x z = row_loop 21 x z ++ view_loop left (x + 1) z

-- The coordinates of the chunks sent to a player whose own chunk is at `base_x`, `base_z`: ten
-- chunks each way.
unfoldable pub world_send_chunk_data1 : ℕ → ℕ → List (ℕ × ℕ)
unfolding view_loop
world_send_chunk_data1 base_x base_z =
    view_loop 21 (base_x + (2 ^ 64 - 10)) (base_z + (2 ^ 64 - 10))

-- The counter starts at INT32_MIN.
abbrev pub entity_id_start : ℕ
entity_id_start = 2 ^ 31

-- `++entity_id_counter` under its lock: the new counter, which is also the id.
unfoldable pub generate_new_entity_id : ℕ → ℕ
generate_new_entity_id entity_id_counter = u32 (entity_id_counter + 1)

-- The id that call number `n` gives, the first being call 0.
unfoldable pub nth_entity_id : ℕ → ℕ
unfolding generate_new_entity_id
nth_entity_id zero = generate_new_entity_id entity_id_start
nth_entity_id (suc n) = generate_new_entity_id (nth_entity_id n)
