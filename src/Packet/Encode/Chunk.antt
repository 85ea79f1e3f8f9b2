-- ===== src/Packet/Encode/Chunk.antt =====
-- The chunk data packet of mcpr_encode_packet in src/mcpr/packet.c.
pub mod Sizes
use stronk.Base.{ℕ, ◌+◌, ◌*◌, ◌%◌, ◌^◌, Bool, true, false, List, [], ◌∷◌, ◌++◌, length, take}
use stronk.Base.{if◌then◌else◌, Option, none, some, Outcome, ok, err, fault, ◌>>=◌, ◌==◌, ltb, u32}
use stronk.Base.{leb, not, ◌&&◌, ◌>>◌, over_read, use_after_free, null_read}
use stronk.Codec.Varint.{encode_varint, varint_bounds}
use stronk.Codec.Fixed.{encode_bool, encode_ubyte, encode_int}
use stronk.Packet.Types.{PacketType}
use stronk.Packet.Outgoing.{ChunkSection, ChunkData}
use stronk.Packet.Encode.{Encoded, all_of, encode_id}

-- The sky light, which may be NULL.
abbrev pub sky_size : Option (List ℕ) → ℕ
sky_size none = 0
sky_size (some sky) = 2048

abbrev pub sky_bytes : Option (List ℕ) → List ℕ
sky_bytes none = []
sky_bytes (some sky) = take 2048 sky

-- What one section adds to `data_size`.
unfoldable pub section_size : ChunkSection → ℕ
section_size section =
    1
    + (varint_bounds (length section.palette)
        + (length section.palette * 5
            + (varint_bounds section.block_array_length
                + (section.block_array_length * 8 + (2048 + sky_size section.sky_light)))))

unfoldable pub sections_size : List ChunkSection → ℕ
sections_size [] = 0
sections_size (section ∷ sections) = section_size section + sections_size sections

-- `data_size`, an int32_t that wraps.
unfoldable pub data_size : ChunkData → ℕ
unfolding sections_size section_size
data_size p = u32 ((if p.ground_up_continuous then 256 else 0) + sections_size p.chunk_sections)

pub encode_palette : List ℕ → List ℕ
encode_palette [] = []
encode_palette (entry ∷ palette) = encode_varint entry ++ encode_palette palette

-- The reads of the arrays are tested in `chunk_reads`.
unfoldable pub encode_section : ChunkSection → List ℕ
unfolding encode_palette
encode_section section =
    encode_ubyte section.bits_per_block
    ++ (encode_varint (length section.palette)
        ++ (encode_palette section.palette
            ++ (encode_varint section.block_array_length
                ++ (take (section.block_array_length * 8) section.blocks
                    ++ (take 2048 section.block_light ++ sky_bytes section.sky_light)))))

pub encode_sections : List ChunkSection → List ℕ
encode_sections [] = []
encode_sections (section ∷ sections) = encode_section section ++ encode_sections sections

-- `block_entity_count > 0` on an int32_t.
abbrev pub positive : ℕ → Bool
positive w = if w == 0 then false else ltb w (2 ^ 31)

-- A section has the bytes that are copied from its arrays.
abbrev pub sky_holds : Option (List ℕ) → Bool
sky_holds none = true
sky_holds (some sky) = leb 2048 (length sky)

abbrev pub arrays_hold : ChunkSection → Bool
arrays_hold section =
    leb (section.block_array_length * 8) (length section.blocks)
    && (leb 2048 (length section.block_light) && sky_holds section.sky_light)

unfoldable pub all_arrays_hold : List ChunkSection → Bool
all_arrays_hold [] = true
all_arrays_hold (section ∷ sections) = arrays_hold section && all_arrays_hold sections

-- Where there are block entities, `raw_block_entities` points to a variable of a block that has
-- ended, and is read, by the copy or by `buffer_free`; where there are none it is NULL, and is read
-- if the count is positive.
abbrev pub block_entities : Option (List ℕ) → ℕ → Outcome (Unit {0})
block_entities (some raw) count = fault use_after_free
block_entities none count = if positive count then fault null_read else ok tt

-- The reads of the packet's arrays.
unfoldable pub chunk_reads : ChunkData → Outcome (Unit {0})
unfolding all_arrays_hold
chunk_reads p =
    if not (all_arrays_hold p.chunk_sections)
    then fault over_read
    else if p.ground_up_continuous && not (leb 256 (length p.biomes))
    then fault over_read
    else block_entities p.raw_block_entities p.block_entity_count

-- Where the reads are not faults, no block entities follow their count.
unfoldable pub encode_chunk_data : ChunkData → Outcome Encoded
unfolding encode_sections encode_section data_size chunk_reads
encode_chunk_data p = do
  id ← encode_id PacketType.pl_cb_chunk_data
  chunk_reads p
  all_of (
      id
      ++ (encode_int p.chunk_x
          ++ (encode_int p.chunk_z
              ++ (encode_bool p.ground_up_continuous
                  ++ (encode_varint p.primary_bit_mask
                      ++ (encode_varint (data_size p)
                          ++ (encode_sections p.chunk_sections
                              ++ ((if p.ground_up_continuous then take 256 p.biomes else [])
                                  ++ encode_varint p.block_entity_count))))))))
