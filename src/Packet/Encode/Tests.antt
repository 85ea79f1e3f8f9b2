-- ===== src/Packet/Encode/Tests.antt =====
-- mcpr_encode_packet and mcpr_encode_packet_bounds of src/mcpr/packet.c on concrete packets.
use stronk.Base.{
  ℕ, ◌+◌, ◌^◌, ◌≤◌, ◌<◌, ◌≡◌, refl, arith, List, [], ◌∷◌, ◌++◌, length, take, replicate, ok,
}
use stronk.Base.{length-replicate, true, false, none}
use stronk.Codec.Varint.{encode_varint}
use stronk.Codec.Varint.Encode.{length-encode_varint, varint_bounds-length}
use stronk.Codec.Fixed.{encode_long, encode_byte, encode_int, encode_bool}
use stronk.Packet.Types.{State, ChatPosition}
use stronk.Packet.Outgoing.{Outgoing, ChunkSection, ChunkData}
use stronk.Packet.Ids.{packet_type_to_byte}
use stronk.Packet.Encode.{encode_id, encode_pong}
use stronk.Packet.Encode.Play.{position_byte}
use stronk.Packet.Encode.Main.{encode_case, encode_packet}
use stronk.Packet.Encode.Bounds.{encode_packet_bounds, bounds_case, chunk_bounds}
use stronk.Packet.Encode.Bounds.Enough.{length-encode_packet, chat_message_overflows}
use stronk.Packet.Encode.Chunk.{
  positive, chunk_reads, all_arrays_hold, encode_chunk_data, encode_sections, data_size,
  sections_size, section_size,
}
use stronk.Packet.Encode.Chunk.Sizes.{HasArrays}
use stronk.Packet.Encode.Bounds.Chunk.{length-encode_chunk_data}

abbrev pong_7 : List ℕ
pong_7 = encode_varint 1 ++ encode_long 7

pong_encoded : encode_packet State.status (Outgoing.pong 7) ≡ ok (pong_7, length pong_7)
unfolding encode_packet encode_case encode_pong encode_id packet_type_to_byte
pong_encoded = refl

pong_bounds : encode_packet_bounds State.status (Outgoing.pong 7) ≡ ok 13
unfolding encode_packet_bounds bounds_case
pong_bounds = refl

length-encode_packet_example : length pong_7 ≤ 13
length-encode_packet_example =
    length-encode_packet State.status (Outgoing.pong 7) pong_7 (length pong_7) 13 tt pong_encoded
      pong_bounds

abbrev empty_json : List ℕ
empty_json = b'{' ∷ b'"' ∷ b'a' ∷ b'"' ∷ b':' ∷ b'1' ∷ b'}' ∷ []

chat_message_overflows_example :
    let out = (encode_varint 7 ++ empty_json) ++ encode_byte (position_byte ChatPosition.chat) in
    (encode_packet State.play (Outgoing.chat_message empty_json ChatPosition.chat)
      ≡ ok (out, length out))
    × (encode_packet_bounds State.play (Outgoing.chat_message empty_json ChatPosition.chat) ≡ ok 1)
    × (9 ≤ length out)
chat_message_overflows_example =
    chat_message_overflows empty_json ChatPosition.chat (omega arith) (omega arith)

abbrev a_section : ChunkSection
a_section = record {
  bits_per_block = 13;
  palette = 7 ∷ [];
  block_array_length = 1;
  blocks = replicate 8 0;
  block_light = replicate 2048 0;
  sky_light = none;
}

abbrev a_chunk : ChunkData
a_chunk = record {
  chunk_x = 0;
  chunk_z = 0;
  ground_up_continuous = true;
  primary_bit_mask = 1;
  chunk_sections = a_section ∷ [];
  biomes = replicate 256 0;
  block_entity_count = 0;
  raw_block_entities = none;
}

a_section-HasArrays : HasArrays a_section
a_section-HasArrays =
    (omega arith, omega (arith, length-replicate {A = ℕ} 2048 0), tt, omega arith, omega arith)

a_chunk_small : 256 + sections_size (a_section ∷ []) < 2 ^ 28
unfolding sections_size section_size
a_chunk_small = omega (arith, varint_bounds-length 1 (omega arith), length-encode_varint 1)

abbrev chunk_bytes : List ℕ
chunk_bytes =
    encode_varint 0x20
    ++ (encode_int 0
        ++ (encode_int 0
            ++ (encode_bool true
                ++ (encode_varint 1
                    ++ (encode_varint (data_size a_chunk)
                        ++ (encode_sections (a_section ∷ [])
                            ++ (take 256 (replicate 256 0) ++ encode_varint 0)))))))

chunk_encoded : encode_chunk_data a_chunk ≡ ok (chunk_bytes, length chunk_bytes)
unfolding encode_chunk_data chunk_reads all_arrays_hold encode_id packet_type_to_byte
chunk_encoded = refl

length-encode_chunk_data_example :
    (a_chunk.raw_block_entities ≡ none)
    × (positive a_chunk.block_entity_count ≡ false)
    × (length chunk_bytes ≤ chunk_bounds a_chunk)
length-encode_chunk_data_example =
    length-encode_chunk_data a_chunk chunk_bytes (length chunk_bytes) (a_section-HasArrays, tt)
      a_chunk_small chunk_encoded
