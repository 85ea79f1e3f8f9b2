-- ===== src/World/Chunks/Sent.antt =====
-- The chunk data packets of src/world/world.c as src/mcpr/packet.c encodes them.
use stronk.Base.{ℕ, zero, suc, ◌*◌, ◌/◌, ◌^◌, ◌≤◌, ◌≡◌, refl, ap, ◌∙◌, arith, Bool, true, false}
use stronk.Base.{List, [], ◌∷◌, ◌++◌, length, length-append, map, All, take, length-take}
use stronk.Base.{ok}
use stronk.Codec.Endian.{htonll, bytes_of, length-bytes_of}
use stronk.Codec.Varint.Encode.{varint_bounds-length, length-encode_varint}
use stronk.Packet.Encode.Chunk.{
  data_size, encode_sections, section_size, sections_size, encode_chunk_data,
}
use stronk.Packet.Encode.Chunk.Sizes.{HasArrays, slack, data_size_lem, sections_lem}
use stronk.Packet.Encode.Bounds.{chunk_bounds}
use stronk.Packet.Encode.Bounds.Chunk.{length-encode_chunk_data}
use stronk.World.{Block, encode_chunk_section_blocks}
use stronk.World.Pack.{stream, words_of, Fits13}
use stronk.World.Unpack.{fields-encode_chunk_section_blocks}
use stronk.World.Chunks.{Chunk, array_bytes, send_section, send_chunk_data}

-- 4096 blocks, the data of each in 13 bits.
abbrev pub IsSection : List Block → Type 0
IsSection blocks = (length blocks ≡ 4096) × All Fits13 blocks

-- Sixteen such sections, and the biomes.
abbrev pub IsChunk : Chunk → Type 0
IsChunk chunk =
    (length chunk.sections ≡ 16) × All IsSection chunk.sections × (length chunk.biomes ≡ 256)

length-array_bytes : (ws : List ℕ) → length (array_bytes ws) ≡ 8 * length ws
unfolding array_bytes
length-array_bytes [] = refl
length-array_bytes (w ∷ ws) = omega (
  arith,
  length-append (bytes_of 8 w) (array_bytes ws),
  length-bytes_of 8 w,
  length-array_bytes ws,
)

length-words : (k n : ℕ) → length (map htonll (words_of k n)) ≡ k
unfolding words_of
length-words zero n = refl
length-words (suc k) n = ap suc (length-words k (n / 2 ^ 64))

length-packed :
    (blocks : List Block) → IsSection blocks → length (encode_chunk_section_blocks blocks) ≡ 832
length-packed blocks h =
    let packed = (fields-encode_chunk_section_blocks blocks 832 h.1 (omega (arith, h.0))).0 in
    ap length packed ∙ length-words 832 (stream blocks)

section_arrays :
    (sky : Bool) (blocks : List Block) → IsSection blocks → HasArrays (send_section sky blocks)
unfolding send_section
section_arrays true blocks h =
    let enough : 6656 ≤ length (array_bytes (encode_chunk_section_blocks blocks)) =
      omega
        (arith, length-array_bytes (encode_chunk_section_blocks blocks), length-packed blocks h) in
    (enough, omega arith, omega arith, omega arith, omega arith)
section_arrays false blocks h =
    let enough : 6656 ≤ length (array_bytes (encode_chunk_section_blocks blocks)) =
      omega
        (arith, length-array_bytes (encode_chunk_section_blocks blocks), length-packed blocks h) in
    (enough, omega arith, tt, omega arith, omega arith)

All-arrays :
    (sky : Bool) (sections : List (List Block))
    → All IsSection sections
    → All HasArrays (map (send_section sky) sections)
All-arrays sky [] h = tt
All-arrays sky (blocks ∷ sections) h = (section_arrays sky blocks h.0, All-arrays sky sections h.1)

no_slack : (sky : Bool) (sections : List (List Block)) → slack (map (send_section sky) sections) ≡ 0
unfolding slack send_section
no_slack sky [] = refl
no_slack sky (blocks ∷ sections) = omega (arith, no_slack sky sections)

section_small : (sky : Bool) (blocks : List Block) → section_size (send_section sky blocks) ≤ 10763
unfolding section_size send_section
section_small true blocks = omega (
  arith,
  varint_bounds-length 0 (omega arith),
  varint_bounds-length 832 (omega arith),
  length-encode_varint 0,
  length-encode_varint 832,
)
section_small false blocks = omega (
  arith,
  varint_bounds-length 0 (omega arith),
  varint_bounds-length 832 (omega arith),
  length-encode_varint 0,
  length-encode_varint 832,
)

sections_small :
    (sky : Bool) (sections : List (List Block))
    → sections_size (map (send_section sky) sections) ≤ 10763 * length sections
unfolding sections_size
sections_small sky [] = omega arith
sections_small sky (blocks ∷ sections) =
    omega (arith, section_small sky blocks, sections_small sky sections)

total_small :
    (chunk : Chunk) (sky : Bool)
    → IsChunk chunk
    → sections_size (map (send_section sky) chunk.sections) ≤ 172208
total_small chunk sky h = omega (arith, sections_small sky chunk.sections, h.0)

-- The size that the packet of a chunk announces is that of its sections and biomes, exactly, with
-- or without sky light.
pub data_size-send_chunk_data :
    (chunk : Chunk) (x z : ℕ) (sky : Bool)
    → IsChunk chunk
    → data_size (send_chunk_data chunk x z sky)
      ≡ length
          (encode_sections (send_chunk_data chunk x z sky).chunk_sections ++ take 256 chunk.biomes)
unfolding send_chunk_data
data_size-send_chunk_data chunk x z sky h = omega (
  arith,
  data_size_lem (send_chunk_data chunk x z sky) (All-arrays sky chunk.sections h.1)
      (omega (arith, h.2)),
  no_slack sky chunk.sections,
  sections_lem (map (send_section sky) chunk.sections) (All-arrays sky chunk.sections h.1),
  total_small chunk sky h,
  length-append (encode_sections (map (send_section sky) chunk.sections)) (take 256 chunk.biomes),
  length-take 256 chunk.biomes,
)

-- The packet of a chunk fits in the buffer that is allocated for it.
pub length-encode-send_chunk_data :
    (chunk : Chunk) (x z : ℕ) (sky : Bool) (out : List ℕ) (n : ℕ)
    → IsChunk chunk
    → encode_chunk_data (send_chunk_data chunk x z sky) ≡ ok (out, n)
    → length out ≤ chunk_bounds (send_chunk_data chunk x z sky)
unfolding send_chunk_data
length-encode-send_chunk_data chunk x z sky out n h e =
    (length-encode_chunk_data (send_chunk_data chunk x z sky) out n
      (All-arrays sky chunk.sections h.1) (omega (arith, total_small chunk sky h)) e).2
