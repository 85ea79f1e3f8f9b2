-- ===== src/Packet/Encode/Chunk/Sizes.antt =====
-- The size that the chunk data packet of src/mcpr/packet.c announces, and the one that it has.
use stronk.Base.{ℕ, ◌+◌, ◌-◌, ◌*◌, ◌^◌, ◌≤◌, ◌<◌, ◌≡◌, refl, ◌∙◌, arith, if◌then◌else◌}
use stronk.Base.{
  List, [], ◌∷◌, ◌++◌, length, length-append, All, take, length-take, u32, Option, none, some,
}
use stronk.Codec.Varint.{encode_varint}
use stronk.Codec.Varint.Encode.{length-encode_varint, varint_bounds-length}
use stronk.Codec.Fixed.{encode_ubyte}
use stronk.Packet.Outgoing.{ChunkSection, ChunkData}
use stronk.Packet.Encode.Chunk.{
  section_size, sections_size, data_size, encode_palette, encode_section, encode_sections, sky_size,
  sky_bytes,
}
use stronk.Codec.Endian.{length-bytes_of}

abbrev pub HasSky : Option (List ℕ) → Type 0
HasSky none = Unit {0}
HasSky (some sky) = 2048 ≤ length sky

-- The arrays of a section hold what the packet copies from them, and its counts are int32_t.
abbrev pub HasArrays : ChunkSection → Type 0
HasArrays s =
    (s.block_array_length * 8 ≤ length s.blocks)
    × (2048 ≤ length s.block_light)
    × HasSky s.sky_light
    × (length s.palette < 2 ^ 32)
    × (s.block_array_length < 2 ^ 32)

-- Five bytes are counted for each entry of a palette, whatever it takes.
abbrev pub palette_slack : ChunkSection → ℕ
palette_slack s = length s.palette * 5 - length (encode_palette s.palette)

unfoldable pub slack : List ChunkSection → ℕ
slack [] = 0
slack (s ∷ ss) = palette_slack s + slack ss

palette_le : (p : List ℕ) → length (encode_palette p) ≤ length p * 5
unfolding encode_palette
palette_le [] = omega arith
palette_le (entry ∷ p) = omega (
  arith,
  length-append (encode_varint entry) (encode_palette p),
  length-encode_varint entry,
  palette_le p,
)

light_size :
    (sky_light : Option (List ℕ))
    → HasSky sky_light
    → length (sky_bytes sky_light) ≡ sky_size sky_light
light_size none h = refl
light_size (some sky) h = length-take 2048 sky ∙ omega arith

section_lem :
    (s : ChunkSection) → HasArrays s → length (encode_section s) + palette_slack s ≡ section_size s
unfolding encode_section section_size encode_ubyte
section_lem s h = simp length-append (
    omega (
      arith,
      length-bytes_of 1 s.bits_per_block,
      varint_bounds-length (length s.palette) h.3,
      varint_bounds-length s.block_array_length h.4,
      palette_le s.palette,
      length-take (s.block_array_length * 8) s.blocks,
      length-take 2048 s.block_light,
      light_size s.sky_light h.2,
    ))

pub sections_lem :
    (ss : List ChunkSection)
    → All HasArrays ss
    → length (encode_sections ss) + slack ss ≡ sections_size ss
unfolding encode_sections sections_size slack
sections_lem [] h = refl
sections_lem (s ∷ ss) h = omega (
  arith,
  length-append (encode_section s) (encode_sections ss),
  section_lem s h.0,
  sections_lem ss h.1,
)

pub data_size_lem :
    (p : ChunkData)
    → All HasArrays p.chunk_sections
    → 256 ≤ length p.biomes
    → data_size p
      ≡ u32 (
          length (
            encode_sections p.chunk_sections
            ++ (if p.ground_up_continuous then take 256 p.biomes else []))
          + slack p.chunk_sections)
unfolding data_size
data_size_lem p h hb = ground (
  arith,
  sections_lem p.chunk_sections h,
  length-append (encode_sections p.chunk_sections)
      (if p.ground_up_continuous then take 256 p.biomes else []),
  length-take 256 p.biomes,
)
