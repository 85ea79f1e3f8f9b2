-- ===== src/Packet/Encode/Bounds/Chunk.antt =====
-- The buffer for a chunk data packet of src/mcpr/packet.c.
use stronk.Base.{ℕ, ◌+◌, ◌^◌, ◌≤◌, ◌<◌, ◌≡◌, arith, List, length, take, length-take}
use stronk.Base.{[], All, ok, if◌then◌else◌, Bool}
use stronk.Codec.Varint.Encode.{length-encode_varint, length-encode_varint-le}
use stronk.Packet.Ids.{packet_type_to_byte}
use stronk.Packet.Outgoing.{ChunkData}
use stronk.Packet.Encode.{encode_id, Encoded}
use stronk.Base.{
  Outcome, err, fault, ◌>>◌, >>=-eq-ok, Option, none, some, true, false, not, ◌&&◌, leb, over_read,
  refl, subst,
}
use stronk.Packet.Encode.Chunk.{
  positive, block_entities, chunk_reads, all_arrays_hold, encode_chunk_data, data_size,
  sections_size,
}
use stronk.Packet.Encode.Chunk.Sizes.{HasArrays, sections_lem}
use stronk.Packet.Encode.Bounds.{chunk_bounds}
use stronk.Packet.Encode.Bounds.Cases.{Within, sizes}

biomes_le :
    (b : Bool) (xs : List ℕ) → length (if b then take 256 xs else []) ≤ (if b then 256 else 0)
biomes_le b xs = ground (arith, length-take 256 xs)

size_small :
    (p : ChunkData)
    → 256 + sections_size p.chunk_sections < 2 ^ 28
    → data_size p ≡ (if p.ground_up_continuous then 256 else 0) + sections_size p.chunk_sections
unfolding data_size
size_small p h = ground arith

size_lt : (p : ChunkData) → 256 + sections_size p.chunk_sections < 2 ^ 28 → data_size p < 2 ^ 28
size_lt p h = ground (arith, size_small p h)

Within-after :
    (b : ℕ) (x : Outcome Encoded) (o : Outcome (Unit {0})) → Within b x → Within b (o >> x)
Within-after b x (ok u) h = h
Within-after b x (err e) h = tt
Within-after b x (fault y) h = tt

chunk-Within :
    (p : ChunkData)
    → All HasArrays p.chunk_sections
    → 256 + sections_size p.chunk_sections < 2 ^ 28
    → Within (chunk_bounds p) (encode_chunk_data p)
unfolding encode_chunk_data encode_id packet_type_to_byte chunk_bounds
chunk-Within p h small = Within-after _ _ (chunk_reads p) (
    simp sizes (
      omega (
        arith,
        length-encode_varint-le 0 32 (omega arith) (omega arith),
        length-encode_varint p.primary_bit_mask,
        length-encode_varint p.block_entity_count,
        length-encode_varint-le 3 (data_size p) (omega (arith, size_lt p small))
            (omega (arith, size_lt p small)),
        size_small p small,
        sections_lem p.chunk_sections h,
        biomes_le p.ground_up_continuous p.biomes,
      )))

reads_none :
    (raw : Option (List ℕ)) (count : ℕ) (u : Unit {0})
    → block_entities raw count ≡ ok u
    → (raw ≡ none) × (positive count ≡ false)
reads_none none count u e = (refl, ground (arith, e))
reads_none (some raw) count u e = absurd (cc)

chunk_reads-none :
    (p : ChunkData) (u : Unit {0})
    → chunk_reads p ≡ ok u
    → (p.raw_block_entities ≡ none) × (positive p.block_entity_count ≡ false)
unfolding chunk_reads
chunk_reads-none p u e =
    by_tests (not (all_arrays_hold p.chunk_sections))
      (p.ground_up_continuous && not (leb 256 (length p.biomes))) e
  where
    by_tests :
        (a b : Bool)
        → (if a
            then fault over_read
            else if b
            then fault over_read
            else block_entities p.raw_block_entities p.block_entity_count)
          ≡ ok u
        → (p.raw_block_entities ≡ none) × (positive p.block_entity_count ≡ false)
    by_tests true b e = absurd (cc)
    by_tests false true e = absurd (cc)
    by_tests false false e = reads_none p.raw_block_entities p.block_entity_count u e

-- A chunk data packet whose sections hold what is copied from them, and take with the biomes less
-- than 2 ^ 28 bytes, five counted for each palette entry: if it is encoded, it has no block entities
-- and its count of them is not positive as an int32_t, and what is stored fits in the buffer of the
-- size that mcpr_encode_packet_bounds gives for it.
pub length-encode_chunk_data :
    (p : ChunkData) (out : List ℕ) (n : ℕ)
    → All HasArrays p.chunk_sections
    → 256 + sections_size p.chunk_sections < 2 ^ 28
    → encode_chunk_data p ≡ ok (out, n)
    → (p.raw_block_entities ≡ none)
      × (positive p.block_entity_count ≡ false)
      × (length out ≤ chunk_bounds p)
unfolding encode_chunk_data encode_id packet_type_to_byte
length-encode_chunk_data p out n h small e =
    let (u, read, rest) = >>=-eq-ok (chunk_reads p) _ e in
    let (alone, count) = chunk_reads-none p u read in
    (alone, count, subst (Within (chunk_bounds p)) e (chunk-Within p h small))
