-- ===== src/World/Unpack.antt =====
-- What a client reads from the words of encode_chunk_section_blocks of src/world/world.c.
use stronk.Base.{ℕ, suc, zero, ◌+◌, ◌*◌, ◌/◌, ◌%◌, ◌^◌, ◌<◌, ◌≡◌, refl, ap, ap₂, ◌∙◌, arith}
use stronk.Base.{List, [], ◌∷◌, map, length, All}
use stronk.Codec.Endian.{htonll, htonll-htonll}
use stronk.World.{Block, block_data, encode_chunk_section_blocks}
use stronk.World.Pack.{stream, words_of, Fits13, pack_loop-words, pow-add}

-- The words, turned to network byte order and back, read as one number, the first word lowest.
pub number_of : List ℕ → ℕ
number_of [] = 0
number_of (w ∷ ws) = htonll w + 2 ^ 64 * number_of ws

-- The first `k` numbers of 13 bits in `n`.
pub fields13 : ℕ → ℕ → List ℕ
fields13 zero n = []
fields13 (suc k) n = n % 2 ^ 13 ∷ fields13 k (n / 2 ^ 13)

number_of-words : (k n : ℕ) → n < 2 ^ (64 * k) → number_of (map htonll (words_of k n)) ≡ n
unfolding number_of words_of
number_of-words zero n h = omega arith
number_of-words (suc k) n h =
    let more : 64 * suc k ≡ 64 * k + 64 = omega arith in
    let bound = pow-add (64 * k) 64 in
    let top : n < 2 ^ (64 * k) * 2 ^ 64 = rw (← bound, ← more) h in
    omega (
      arith,
      htonll-htonll (n % 2 ^ 64) (omega arith),
      number_of-words k (n / 2 ^ 64) (omega arith),
    )

fields13-stream :
    (blocks : List Block)
    → All Fits13 blocks
    → fields13 (length blocks) (stream blocks) ≡ map block_data blocks
unfolding fields13 stream
fields13-stream [] h = refl
fields13-stream (block ∷ blocks) h =
    let d = block_data block in
    let rest : (d + 2 ^ 13 * stream blocks) / 2 ^ 13 ≡ stream blocks = omega arith in
    ap₂ (λ (x : ℕ) (n : ℕ). x ∷ fields13 (length blocks) n) (omega arith) rest
    ∙ ap (λ l. d ∷ l) (fields13-stream blocks h.1)

stream-lt : (blocks : List Block) → All Fits13 blocks → stream blocks < 2 ^ (13 * length blocks)
unfolding stream
stream-lt [] h = omega arith
stream-lt (block ∷ blocks) h =
    let more : 13 * suc (length blocks) ≡ 13 * length blocks + 13 = omega arith in
    rw (more, pow-add (13 * length blocks) 13) (omega (arith, stream-lt blocks h.1))

-- From the 832 words of a section, and from the words of any number of blocks that fills its
-- words, every block comes back: the blocks stand in the words one behind the other, in fields of
-- 13 bits that run on from one word into the next, the lowest bits first. The data of each block
-- must fit in 13 bits.
pub fields-encode_chunk_section_blocks :
    (blocks : List Block) (n : ℕ)
    → All Fits13 blocks
    → 13 * length blocks ≡ 64 * n
    → (encode_chunk_section_blocks blocks ≡ map htonll (words_of n (stream blocks)))
      × (fields13 (length blocks) (number_of (encode_chunk_section_blocks blocks))
          ≡ map block_data blocks)
unfolding encode_chunk_section_blocks
fields-encode_chunk_section_blocks blocks n fits e =
    let start : 0 + 2 ^ 0 * stream blocks ≡ stream blocks = omega arith in
    let packed =
      rw start at (pack_loop-words blocks 0 0 n (omega arith) (omega arith) fits (omega arith)) in
    let small : stream blocks < 2 ^ (64 * n) = rw (← e) (stream-lt blocks fits) in
    (packed, rw (packed, number_of-words n (stream blocks) small) (fields13-stream blocks fits))
