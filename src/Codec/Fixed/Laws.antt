-- ===== src/Codec/Fixed/Laws.antt =====
-- Round trips and byte order of the values of fixed size.
use stronk.Base.{ℕ, ◌^◌, ◌<◌, ◌≡◌, ◌↔◌, refl, ap, ◌∙◌, arith}
use stronk.Base.{List, ◌++◌, Bool, true, false, some, ok, fault, bad_shift}
use stronk.Base.{◌>>=◌}
use stronk.Codec.Endian.{bytes_of, word_of, read_bytes, htons, htonl, htonll, be_bytes}
use stronk.Codec.Endian.{length-bytes_of, word_of-bytes_of, read_bytes-front}
use stronk.Codec.Endian.{htons-htons, htonl-htonl, htonll-htonll, htonl-lt, htonll-lt}
use stronk.Codec.Endian.{bytes_of-htons, bytes_of-htonl, bytes_of-htonll}
use stronk.Codec.Fixed.{encode_bool, encode_ubyte, encode_short, encode_ushort, encode_int}
use stronk.Codec.Fixed.{encode_long, encode_float, encode_double, decode_bool, decode_ubyte}
use stronk.Codec.Fixed.{decode_short, decode_ushort, decode_int, decode_long, decode_double}

-- The front of memory, read as a word of `n` bytes.
pub load {ℓ} :
    {A : Type ℓ} (n x : ℕ) (mem : List ℕ) (f : ℕ → A)
    → x < 256 ^ n
    → (read_bytes n (bytes_of n x ++ mem) >>= λ b. ok (f (word_of b))) ≡ ok (f x)
load n x mem f h =
    rw (read_bytes-front (bytes_of n x) mem n (length-bytes_of n x), word_of-bytes_of n x h)

pub decode_bool-encode_bool :
    (b : Bool) (mem : List ℕ) → decode_bool (encode_bool b ++ mem) ≡ ok (some b)
unfolding decode_bool encode_bool bytes_of read_bytes word_of
decode_bool-encode_bool true mem = ground arith
decode_bool-encode_bool false mem = ground arith

pub decode_ubyte-encode_ubyte :
    (b : ℕ) (mem : List ℕ) → b < 256 → decode_ubyte (encode_ubyte b ++ mem) ≡ ok b
unfolding decode_ubyte encode_ubyte
decode_ubyte-encode_ubyte b mem h = load 1 b mem (λ x. x) (omega arith)

htons-lt : (x : ℕ) → htons x < 2 ^ 16
unfolding htons
htons-lt x = omega arith

-- Every integer of fixed size comes back from its encoding, whatever follows in memory.
pub decode-encode_ints :
    (s i l : ℕ) (mem : List ℕ)
    → s < 2 ^ 16
    → i < 2 ^ 32
    → l < 2 ^ 64
    → (decode_short (encode_short s ++ mem) ≡ ok s)
      × (decode_ushort (encode_ushort s ++ mem) ≡ ok s)
      × (decode_int (encode_int i ++ mem) ≡ ok i)
      × (decode_long (encode_long l ++ mem) ≡ ok l)
unfolding decode_short encode_short decode_ushort encode_ushort decode_int encode_int decode_long
    encode_long
decode-encode_ints s i l mem hs hi hl = (
  load 2 (htons s) mem htons (htons-lt s) ∙ ap ok (htons-htons s hs),
  load 2 (htons s) mem htons (htons-lt s) ∙ ap ok (htons-htons s hs),
  load 4 (htonl i) mem htonl (htonl-lt i) ∙ ap ok (htonl-htonl i hi),
  load 8 (htonll l) mem htonll (htonll-lt l) ∙ ap ok (htonll-htonll l hl),
)

-- The integers and doubles are written in network byte order, the high byte first.
pub encode_network_order :
    (s i l d : ℕ)
    → (encode_short s ≡ be_bytes 2 s)
      × (encode_ushort s ≡ be_bytes 2 s)
      × (encode_int i ≡ be_bytes 4 i)
      × (encode_long l ≡ be_bytes 8 l)
      × (encode_double d ≡ be_bytes 8 d)
unfolding encode_short encode_ushort encode_int encode_long encode_double
encode_network_order s i l d =
    (bytes_of-htons s, bytes_of-htons s, bytes_of-htonl i, bytes_of-htonll l, bytes_of-htonll d)

-- `mcpr_decode_double` does not turn the byte order back: of an encoded double it returns the
-- turned bit pattern, so a double comes back exactly when turning its bytes leaves it as it is.
pub decode_double-encode_double :
    (d : ℕ) (mem : List ℕ)
    → (decode_double (encode_double d ++ mem) ≡ ok (htonll d))
      × ((decode_double (encode_double d ++ mem) ≡ ok d) ↔ (htonll d ≡ d))
unfolding decode_double encode_double
decode_double-encode_double d mem =
    let back : (read_bytes 8 (bytes_of 8 (htonll d) ++ mem) >>= λ b. ok (word_of b))
        ≡ ok (htonll d) =
      load 8 (htonll d) mem (λ x. x) (htonll-lt d) in
    (back, ((λ e. cc), λ e. back ∙ ap ok e))

-- `mcpr_encode_float` has no defined result for any float: it shifts a uint32_t by 32.
pub encode_float_faults : (f : ℕ) → encode_float f ≡ fault bad_shift
unfolding encode_float
encode_float_faults f = refl
