-- ===== src/Codec/Varint/Decode.antt =====
-- One round of the decoders' loop, and what a successful decoding says.
use stronk.Base.{ℕ, ◌+◌, ◌*◌, ◌%◌, ◌^◌, ◌≤◌, ◌<◌, ◌≡◌, arith}
use stronk.Base.{bit_and, bit_or, bit_and_low_mask, bit_or_low_high, top_bit}
use stronk.Base.{List, ◌∷◌, ok}
use stronk.Codec.Varint.{shl_int, varnum_loop}
use native.Mathlib.Numerals.{towards_suc}

pub low_group : (b : ℕ) → bit_and b 0x7F ≡ b % 128
low_group b = bit_and_low_mask 7 b

pub power_up : (i : ℕ) → 2 ^ (7 * (i + 1)) ≡ 128 * 2 ^ (7 * i)
power_up i = rw shifted (simp towards_suc (omega arith))
  where
    shifted : 7 * (i + 1) ≡ 7 * i + 7
    shifted = omega arith

-- A group that lands above what was read so far is added to it.
pub group_adds : (i r q : ℕ) → r < 2 ^ (7 * i) → bit_or r (q * 2 ^ (7 * i)) ≡ r + q * 2 ^ (7 * i)
group_adds i r q h = bit_or_low_high (7 * i) r q h

module _ (limit : ℕ) (widen : ℕ → ℕ) where
  -- A byte whose group fits: the loop returns on a low byte, and goes on after a marked one.
  pub round_last :
      (w i r max : ℕ) (mem : List ℕ)
      → w < 128
      → i ≤ 4
      → i < limit
      → i < max
      → r < 2 ^ (7 * i)
      → w * 2 ^ (7 * i) < 2 ^ 32
      → widen (w * 2 ^ (7 * i)) ≡ w * 2 ^ (7 * i)
      → varnum_loop limit widen (w ∷ mem) i r max ≡ ok (r + w * 2 ^ (7 * i), i + 1)
  unfolding varnum_loop shl_int
  round_last w i r max mem hw hi hl hm hr fits same =
      ground (arith, low_group w, top_bit w, group_adds i r w)

  pub round_marked :
      (w i r max : ℕ) (mem : List ℕ)
      → w < 128
      → i ≤ 4
      → i < limit
      → i < max
      → r < 2 ^ (7 * i)
      → w * 2 ^ (7 * i) < 2 ^ 32
      → widen (w * 2 ^ (7 * i)) ≡ w * 2 ^ (7 * i)
      → varnum_loop limit widen ((w + 128) ∷ mem) i r max
        ≡ varnum_loop limit widen mem (i + 1) (r + w * 2 ^ (7 * i)) max
  unfolding varnum_loop shl_int
  round_marked w i r max mem hw hi hl hm hr fits same =
      ground (arith, low_group (w + 128), top_bit (w + 128), group_adds i r w)
