-- ===== src/Connection/Write.antt =====
-- mcpr_connection_write of src/mcpr/connection.c: bytes on their way to the stream. Encryption is
-- that of OpenSSL and compression that of zlib, each nothing if it fails; `accepts` says whether
-- the stream takes all the bytes of one `fwrite`.
use stronk.Base.{
  ℕ, ◌-◌, ◌^◌, ◌≡◌, ◌≢◌, arith, Bool, true, false, List, [], length, Option, none, some,
}
use stronk.Base.{ltb, ◌==◌, if◌then◌else◌}
use stronk.Connection.{Conn}

module _ (encrypt : List ℕ → Option (List ℕ)) (compress : List ℕ → Option (List ℕ))
    (accepts : List ℕ → Bool) where
  -- The return value, and what was handed to the stream.
  abbrev whole : List ℕ → Bool × List ℕ
  whole bytes = (accepts bytes, bytes)

  -- `fwrite(data, n, 1, stream) == n`, compared with 1: `fwrite` counts items, of which there is
  -- one.
  abbrev counted_as_bytes : List ℕ → Bool × List ℕ
  counted_as_bytes bytes = (if accepts bytes then length bytes == 1 else length bytes == 0, bytes)

  abbrev or_nothing : Option (List ℕ) → (List ℕ → Bool × List ℕ) → Bool × List ℕ
  or_nothing none next = (false, [])
  or_nothing (some bytes) next = next bytes

  -- The size is held against INT_MAX by mcpr_crypto_encrypt of src/mcpr/crypto.c.
  unfoldable pub mcpr_crypto_encrypt : List ℕ → Option (List ℕ)
  mcpr_crypto_encrypt bytes = if ltb (2 ^ 31 - 1) (length bytes) then none else encrypt bytes

  unfoldable pub mcpr_connection_write : Conn → List ℕ → Bool × List ℕ
  unfolding mcpr_crypto_encrypt
  mcpr_connection_write conn bytes =
      if conn.use_encryption
      then or_nothing (mcpr_crypto_encrypt bytes) (λ encrypted.
        if conn.use_compression then or_nothing (compress encrypted) whole else whole encrypted)
      else if conn.use_compression
      then or_nothing (compress bytes) counted_as_bytes
      else whole bytes

  -- Without encryption, compressed data that the stream took is reported as not written, unless
  -- it is a single byte.
  pub mcpr_connection_write_misreports :
      (conn : Conn) (bytes packed : List ℕ)
      → conn.use_encryption ≡ false
      → conn.use_compression ≡ true
      → compress bytes ≡ some packed
      → accepts packed ≡ true
      → length packed ≢ 1
      → mcpr_connection_write conn bytes ≡ (false, packed)
  unfolding mcpr_connection_write
  mcpr_connection_write_misreports conn bytes packed plain on e took size =
      rw (plain, on, e, took) (ground arith)
