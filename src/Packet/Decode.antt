-- ===== src/Packet/Decode.antt =====
-- mcpr_decode_packet of src/mcpr/packet.c, by state and packet type. Each function stands for the
-- code of one case, from the cursor behind the packet id, and returns the packet and `ptr - in`.
pub mod Play
pub mod Moves
pub mod Main
pub mod Wire
pub mod Laws
pub mod Next
mod Tests
use stronk.Base.{ℕ, ◌+◌, ◌-◌, ◌^◌, ◌<◌, Bool, true, false, not, ◌&&◌, ◌||◌, List, [], ◌∷◌}
use stronk.Base.{ltb, leb, ◌==◌, if◌then◌else◌, packet_too_short, invalid_next_state}
use stronk.Base.{bad_secret_length, bad_token_length}
use stronk.Codec.Endian.{read_bytes}
use stronk.Codec.Varint.{decode_varint}
use stronk.Codec.Text.{decode_string}
use stronk.Codec.Fixed.{decode_ushort, decode_long}
use stronk.Packet.Types.{State, Serverbound}
use stronk.Packet.Cursor.{Cursor, advance, Decoded, done, rejected, zero_after_free, fault}
use stronk.Packet.Cursor.{◌>>=◌, ◌>>◌, or_free, check}

-- The port is followed by the next state; both failures there return `false`.
unfoldable pub handshake_tail : Cursor → ℕ → List ℕ → Decoded (Serverbound × ℕ)
handshake_tail c protocol_version server_address =
    if ltb c.len_left 2 then zero_after_free packet_too_short else do
      server_port ← or_free (decode_ushort c.mem)
      let c = advance c 2
      (next_state, n) ← or_free (decode_varint c.mem c.len_left)
      if not (next_state == 1) && not (next_state == 2)
          then zero_after_free invalid_next_state
          else done (
            Serverbound.handshake protocol_version server_address server_port
                (if next_state == 1 then State.status else State.login),
            (advance c n).pos,
          )

unfoldable pub decode_handshake : Cursor → Decoded (Serverbound × ℕ)
unfolding handshake_tail
decode_handshake c = do
  (protocol_version, n) ← or_free (decode_varint c.mem c.len_left)
  let c = advance c n
  (server_address, n) ← or_free (decode_string c.mem c.len_left)
  handshake_tail (advance c n) protocol_version server_address

unfoldable pub decode_login_start : Cursor → Decoded (Serverbound × ℕ)
decode_login_start c = do
  (name, n) ← or_free (decode_string c.mem c.len_left)
  done (Serverbound.login_start name, n + c.pos)

-- A negative length is refused; one above SIZE_MAX cannot be. The lengths are not held against
-- `len_left`, and behind the token's length the pointer moves by the size of the secret's.
unfoldable pub decode_encryption_response : Cursor → Decoded (Serverbound × ℕ)
decode_encryption_response c = do
  (shared_secret_length, bytes_read_2) ← or_free (decode_varint c.mem c.len_left)
  check (ltb shared_secret_length (2 ^ 31)) bad_secret_length
  let c = advance c bytes_read_2
  shared_secret ← or_free (read_bytes shared_secret_length c.mem)
  let c = advance c shared_secret_length
  (verify_token_length, bytes_read_3) ← or_free (decode_varint c.mem c.len_left)
  check (ltb verify_token_length (2 ^ 31)) bad_token_length
  let c = advance c bytes_read_2
  verify_token ← or_free (read_bytes verify_token_length c.mem)
  done (Serverbound.encryption_response shared_secret verify_token, c.pos + verify_token_length)

unfoldable pub decode_ping : Cursor → Decoded (Serverbound × ℕ)
decode_ping c =
    if ltb c.len_left 8
    then rejected packet_too_short true
    else do payload ← or_free (decode_long c.mem); done (Serverbound.ping payload, 8 + c.pos)

unfoldable pub decode_request : Cursor → Decoded (Serverbound × ℕ)
decode_request c = done (Serverbound.request, c.pos)
