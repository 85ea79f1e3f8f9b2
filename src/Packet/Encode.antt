-- ===== src/Packet/Encode.antt =====
-- mcpr_encode_packet of src/mcpr/packet.c, by state and packet type. The result is what is
-- stored at `out`, and the return value; an error (return value 0) is the codec's.
pub mod Play
pub mod Chunk
pub mod Main
pub mod Bounds
mod Tests
use stronk.Base.{ℕ, ◌+◌, List, ◌++◌, length, Outcome, ok, err, fault, ◌>>=◌}
use stronk.Codec.Varint.{encode_varint}
use stronk.Codec.Text.{encode_string, encode_chat}
use stronk.Codec.Fixed.{encode_ushort, encode_long}
use stronk.Uuid.{Ninuuid, Ccase, to_string}
use stronk.Packet.Types.{PacketType}
use stronk.Packet.Outgoing.{Response}
use stronk.Packet.Ids.{packet_type_to_byte}
use stronk.Packet.Json.{server_list_response_to_json}
use stronk.Base.{Bool, true, false}

abbrev pub Encoded : Type 0
Encoded = List ℕ × ℕ

-- `return bufpointer - out`
abbrev pub all_of : List ℕ → Outcome Encoded
all_of out = ok (out, length out)

unfoldable pub encode_id : PacketType → Outcome (List ℕ)
encode_id id = do byte ← packet_type_to_byte id; ok (encode_varint byte)

unfoldable pub encode_handshake : List ℕ → ℕ → ℕ → Outcome Encoded
encode_handshake server_address server_port next_state = do
  id ← encode_id PacketType.hs_sb_handshake
  address ← encode_string server_address
  all_of (
      id
      ++ (encode_varint 340
          ++ (address ++ (encode_ushort server_port ++ encode_varint next_state))))

unfoldable pub encode_pong : ℕ → Outcome Encoded
encode_pong payload = do id ← encode_id PacketType.st_cb_pong; all_of (id ++ encode_long payload)

unfoldable pub encode_response : Response → Outcome Encoded
encode_response r = do
  response ← server_list_response_to_json r
  id ← encode_id PacketType.st_cb_response
  all_of (id ++ (encode_varint (length response) ++ response))

unfoldable pub encode_login_disconnect : List ℕ → Outcome Encoded
encode_login_disconnect reason = do
  id ← encode_id PacketType.lg_cb_disconnect
  chat ← encode_chat reason
  all_of (id ++ chat)

-- A length is written, and then as many bytes.
abbrev pub counted : List ℕ → List ℕ
counted bytes = encode_varint (length bytes) ++ bytes

unfoldable pub encode_encryption_request : List ℕ → List ℕ → List ℕ → Outcome Encoded
encode_encryption_request server_id public_key verify_token = do
  id ← encode_id PacketType.lg_cb_encryption_request
  server ← encode_string server_id
  all_of (id ++ (server ++ (counted public_key ++ counted verify_token)))

unfoldable pub encode_login_success : Ninuuid → List ℕ → Outcome Encoded
encode_login_success uuid username = do
  id ← encode_id PacketType.lg_cb_login_success
  uuid_string ← encode_string (to_string uuid Ccase.lowercase false)
  name ← encode_string username
  all_of (id ++ (uuid_string ++ name))

unfoldable pub encode_set_compression : ℕ → Outcome Encoded
encode_set_compression threshold = do
  id ← encode_id PacketType.lg_cb_set_compression
  all_of (id ++ encode_varint threshold)

-- The pointer is not moved past the name: the return value counts the id alone.
unfoldable pub encode_login_start : List ℕ → Outcome Encoded
encode_login_start name = do
  id ← encode_id PacketType.lg_sb_login_start
  string ← encode_string name
  ok (id ++ string, length id)

unfoldable pub encode_encryption_response : List ℕ → List ℕ → Outcome Encoded
encode_encryption_response shared_secret verify_token = do
  id ← encode_id PacketType.lg_sb_encryption_response
  all_of (id ++ (counted shared_secret ++ counted verify_token))
