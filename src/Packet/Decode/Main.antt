-- ===== src/Packet/Decode/Main.antt =====
-- mcpr_decode_packet of src/mcpr/packet.c: the packet id, and the switch over state and type.
use stronk.Base.{ℕ, false, Option, none, some, List, u8}
use stronk.Base.{Outcome, invalid_packet_id, not_implemented}
use stronk.Codec.Varint.{decode_varint}
use stronk.Packet.Types.{State, PacketType, Serverbound}
use stronk.Packet.Ids.{get_packet_type}
use stronk.Packet.Cursor.{Cursor, advance, Decoded, done, rejected, fault, ◌>>=◌}
use stronk.Packet.Decode.{
  decode_handshake, decode_login_start, decode_encryption_response, decode_ping, decode_request,
}
use stronk.Packet.Decode.Play.{
  decode_chat_message, decode_client_settings, decode_plugin_message, decode_keep_alive,
  decode_teleport_confirm, decode_held_item_change,
}
use stronk.Packet.Decode.Moves.{
  decode_player_position, decode_player_position_and_look, decode_player_look,
}

unfoldable pub decode_play : PacketType → Cursor → Decoded (Serverbound × ℕ)
decode_play PacketType.pl_sb_chat_message c = decode_chat_message c
decode_play PacketType.pl_sb_client_settings c = decode_client_settings c
decode_play PacketType.pl_sb_plugin_message c = decode_plugin_message c
decode_play PacketType.pl_sb_keep_alive c = decode_keep_alive c
decode_play PacketType.pl_sb_player_position c = decode_player_position c
decode_play PacketType.pl_sb_player_position_and_look c = decode_player_position_and_look c
decode_play PacketType.pl_sb_teleport_confirm c = decode_teleport_confirm c
decode_play PacketType.pl_sb_player_look c = decode_player_look c
decode_play PacketType.pl_sb_held_item_change c = decode_held_item_change c
decode_play _ c = rejected not_implemented false

-- A case of the outer switch that finds no packet runs on into the next one.
unfoldable pub decode_status : PacketType → Cursor → Decoded (Serverbound × ℕ)
unfolding decode_play
decode_status PacketType.st_sb_ping c = decode_ping c
decode_status PacketType.st_sb_request c = decode_request c
decode_status type c = decode_play type c

unfoldable pub decode_login : PacketType → Cursor → Decoded (Serverbound × ℕ)
unfolding decode_status
decode_login PacketType.lg_sb_login_start c = decode_login_start c
decode_login PacketType.lg_sb_encryption_response c = decode_encryption_response c
decode_login type c = decode_status type c

unfoldable pub decode_body : State → PacketType → Cursor → Decoded (Serverbound × ℕ)
unfolding decode_login
decode_body State.handshake type c = decode_handshake c
decode_body State.login type c = decode_login type c
decode_body State.status type c = decode_status type c
decode_body State.play type c = decode_play type c

-- The returns before the switch do not free the packet.
abbrev pub or_keep {ℓ} : {A : Type ℓ} → Outcome A → Decoded A
or_keep (Outcome.ok a) = done a
or_keep (Outcome.err e) = rejected e false
or_keep (Outcome.fault x) = fault x

abbrev pub type_or_keep : Option PacketType → Decoded PacketType
type_or_keep (some type) = done type
type_or_keep none = rejected invalid_packet_id false

-- The type, the fields and the return value. The id is an int32_t, handed on as a uint8_t.
unfoldable pub decode_packet : List ℕ → State → ℕ → Decoded (PacketType × Serverbound × ℕ)
unfolding decode_body get_packet_type
decode_packet mem state maxlen = do
  (packet_id, n) ← or_keep (decode_varint mem maxlen)
  type ← type_or_keep (get_packet_type (u8 packet_id) state)
  (fields, bytes_read) ←
      decode_body state type (advance (record { mem = mem; len_left = maxlen; pos = 0 }) n)
  done (type, fields, bytes_read)
