-- ===== src/Packet/Encode/Bounds/Enough.antt =====
-- The buffer that mcpr_encode_packet_bounds asks for holds what mcpr_encode_packet stores.
use stronk.Base.{ℕ, ◌+◌, ◌-◌, ◌^◌, ◌≤◌, ◌<◌, ◌≡◌, inl, inr, arith, Bool-cases}
use stronk.Base.{List, ◌++◌, length, length-append, All, IsByte}
use stronk.Base.{Outcome, ok, err, fault}
use stronk.Codec.Varint.{encode_varint}
use stronk.Codec.Varint.Encode.{length-encode_varint}
use stronk.Codec.Text.{encode_string, encode_chat}
use stronk.Codec.Fixed.{encode_float, encode_byte}
use stronk.Uuid.Laws.{IsValid}
use stronk.Packet.Types.{State, ChatPosition}
use stronk.Packet.Ids.{packet_type_to_byte}
use stronk.Packet.Json.{server_list_response_to_json}
use stronk.Packet.Outgoing.{Outgoing}
use stronk.Packet.Encode.{
  Encoded, encode_id, encode_handshake, encode_login_start, encode_encryption_response,
}
use stronk.Packet.Encode.Play.{
  encode_player_abilities, encode_position_and_look, encode_sb_keep_alive, encode_sb_plugin_message,
  encode_chat_message, position_byte,
}
use stronk.Packet.Encode.Main.{encode_case, encode_packet}
use stronk.Packet.Encode.Bounds.{bounds_case, encode_packet_bounds}
use stronk.Packet.Encode.Bounds.Cases.{
  Within, pong-Within, login_disconnect-Within, encryption_request-Within, set_compression-Within,
  login_success-Within, response-Within, disconnect-Within, keep_alive-Within, join_game-Within,
  plugin_message-Within, spawn_position-Within,
}
use stronk.Packet.Encode.Main.{switch_order}
use stronk.Packet.Outgoing.{state_of}
use stronk.Base.{leb, >>=-eq-ok}
use stronk.Packet.Encode.Bounds.Sizes.{length-encode_byte}

-- The packets with a bound of their own; a login success carries an identifier of 16 bytes.
abbrev pub HasBound : Outgoing → Type 0
HasBound (Outgoing.login_success u n) = IsValid u × All IsByte u.bytes
HasBound (Outgoing.chat_message j p) = ⊥
HasBound (Outgoing.chunk_data p) = ⊥
HasBound _ = Unit {0}

case-Within :
    (pkt : Outgoing) (b : ℕ) → HasBound pkt → bounds_case pkt ≡ ok b → Within b (encode_case pkt)
unfolding bounds_case encode_case
case-Within (Outgoing.handshake a p n) b h e =
    unfold encode_handshake encode_id packet_type_to_byte in tt
case-Within (Outgoing.pong p) b h e = ground (arith, pong-Within p)
case-Within (Outgoing.response r) b h e =
    let (json, printed, rest) = >>=-eq-ok (server_list_response_to_json r) _ e in
    ground (arith, response-Within r json printed)
case-Within (Outgoing.login_disconnect r) b h e = ground (arith, login_disconnect-Within r)
case-Within (Outgoing.encryption_request s k t) b h e =
    ground (arith, encryption_request-Within s k t)
case-Within (Outgoing.login_success u n) b h e = ground (arith, login_success-Within u n h.0 h.1)
case-Within (Outgoing.set_compression t) b h e = ground (arith, set_compression-Within t)
case-Within (Outgoing.login_start n) b h e =
    unfold encode_login_start encode_id packet_type_to_byte in tt
case-Within (Outgoing.encryption_response s t) b h e =
    unfold encode_encryption_response encode_id packet_type_to_byte in tt
case-Within (Outgoing.chat_message j p) b h e = absurd h
case-Within (Outgoing.disconnect r) b h e = ground (arith, disconnect-Within r)
case-Within (Outgoing.keep_alive i) b h e = ground (arith, keep_alive-Within i)
case-Within (Outgoing.join_game p) b h e = ground (arith, join_game-Within p)
case-Within (Outgoing.plugin_message c d) b h e = ground (arith, plugin_message-Within c d)
case-Within (Outgoing.spawn_position l) b h e = ground (arith, spawn_position-Within l)
case-Within (Outgoing.player_abilities p) b h e =
    unfold encode_player_abilities encode_id packet_type_to_byte encode_float in tt
case-Within (Outgoing.player_position_and_look p) b h e =
    unfold encode_position_and_look encode_id packet_type_to_byte encode_float in tt
case-Within (Outgoing.sb_keep_alive i) b h e =
    unfold encode_sb_keep_alive encode_id packet_type_to_byte in tt
case-Within (Outgoing.sb_plugin_message c d) b h e =
    unfold encode_sb_plugin_message encode_id packet_type_to_byte in tt
case-Within (Outgoing.chunk_data p) b h e = absurd h

Within-le :
    (b : ℕ) (r : Outcome Encoded) (out : List ℕ) (n : ℕ)
    → Within b r
    → r ≡ ok (out, n)
    → length out ≤ b
Within-le b (ok (o, m)) out n h e = ground arith
Within-le b (err x) out n h e = cc
Within-le b (fault x) out n h e = cc

-- For every packet but chat messages and chunk data: if the packet is encoded, what is stored
-- fits in the buffer of the size that mcpr_encode_packet_bounds gives for it. The identifier of
-- a login success has its sixteen bytes.
pub length-encode_packet :
    (state : State) (pkt : Outgoing) (out : List ℕ) (n b : ℕ)
    → HasBound pkt
    → encode_packet state pkt ≡ ok (out, n)
    → encode_packet_bounds state pkt ≡ ok b
    → length out ≤ b
unfolding encode_packet encode_packet_bounds
length-encode_packet state pkt out n b h e f =
    elim (Bool-cases (leb (switch_order state) (switch_order (state_of pkt)))) [
      | inl runs ↦
          Within-le b (encode_case pkt) out n (case-Within pkt b h (rw runs at f)) (rw runs at e)
      | inr stops ↦ cc
    ]

-- A chat message of at least 6 bytes overflows its buffer, by 8 bytes or more: the bound is the
-- length of the text without its first 6 bytes. It is written without a packet id.
pub chat_message_overflows :
    (json : List ℕ) (position : ChatPosition)
    → 6 ≤ length json
    → length json < 2 ^ 31
    → let out = (encode_varint (length json) ++ json) ++ encode_byte (position_byte position) in
      (encode_packet State.play (Outgoing.chat_message json position) ≡ ok (out, length out))
      × (encode_packet_bounds State.play (Outgoing.chat_message json position)
          ≡ ok (length json - 6))
      × (length json - 6 + 8 ≤ length out)
unfolding encode_packet encode_packet_bounds encode_case bounds_case encode_chat_message encode_chat
    encode_string
chat_message_overflows json position lo hi =
    let prefix = encode_varint (length json) in
    (
      ground arith,
      ground arith,
      omega (
        arith,
        length-append (prefix ++ json) (encode_byte (position_byte position)),
        length-append prefix json,
        length-encode_varint (length json),
        length-encode_byte (position_byte position),
      ),
    )
