-- ===== src/Packet/Decode/Next.antt =====
-- The next state in a handshake that mcpr_decode_packet of src/mcpr/packet.c accepts.
use stronk.Base.{ℕ, Bool, true, false, List, not, ◌&&◌, ◌==◌, if◌then◌else◌}
use stronk.Base.{Error, Fault, ltb, leb, u8, ◌^◌, bad_secret_length, bad_token_length}
use stronk.Codec.Endian.{read_bytes}
use stronk.Codec.Varint.{decode_varint}
use stronk.Codec.Text.{decode_string}
use stronk.Codec.Fixed.{
  decode_ushort, decode_long, decode_short, decode_byte, decode_ubyte, decode_bool,
}
use stronk.Packet.Types.{State, PacketType, Serverbound}
use stronk.Packet.Cursor.{Cursor, advance, Decoded, done, rejected, zero_after_free, fault, ◌>>=◌}
use stronk.Packet.Cursor.{or_free, need, check}
use stronk.Packet.Decode.{
  decode_handshake, handshake_tail, decode_login_start, decode_encryption_response, decode_ping,
  decode_request,
}
use stronk.Packet.Decode.Play.{decode_chat_message, decode_client_settings, decode_plugin_message}
use stronk.Packet.Decode.Play.{decode_keep_alive, decode_teleport_confirm, decode_held_item_change}
use stronk.Packet.Decode.Moves.{
  decode_player_position, decode_player_position_and_look, decode_player_look,
}
use stronk.Packet.Decode.Moves.{take_float, take_double, take_bool}
use stronk.Packet.Decode.Play.{or_dangling, no_error, chat_mode_of, main_hand_of}
use stronk.Packet.Decode.Main.{decode_packet, decode_body, decode_play, decode_status, decode_login}
use stronk.Packet.Decode.Main.{or_keep, type_or_keep}
use stronk.Packet.Ids.{get_packet_type}

-- A handshake asks for the status or for the login.
abbrev pub LeadsOn : State → Type 0
LeadsOn State.status = Unit
LeadsOn State.login = Unit
LeadsOn State.handshake = ⊥
LeadsOn State.play = ⊥

abbrev pub IsDecodable : Serverbound → Type 0
IsDecodable (Serverbound.handshake v a p next_state) = LeadsOn next_state
IsDecodable _ = Unit

-- Where a decoder gives a value, `P` holds of it.
pub data Gives {A : Type 0} (P : A → Type 0) : Decoded A → Type 0 where
  fields : {a : A} → P a → Gives P (done a)
  rejects : {e : Error} {b : Bool} → Gives P (rejected e b)
  zeros : {e : Error} → Gives P (zero_after_free e)
  faults : {x : Fault} → Gives P (fault x)

abbrev Yields : Decoded (Serverbound × ℕ) → Type 0
Yields = Gives (λ p. IsDecodable p.0)

Yields-bind :
    {A B : Type 0} {P : B → Type 0} {k : A → Decoded B} (m : Decoded A)
    → ((a : A) → Gives P (k a))
    → Gives P (m >>= k)
Yields-bind (done a) h = h a
Yields-bind (rejected e b) h = rejects
Yields-bind (zero_after_free e) h = zeros
Yields-bind (fault x) h = faults

Yields-if :
    {x y : Decoded (Serverbound × ℕ)} (b : Bool) → Yields x → Yields y → Yields (if b then x else y)
Yields-if true hx hy = hx
Yields-if false hx hy = hy

chosen : (b : Bool) → LeadsOn (if b then State.status else State.login)
chosen true = tt
chosen false = tt

handshake_tail-Yields : (c : Cursor) (v : ℕ) (a : List ℕ) → Yields (handshake_tail c v a)
unfolding handshake_tail
handshake_tail-Yields c v a = Yields-if (ltb c.len_left 2) zeros (
    Yields-bind (or_free (decode_ushort c.mem)) (λ port.
      Yields-bind (or_free (decode_varint (advance c 2).mem (advance c 2).len_left))
        (λ (next_state, n).
          Yields-if (not (next_state == 1) && not (next_state == 2)) zeros
            (fields (chosen (next_state == 1))))))

decode_handshake-Yields : (c : Cursor) → Yields (decode_handshake c)
unfolding decode_handshake
decode_handshake-Yields c = Yields-bind (or_free (decode_varint c.mem c.len_left)) (λ (v, n).
    let d = advance c n in
    Yields-bind (or_free (decode_string d.mem d.len_left))
      (λ (a, m). handshake_tail-Yields (advance d m) v a))

decode_login_start-Yields : (c : Cursor) → Yields (decode_login_start c)
unfolding decode_login_start
decode_login_start-Yields c =
    Yields-bind (or_free (decode_string c.mem c.len_left)) (λ (v, n). fields tt)

decode_encryption_response-Yields : (c : Cursor) → Yields (decode_encryption_response c)
unfolding decode_encryption_response
decode_encryption_response-Yields c =
    Yields-bind (or_free (decode_varint c.mem c.len_left)) (λ (k, n).
      Yields-bind (check (ltb k (2 ^ 31)) bad_secret_length) (λ _.
        let d = advance c n in
        Yields-bind (or_free (read_bytes k d.mem)) (λ secret.
          let d = advance d k in
          Yields-bind (or_free (decode_varint d.mem d.len_left)) (λ (l, m).
            Yields-bind (check (ltb l (2 ^ 31)) bad_token_length)
              (λ _. Yields-bind (or_free (read_bytes l (advance d n).mem)) (λ token. fields tt))))))

decode_ping-Yields : (c : Cursor) → Yields (decode_ping c)
unfolding decode_ping
decode_ping-Yields c =
    Yields-if (ltb c.len_left 8) rejects
      (Yields-bind (or_free (decode_long c.mem)) (λ payload. fields tt))

decode_chat_message-Yields : (c : Cursor) → Yields (decode_chat_message c)
unfolding decode_chat_message
decode_chat_message-Yields c =
    Yields-bind (or_free (decode_string c.mem c.len_left)) (λ (v, n). fields tt)

decode_plugin_message-Yields : (c : Cursor) → Yields (decode_plugin_message c)
unfolding decode_plugin_message
decode_plugin_message-Yields c = Yields-bind (or_free (decode_string c.mem c.len_left)) (λ (v, n).
    let d = advance c n in
    Yields-bind (or_free (read_bytes d.len_left d.mem)) (λ payload. fields tt))

decode_keep_alive-Yields : (c : Cursor) → Yields (decode_keep_alive c)
unfolding decode_keep_alive
decode_keep_alive-Yields c =
    Yields-bind (or_free (decode_varint c.mem c.len_left)) (λ (v, n). fields tt)

decode_teleport_confirm-Yields : (c : Cursor) → Yields (decode_teleport_confirm c)
unfolding decode_teleport_confirm
decode_teleport_confirm-Yields c =
    Yields-bind (or_free (decode_varint c.mem c.len_left)) (λ (v, n). fields tt)

decode_held_item_change-Yields : (c : Cursor) → Yields (decode_held_item_change c)
unfolding decode_held_item_change
decode_held_item_change-Yields c =
    Yields-bind (need c 2) (λ _. Yields-bind (or_free (decode_short c.mem)) (λ slot. fields tt))

decode_player_look-Yields : (c : Cursor) → Yields (decode_player_look c)
unfolding decode_player_look
decode_player_look-Yields c = Yields-bind (take_float c) (λ (yaw, c1).
    Yields-bind (take_float c1) (λ (pitch, c2). Yields-bind (take_bool c2) (λ (b, n). fields tt)))

decode_player_position-Yields : (c : Cursor) → Yields (decode_player_position c)
unfolding decode_player_position
decode_player_position-Yields c = Yields-bind (take_double c) (λ (x, c1).
    Yields-bind (take_double c1) (λ (y, c2).
      Yields-bind (take_double c2) (λ (z, c3). Yields-bind (take_bool c3) (λ (b, n). fields tt))))

decode_player_position_and_look-Yields : (c : Cursor) → Yields (decode_player_position_and_look c)
unfolding decode_player_position_and_look
decode_player_position_and_look-Yields c = Yields-bind (take_double c) (λ (x, c1).
    Yields-bind (take_double c1) (λ (y, c2). Yields-bind (take_double c2) (λ (z, c3).
      Yields-bind (take_float c3) (λ (yaw, c4).
        Yields-bind (take_float c4)
          (λ (pitch, c5). Yields-bind (take_bool c5) (λ (b, n). fields tt))))))

decode_client_settings-Yields : (c : Cursor) → Yields (decode_client_settings c)
unfolding decode_client_settings
decode_client_settings-Yields c =
    Yields-bind (or_free (decode_string c.mem c.len_left)) (λ (locale, n).
      let c1 = advance c n in
      Yields-bind (or_dangling (leb 1 c1.len_left)) (λ _.
        Yields-bind (no_error (decode_byte c1.mem)) (λ view.
          let c2 = advance c1 1 in
          Yields-bind (no_error (decode_varint c2.mem c2.len_left)) (λ (mode, k).
            Yields-bind (chat_mode_of mode) (λ chat_mode.
              let c3 = advance c2 k in
              Yields-bind (or_dangling (leb 1 c3.len_left)) (λ _.
                Yields-bind (no_error (decode_bool c3.mem)) (λ colors.
                  let c4 = advance c3 1 in
                  Yields-bind (or_dangling (leb 1 c4.len_left)) (λ _.
                    Yields-bind (no_error (decode_ubyte c4.mem)) (λ parts.
                      let c5 = advance c4 1 in
                      Yields-bind (no_error (decode_varint c5.mem c5.len_left)) (λ (hand, l).
                        Yields-bind (main_hand_of hand) (λ main_hand. fields tt)))))))))))

decode_play-Yields : (t : PacketType) (c : Cursor) → Yields (decode_play t c)
unfolding decode_play
decode_play-Yields PacketType.pl_sb_chat_message c = decode_chat_message-Yields c
decode_play-Yields PacketType.pl_sb_client_settings c = decode_client_settings-Yields c
decode_play-Yields PacketType.pl_sb_plugin_message c = decode_plugin_message-Yields c
decode_play-Yields PacketType.pl_sb_keep_alive c = decode_keep_alive-Yields c
decode_play-Yields PacketType.pl_sb_player_position c = decode_player_position-Yields c
decode_play-Yields PacketType.pl_sb_player_position_and_look c =
    decode_player_position_and_look-Yields c
decode_play-Yields PacketType.pl_sb_teleport_confirm c = decode_teleport_confirm-Yields c
decode_play-Yields PacketType.pl_sb_player_look c = decode_player_look-Yields c
decode_play-Yields PacketType.pl_sb_held_item_change c = decode_held_item_change-Yields c
decode_play-Yields _ c = rejects

decode_status-Yields : (t : PacketType) (c : Cursor) → Yields (decode_status t c)
unfolding decode_status decode_request
decode_status-Yields PacketType.st_sb_ping c = decode_ping-Yields c
decode_status-Yields PacketType.st_sb_request c = fields tt
decode_status-Yields t c = decode_play-Yields t c

decode_login-Yields : (t : PacketType) (c : Cursor) → Yields (decode_login t c)
unfolding decode_login
decode_login-Yields PacketType.lg_sb_login_start c = decode_login_start-Yields c
decode_login-Yields PacketType.lg_sb_encryption_response c = decode_encryption_response-Yields c
decode_login-Yields t c = decode_status-Yields t c

decode_body-Yields : (state : State) (t : PacketType) (c : Cursor) → Yields (decode_body state t c)
unfolding decode_body
decode_body-Yields State.handshake t c = decode_handshake-Yields c
decode_body-Yields State.login t c = decode_login-Yields t c
decode_body-Yields State.status t c = decode_status-Yields t c
decode_body-Yields State.play t c = decode_play-Yields t c

with_type :
    (t : PacketType) (d : Decoded (Serverbound × ℕ))
    → Yields d
    → Gives {A = PacketType × Serverbound × ℕ}
        (λ p. IsDecodable p.1)
        (d >>= λ (f, n). done (t, f, n))
with_type t (done a) (fields h) = fields h
with_type t (rejected e b) h = rejects
with_type t (zero_after_free e) h = zeros
with_type t (fault x) h = faults

-- A handshake that the decoder accepts asks for the status or for the login.
pub decode_packet-IsDecodable :
    (mem : List ℕ) (state : State) (maxlen : ℕ)
    → Gives (λ p. IsDecodable p.1) (decode_packet mem state maxlen)
unfolding decode_packet
decode_packet-IsDecodable mem state maxlen =
    Yields-bind (or_keep (decode_varint mem maxlen)) (λ (id, n).
      Yields-bind (type_or_keep (get_packet_type (u8 id) state)) (λ t.
        let c = advance (record { mem = mem; len_left = maxlen; pos = 0 }) n in
        with_type t (decode_body state t c) (decode_body-Yields state t c)))
