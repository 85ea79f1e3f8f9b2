-- ===== src/Connection/Frames.antt =====
-- Packets written to and read from a connection of src/mcpr/connection.c.
use stronk.Base.{
  ℕ, ◌+◌, ◌-◌, ◌^◌, ◌≤◌, ◌<◌, ◌≡◌, refl, ap, ◌∙◌, sym, arith, true, false, ltb, leb, ◌==◌,
}
use stronk.Base.{
  List, ◌++◌, length, take, drop, replicate, length-append, length-take, length-replicate,
}
use stronk.Base.{take-length_append, take-length_add, drop-length_append, append_assoc, ok}
use stronk.Base.{closed_twice}
use stronk.Codec.Varint.{encode_varint, varint_bounds, decode_varint}
use stronk.Codec.Varint.Encode.{varint_bounds-length, length-encode_varint}
use stronk.Codec.Varint.RoundTrip.{decode_varint-encode_varint}
use stronk.Packet.Types.{State, PacketType, Serverbound}
use stronk.Packet.Outgoing.{Outgoing}
use stronk.Packet.Encode.Main.{encode_packet}
use stronk.Packet.Encode.Bounds.{encode_packet_bounds}
use stronk.Packet.Encode.Bounds.Enough.{HasBound, length-encode_packet}
use stronk.Packet.Cursor.{done}
use stronk.Packet.Decode.Main.{decode_packet}
use stronk.Connection.{Conn, Receiving, varint_size_max, framed, mcpr_connection_write_packet}
use stronk.Connection.{
  packet, nothing, with_buffer, consumed, mcpr_connection_read_packet, mcpr_connection_close,
}
use stronk.Base.{◌⊎◌, inl, inr, some}
use stronk.Codec.Text.{encode_chat, encode_string}
use stronk.Packet.Ids.{packet_type_to_byte}
use stronk.Packet.Encode.{encode_id}
use stronk.Packet.Encode.Play.{encode_disconnect}
use stronk.Packet.Encode.Main.{encode_case}
use stronk.Packet.Encode.Bounds.{bounds_case}
use stronk.Base.{[], ◌∷◌, none}
use stronk.Connection.{after_write, stuck, reason_or_default, mcpr_connection_stream_close}

drop_front : (n : ℕ) (xs ys : List ℕ) → length xs ≡ n → drop n (xs ++ ys) ≡ ys
drop_front n xs ys e = rw (← e) (drop-length_append xs ys)

-- The length and the packet touch.
framed_lem :
    (out : List ℕ) (required : ℕ)
    → 5 + length out ≤ required
    → 0 < length out
    → length out < 2 ^ 31
    → framed out (length out) required ≡ ok (encode_varint (length out) ++ out)
unfolding framed
framed_lem out required room filled small =
    let prefix = encode_varint (length out) in
    let fits : ltb required (5 + length out) ≡ false = ground arith in
    let not_empty : (length out == 0) ≡ false = ground arith in
    let bound : varint_bounds (length out) ≡ length prefix =
      varint_bounds-length (length out) (omega arith) in
    let p = length prefix in
    let k = varint_size_max - p in
    let zeros : List ℕ = replicate required 0 in
    let zeros_size = length-replicate {A = ℕ} required 0 in
    let head = take 5 zeros in
    let tail = drop (5 + length out) zeros in
    let head_size : length head ≡ 5 = omega (arith, length-take 5 zeros) in
    let reaches : k + p ≡ 5 = omega (arith, length-encode_varint (length out)) in
    let before = take k (head ++ (out ++ tail)) in
    let before_size : length before ≡ k =
      omega (arith, length-take k (head ++ (out ++ tail)), length-append head (out ++ tail)) in
    let behind : drop (k + p) (head ++ (out ++ tail)) ≡ out ++ tail =
      rw reaches (drop_front 5 head (out ++ tail) head_size) in
    let order : length out + p ≡ p + length out = omega arith in
    let allowed : ltb (2 ^ 31 - 1) (length out) ≡ false = ground arith in
    rw
      (
        fits,
        not_empty,
        allowed,
        bound,
        behind,
        drop_front k before (prefix ++ (out ++ tail)) before_size,
        order,
      )
      (ap ok (
        take-length_add prefix (out ++ tail) (length out)
        ∙ ap (λ l. prefix ++ l) (take-length_append out tail)))

-- A packet that is no chat message and no chunk data, for which mcpr_encode_packet_bounds gives a
-- bound, and that is encoded to between 1 and 2 ^ 31 - 1 bytes, is written as
-- those bytes with their number as a varint before them, and the allocated buffer is not overrun.
pub mcpr_connection_write_packet_frame :
    (state : State) (pkt : Outgoing) (out : List ℕ) (b : ℕ)
    → HasBound pkt
    → encode_packet state pkt ≡ ok (out, length out)
    → encode_packet_bounds state pkt ≡ ok b
    → 0 < length out
    → length out < 2 ^ 31
    → mcpr_connection_write_packet state pkt ≡ ok (encode_varint (length out) ++ out)
unfolding mcpr_connection_write_packet
mcpr_connection_write_packet_frame state pkt out b h e bound filled small =
    let room = length-encode_packet state pkt out (length out) b h e bound in
    rw (bound, e) (framed_lem out (5 + b) (omega arith) filled small)

-- A whole frame at the front of the buffer, of a packet that decodes to all of its bytes: the
-- packet is handed out, and the buffer keeps the bytes behind the frame, which may be none, in
-- order.
pub mcpr_connection_read_packet_frame :
    (conn : Conn) (wire rest spare : List ℕ) (type : PacketType) (fields : Serverbound)
    → conn.receiving_buf.content ≡ encode_varint (length wire) ++ ((wire ++ rest) ++ spare)
    → conn.receiving_buf.size ≡ length (encode_varint (length wire) ++ (wire ++ rest))
    → 0 < length wire
    → length wire < 2 ^ 31
    → decode_packet ((wire ++ rest) ++ spare) conn.state (length wire)
      ≡ done (type, fields, length wire)
    → (buf : Receiving) × (mcpr_connection_read_packet conn
        ≡ packet type fields (with_buffer conn buf))
      × (buf.size ≡ length rest)
      × (take buf.size buf.content ≡ rest)
unfolding mcpr_connection_read_packet
mcpr_connection_read_packet_frame conn wire rest spare type fields c s pos small decodes =
    let prefix = encode_varint (length wire) in
    let buf = conn.receiving_buf in
    let p = length-append prefix (wire ++ rest) in
    let w = length-append wire rest in
    let bounds = length-encode_varint (length wire) in
    let some_bytes : (buf.size == 0) ≡ false = ground (arith, s, p, bounds) in
    let len_ok : decode_varint buf.content buf.size ≡ ok (length wire, length prefix) =
      rw (c, s)
        (decode_varint-encode_varint (length wire) ((wire ++ rest) ++ spare) _ (omega arith)
          (omega arith)) in
    let not_zero : (length wire == 0) ≡ false = ground (arith, pos) in
    let not_negative : leb (2 ^ 31) (length wire) ≡ false = ground (arith, small) in
    let arrived : leb (length wire) (buf.size - length prefix) ≡ true = ground (arith, s, p, w) in
    let body : drop (length prefix) buf.content ≡ (wire ++ rest) ++ spare =
      rw c (drop-length_append prefix ((wire ++ rest) ++ spare)) in
    let inside : leb (length wire + length prefix) buf.size ≡ true = ground (arith, s, p, w) in
    let n = length wire + length prefix in
    let left : buf.size - n ≡ length rest = omega (arith, s, p, w) in
    let all = prefix ++ (wire ++ rest) in
    let front : take buf.size buf.content ≡ all =
      rw (c, s)
        (ap (take (length all)) (sym (append_assoc prefix (wire ++ rest) spare))
          ∙ take-length_append all spare) in
    let behind : drop n all ≡ rest =
      ap (drop n) (sym (append_assoc prefix wire rest))
      ∙ drop_front n (prefix ++ wire) rest (omega (arith, length-append prefix wire)) in
    let kept : take (buf.size - n)
          (drop n (take buf.size buf.content) ++ drop (buf.size - n) buf.content)
        ≡ rest =
      rw (left, front, behind) (take-length_append rest (drop (length rest) buf.content)) in
    rw (some_bytes, len_ok, not_zero, not_negative, arrived, body, decodes, inside)
      (consumed buf (length wire + length prefix), refl, left, kept)

-- A frame that has not arrived whole: its length is known, and fewer bytes are behind it. Nothing
-- is handed out, and the connection stays as it is.
pub mcpr_connection_read_packet_waits :
    (conn : Conn) (pktlen n : ℕ)
    → 0 < conn.receiving_buf.size
    → decode_varint conn.receiving_buf.content conn.receiving_buf.size ≡ ok (pktlen, n)
    → conn.receiving_buf.size < n + pktlen
    → mcpr_connection_read_packet conn ≡ nothing conn
unfolding mcpr_connection_read_packet
mcpr_connection_read_packet_waits conn pktlen n pos e short = ground (arith, e)

-- The frame of a disconnect packet: its length, the id of the play state, and the reason.
abbrev pub disconnect_frame : List ℕ → List ℕ
disconnect_frame reason =
    let out = encode_varint 0x1A ++ (encode_varint (length reason) ++ reason) in
    encode_varint (length out) ++ out

disconnect_written :
    (state : State) (reason : List ℕ)
    → (state ≡ State.login) ⊎ (state ≡ State.play)
    → length reason < 2 ^ 30
    → let out = encode_varint 0x1A ++ (encode_varint (length reason) ++ reason) in
      mcpr_connection_write_packet state (Outgoing.disconnect reason)
      ≡ ok (encode_varint (length out) ++ out)
unfolding encode_packet encode_case encode_disconnect encode_id packet_type_to_byte encode_chat
    encode_string encode_packet_bounds bounds_case
disconnect_written state reason s small =
    let out = encode_varint 0x1A ++ (encode_varint (length reason) ++ reason) in
    let fits : ltb (2 ^ 31 - 1) (length reason) ≡ false = ground arith in
    let size : (0 < length out) × (length out < 2 ^ 31) = omega (
      arith,
      length-append (encode_varint 0x1A) (encode_varint (length reason) ++ reason),
      length-append (encode_varint (length reason)) reason,
      length-encode_varint 0x1A,
      length-encode_varint (length reason),
    ) in
    let encoded : encode_packet state (Outgoing.disconnect reason) ≡ ok (out, length out) = elim s [
      | inl login ↦ rw (login, fits) refl
      | inr play ↦ rw (play, fits) refl
    ] in
    let bounded : encode_packet_bounds state (Outgoing.disconnect reason)
        ≡ ok (10 + length reason) =
      elim s [ inl login ↦ rw login refl | inr play ↦ rw play refl ] in
    mcpr_connection_write_packet_frame state (Outgoing.disconnect reason) out (10 + length reason)
      tt encoded bounded size.0 size.1

mcpr_connection_stream_close_lem :
    (conn : Conn) (before : List (List ℕ))
    → conn.is_closed ≡ false
    → (conn.state ≡ State.login) ⊎ (conn.state ≡ State.play)
    → mcpr_connection_stream_close conn before
      ≡ stuck (before ++ (disconnect_frame (reason_or_default none) ∷ [])) closed_twice
unfolding mcpr_connection_stream_close
mcpr_connection_stream_close_lem conn before o s =
    simp (o, disconnect_written conn.state (reason_or_default none) s (omega arith)) refl

-- Closing an open connection in the login or the play state writes the disconnect packet with the
-- reason, its id that of the play state in both; then, as the stream's own close function closes the
-- connection again, a second one with the default reason; and then the stream is closed while it is
-- being closed, so that the call never completes. The reason is shorter than 2 ^ 30.
pub mcpr_connection_close_reenters :
    (conn : Conn) (reason : List ℕ)
    → conn.is_closed ≡ false
    → (conn.state ≡ State.login) ⊎ (conn.state ≡ State.play)
    → length reason < 2 ^ 30
    → mcpr_connection_close conn (some reason)
      ≡ stuck
          (disconnect_frame reason ∷ disconnect_frame (reason_or_default none) ∷ [])
          closed_twice
unfolding mcpr_connection_close
mcpr_connection_close_reenters conn reason o s small =
    let pkt = Outgoing.disconnect reason in
    let opened : mcpr_connection_close conn (some reason)
        ≡ after_write conn (mcpr_connection_write_packet conn.state pkt) =
      elim s [ inl login ↦ simp (o, login) refl | inr play ↦ simp (o, play) refl ] in
    opened
    ∙ ap (after_write conn) (disconnect_written conn.state reason s small)
    ∙ mcpr_connection_stream_close_lem conn (disconnect_frame reason ∷ []) o s
