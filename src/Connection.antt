-- ===== src/Connection.antt =====
-- src/mcpr/connection.c: packets over a byte stream, one behind the other, each with its length.
pub mod Receive
pub mod Frames
pub mod Write
mod Tests
use stronk.Base.{
  ℕ, ◌+◌, ◌-◌, ◌*◌, ◌^◌, ◌≤◌, Bool, true, false, List, [], ◌∷◌, ◌++◌, length, take, drop, replicate,
}
use stronk.Base.{
  Option, none, some, ltb, leb, ◌==◌, if◌then◌else◌, Outcome, ok, err, fault, ◌>>=◌, ◌>>◌, guard,
}
use stronk.Base.{Error, Fault, arithmetic, no_reason, over_write, over_read, closed_twice}
use stronk.Codec.Varint.{encode_varint, varint_bounds, decode_varint}
use stronk.Packet.Types.{State, PacketType, Serverbound}
use stronk.Packet.Outgoing.{Outgoing}
use stronk.Packet.Encode.Main.{encode_packet}
use stronk.Packet.Encode.Bounds.{encode_packet_bounds}
use stronk.Packet.Cursor
use stronk.Packet.Cursor.{Decoded}
use stronk.Packet.Decode.Main.{decode_packet}

-- `receiving_buf`: the allocated bytes, `max_size` of them, and how many are counted as received.
pub record Receiving : Type 0 where
  pub content : List ℕ
  pub max_size : ℕ
  pub size : ℕ

-- struct conn, without its streams, contexts and the members that nothing in the file reads.
pub record Conn : Type 0 where
  pub is_closed : Bool
  pub state : State
  pub use_compression : Bool
  pub use_encryption : Bool
  pub receiving_buf : Receiving

-- MCPR_VARINT_SIZE_MAX
abbrev pub varint_size_max : ℕ
varint_size_max = 5

-- `bytes` stored at `at` in a buffer.
abbrev pub store_at : List ℕ → ℕ → List ℕ → List ℕ
store_at buf at bytes = take at buf ++ (bytes ++ drop (at + length bytes) buf)

-- BLOCK_SIZE is 1, the block size of a cipher in CFB8 mode.
unfoldable pub mcpr_connection_new : Conn
mcpr_connection_new = record {
  is_closed = false;
  state = State.handshake;
  use_compression = false;
  use_encryption = false;
  receiving_buf = record { content = replicate 256 0; max_size = 256; size = 0 };
}

abbrev pub mcpr_connection_set_use_encryption : Conn → Bool → Conn
mcpr_connection_set_use_encryption conn value = record {
  is_closed = conn.is_closed;
  state = conn.state;
  use_compression = conn.use_compression;
  use_encryption = value;
  receiving_buf = conn.receiving_buf;
}

abbrev pub mcpr_connection_set_state : Conn → State → Conn
mcpr_connection_set_state conn state = record {
  is_closed = conn.is_closed;
  state = state;
  use_compression = conn.use_compression;
  use_encryption = conn.use_encryption;
  receiving_buf = conn.receiving_buf;
}

abbrev pub mcpr_connection_set_compression : Conn → Bool → Conn
mcpr_connection_set_compression conn compression = record {
  is_closed = conn.is_closed;
  state = conn.state;
  use_compression = compression;
  use_encryption = conn.use_encryption;
  receiving_buf = conn.receiving_buf;
}

-- The conn with `is_closed` set, and with another receiving buffer.
abbrev pub marked_closed : Conn → Conn
marked_closed conn = record {
  is_closed = true;
  state = conn.state;
  use_compression = conn.use_compression;
  use_encryption = conn.use_encryption;
  receiving_buf = conn.receiving_buf;
}

abbrev pub with_buffer : Conn → Receiving → Conn
with_buffer conn buf = record {
  is_closed = conn.is_closed;
  state = conn.state;
  use_compression = conn.use_compression;
  use_encryption = conn.use_encryption;
  receiving_buf = buf;
}

-- The layout in `mcpr_connection_write_packet`: the packet at offset 5 of the allocated buffer,
-- and its length so before it that the two touch.
unfoldable pub framed : List ℕ → ℕ → ℕ → Outcome (List ℕ)
framed out pktlen required =
    if ltb required (varint_size_max + length out)
    then fault over_write
    else if pktlen == 0
    then err no_reason
    else if ltb (2 ^ 31 - 1) pktlen
    then err arithmetic
    else let buf = store_at (replicate required 0) varint_size_max out in
      let skip = varint_size_max - varint_bounds pktlen in
      let prefix = encode_varint pktlen in
      ok (take (pktlen + length prefix) (drop skip (store_at buf skip prefix)))

-- mcpr_connection_write_packet, up to its call of `mcpr_connection_write`: what is handed to that.
-- An error is the return value false. The state is the packet's.
unfoldable pub mcpr_connection_write_packet : State → Outgoing → Outcome (List ℕ)
unfolding framed
mcpr_connection_write_packet state pkt = do
  bound ← encode_packet_bounds state pkt
  (out, pktlen) ← encode_packet state pkt
  framed out pktlen (varint_size_max + bound)

-- The JSON text "Disconnected by server.".
abbrev default_reason : List ℕ
default_reason =
    b'{' ∷ b'"' ∷ b't' ∷ b'e' ∷ b'x' ∷ b't' ∷ b'"' ∷ b':' ∷ b'"' ∷ b'D' ∷ b'i' ∷ b's' ∷ b'c' ∷ b'o'
    ∷ b'n' ∷ b'n' ∷ b'e' ∷ b'c' ∷ b't' ∷ b'e' ∷ b'd' ∷ b' ' ∷ b'b' ∷ b'y' ∷ b' ' ∷ b's' ∷ b'e'
    ∷ b'r' ∷ b'v' ∷ b'e' ∷ b'r' ∷ b'.' ∷ b'"' ∷ b'}' ∷ []

abbrev pub reason_or_default : Option (List ℕ) → List ℕ
reason_or_default none = default_reason
reason_or_default (some reason) = reason

-- The connection behind a close, or the frames that were written until a fault.
pub data Closing : Type 0 where
  closed : Conn → Closing
  stuck : List (List ℕ) → Fault → Closing

-- The call of mcpr_connection_close behind its write, where it was made by the `fclose` of another
-- such call: its own `fclose` is of a stream that is being closed.
abbrev pub closing_again : List (List ℕ) → Outcome (List ℕ) → Closing
closing_again before (ok frame) = stuck (before ++ (frame ∷ [])) closed_twice
closing_again before (err e) = stuck before closed_twice
closing_again before (fault x) = stuck before x

-- `fclose(conn->pktstream)` calls the cookie's close function mcpr_connection_stream_close, which
-- calls mcpr_connection_close with no reason, before `is_closed` has been set; where it is set,
-- that call does nothing. The connection is in the login or the play state.
unfoldable pub mcpr_connection_stream_close : Conn → List (List ℕ) → Closing
mcpr_connection_stream_close conn before =
    if conn.is_closed
    then closed (marked_closed conn)
    else closing_again before
        (mcpr_connection_write_packet conn.state (Outgoing.disconnect (reason_or_default none)))

-- What the write returns is not looked at, but a fault in it is one.
abbrev pub after_write : Conn → Outcome (List ℕ) → Closing
after_write conn (ok frame) = mcpr_connection_stream_close conn (frame ∷ [])
after_write conn (err e) = mcpr_connection_stream_close conn []
after_write conn (fault x) = stuck [] x

-- The state of the packet is `conn->state`, and its id always that of the play state.
unfoldable pub mcpr_connection_close : Conn → Option (List ℕ) → Closing
unfolding mcpr_connection_stream_close
mcpr_connection_close conn reason =
    let pkt = Outgoing.disconnect (reason_or_default reason) in
    if conn.is_closed then closed conn else elim conn.state [
      | State.handshake ↦ closed (marked_closed conn)
      | State.status ↦ closed (marked_closed conn)
      | State.login ↦ after_write conn (mcpr_connection_write_packet State.login pkt)
      | State.play ↦ after_write conn (mcpr_connection_write_packet State.play pkt)
    ]

-- What `mcpr_connection_read_packet` does: a packet for the caller; the return value false; or
-- the return value true for a packet that the decoder freed.
pub data Received : Type 0 where
  packet : PacketType → Serverbound → Conn → Received
  nothing : Conn → Received
  freed : Conn → Received
  stopped : Fault → Received

-- The `memmove`, and the smaller size. `bytes_read + result` above the size wraps round in both.
abbrev pub consumed : Receiving → ℕ → Receiving
consumed buf n = record {
  content = drop n (take buf.size buf.content) ++ drop (buf.size - n) buf.content;
  max_size = buf.max_size;
  size = buf.size - n;
}

abbrev pub after_close : Closing → Received
after_close (closed conn) = nothing conn
after_close (stuck frames x) = stopped x

-- Behind the call of mcpr_decode_packet; `result` is the size of the length.
abbrev pub after_decode : Conn → ℕ → Decoded (PacketType × Serverbound × ℕ) → Received
after_decode conn result (Cursor.done (type, fields, bytes_read)) =
    if leb (bytes_read + result) conn.receiving_buf.size
    then packet type fields (with_buffer conn (consumed conn.receiving_buf (bytes_read + result)))
    else stopped over_read
after_decode conn result (Cursor.rejected e f) = after_close (mcpr_connection_close conn none)
after_decode conn result (Cursor.zero_after_free e) =
    freed (with_buffer conn (consumed conn.receiving_buf result))
after_decode conn result (Cursor.fault x) = stopped x

-- Behind the decoding of the length, which is an error unless it is positive as an int32_t.
abbrev pub after_length : Conn → Outcome (ℕ × ℕ) → Received
after_length conn (ok (pktlen, result)) =
    if pktlen == 0
    then nothing conn
    else if leb (2 ^ 31) pktlen
    then nothing conn
    else if leb pktlen (conn.receiving_buf.size - result)
    then after_decode conn result
        (decode_packet (drop result conn.receiving_buf.content) conn.state pktlen)
    else nothing conn
after_length conn (err e) = nothing conn
after_length conn (fault x) = stopped x

-- mcpr_connection_read_packet, behind its call of `update_receiving_buffer`.
unfoldable pub mcpr_connection_read_packet : Conn → Received
unfolding mcpr_connection_close
mcpr_connection_read_packet conn =
    if conn.receiving_buf.size == 0
    then nothing conn
    else after_length conn (decode_varint conn.receiving_buf.content conn.receiving_buf.size)
