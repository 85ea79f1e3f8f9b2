-- ===== src/Network/Reaches.antt =====
-- update_client of src/network/network.c keeps a session among those that can come about.
use stronk.Base.{ℕ, ◌+◌, ◌-◌, ◌^◌, Bool, true, false, List, [], ◌∷◌, none, ◌≡◌, refl}
use stronk.Base.{Outcome, ok, err, fault, ◌>>=◌, Error, Fault, if◌then◌else◌}
use stronk.Base.{◌==◌, leb, drop}
use stronk.Codec.Varint.{decode_varint}
use stronk.Packet.Cursor
use stronk.Packet.Cursor.{Decoded}
use stronk.Packet.Decode.Next
use stronk.Packet.Decode.Next.{IsDecodable, Gives, decode_packet-IsDecodable}
use stronk.Packet.Outgoing.{Outgoing}
use stronk.Packet.Types.{State, PacketType, Serverbound}
use stronk.Connection.{Conn, Receiving, Closing, Received, with_buffer, marked_closed}
use stronk.Connection.{
  mcpr_connection_close, mcpr_connection_read_packet, after_length, after_decode,
}
use stronk.Connection.{
  closing_again, mcpr_connection_stream_close, after_close, after_write, reason_or_default,
  mcpr_connection_write_packet,
}
use stronk.Session.{Environment, Session}
use stronk.Session.Dispatch.Invariant.{Reach, Reachable}
use stronk.Network.{serve, after_read, read_loop}
use stronk.Network.Survives.{serve_iff}

-- What a read makes of the connection `c`: a packet for which the decoder vouches, or nothing, and
-- the receiving buffer at most, or the mark that it is closed.
data From (c : Conn) : Received → Type 0 where
  packet :
      {type : PacketType} {fields : Serverbound} (buf : Receiving)
      → IsDecodable fields
      → From c (Received.packet type fields (with_buffer c buf))
  same : From c (Received.nothing c)
  shut : From c (Received.nothing (marked_closed c))
  freed : {d : Conn} → From c (Received.freed d)
  stopped : {x : Fault} → From c (Received.stopped x)

stream_close-From :
    (c : Conn) (frames : List (List ℕ))
    → From c (after_close (mcpr_connection_stream_close c frames))
unfolding mcpr_connection_stream_close
stream_close-From c frames =
    let again =
      mcpr_connection_write_packet c.state (Outgoing.disconnect (reason_or_default none)) in
    elim c.is_closed
      as (λ b. From c (
        after_close (if b then Closing.closed (marked_closed c) else closing_again frames again))) [
          | true ↦ shut
          | false ↦ again-From again
        ]
  where
    again-From : (o : Outcome (List ℕ)) → From c (after_close (closing_again frames o))
    again-From (ok l) = stopped
    again-From (err e) = stopped
    again-From (fault x) = stopped

closed-From : (c : Conn) (o : Outcome (List ℕ)) → From c (after_close (after_write c o))
closed-From c (ok l) = stream_close-From c (l ∷ [])
closed-From c (err e) = stream_close-From c []
closed-From c (fault x) = stopped

close-From : (c : Conn) → From c (after_close (mcpr_connection_close c none))
unfolding mcpr_connection_close
close-From c =
    let pkt = Outgoing.disconnect (reason_or_default none) in
    elim c.is_closed
      as (λ b. From c (
        after_close (
          if b then Closing.closed c else elim c.state [
            | State.handshake ↦ Closing.closed (marked_closed c)
            | State.status ↦ Closing.closed (marked_closed c)
            | State.login ↦ after_write c (mcpr_connection_write_packet State.login pkt)
            | State.play ↦ after_write c (mcpr_connection_write_packet State.play pkt)
          ]))) [
            | true ↦ same
            | false ↦
                elim c.state
                  as (λ st. From c (
                    after_close (elim st [
                      | State.handshake ↦ Closing.closed (marked_closed c)
                      | State.status ↦ Closing.closed (marked_closed c)
                      | State.login ↦ after_write c (mcpr_connection_write_packet State.login pkt)
                      | State.play ↦ after_write c (mcpr_connection_write_packet State.play pkt)
                    ]))) [
                      | State.handshake ↦ shut
                      | State.status ↦ shut
                      | State.login ↦ closed-From c (mcpr_connection_write_packet State.login pkt)
                      | State.play ↦ closed-From c (mcpr_connection_write_packet State.play pkt)
                    ]
          ]

From-if : {c : Conn} {x y : Received} (b : Bool) → From c x → From c y → From c (if b then x else y)
From-if true hx hy = hx
From-if false hx hy = hy

after_decode-From :
    (c : Conn) (n : ℕ) (d : Decoded (PacketType × Serverbound × ℕ))
    → Gives (λ p. IsDecodable p.1) d
    → From c (after_decode c n d)
after_decode-From c n (Cursor.done (t, f, m)) (Next.fields h) =
    From-if (leb (m + n) c.receiving_buf.size) (packet _ h) stopped
after_decode-From c n (Cursor.rejected e b) h = close-From c
after_decode-From c n (Cursor.zero_after_free e) h = freed
after_decode-From c n (Cursor.fault x) h = stopped

after_length-From : (c : Conn) (o : Outcome (ℕ × ℕ)) → From c (after_length c o)
after_length-From c (ok (len, n)) = From-if (len == 0) same (
    From-if (leb (2 ^ 31) len) same (
      From-if (leb len (c.receiving_buf.size - n))
        (after_decode-From c n _
          (decode_packet-IsDecodable (drop n c.receiving_buf.content) c.state len))
        same))
after_length-From c (err e) = same
after_length-From c (fault x) = stopped

read_packet-From : (c : Conn) → From c (mcpr_connection_read_packet c)
unfolding mcpr_connection_read_packet
read_packet-From c =
    From-if (c.receiving_buf.size == 0) same
      (after_length-From c (decode_varint c.receiving_buf.content c.receiving_buf.size))

-- A property of the session that a part of update_client leaves.
pub data Leaves (P : Session → Type 0) : Outcome Session → Type 0 where
  with : {t : Session} → P t → Leaves P (ok t)
  errs : {e : Error} → Leaves P (err e)
  faults : {x : Fault} → Leaves P (fault x)

Leaves-bind :
    {P Q : Session → Type 0} {o : Outcome Session} {k : Session → Outcome Session}
    → Leaves P o
    → ((t : Session) → P t → Leaves Q (k t))
    → Leaves Q (o >>= k)
Leaves-bind (with h) f = f _ h
Leaves-bind errs f = errs
Leaves-bind faults f = faults

serve-Reach :
    (env : Environment) (type : PacketType) (fields : Serverbound) (s : Session)
    → Reachable s
    → IsDecodable fields
    → Leaves Reachable (serve env type fields s)
serve-Reach env type fields s r leads = reached (serve env type fields s) refl
  where
    reached : (o : Outcome Session) → serve env type fields s ≡ o → Leaves Reachable o
    reached (ok t) e =
        let (res, dispatched, o) = (serve_iff env type fields s t).0 e in
        with (_, Reach.handled env type fields r.1 leads dispatched o)
    reached (err x) e = errs
    reached (fault x) e = faults

after_read-Reach :
    (env : Environment) (s : Session) (buf : Receiving) (received : Received)
    (next : Session → Outcome Session)
    → Reachable s
    → From (with_buffer s.conn buf) received
    → ((t : Session) → Reachable t → Leaves Reachable (next t))
    → Leaves Reachable (after_read env s received next)
after_read-Reach env s buf _ next r (packet {type} {fields} buf' h) go =
    Leaves-bind
      (serve-Reach env type fields _ (r.0, Reach.received buf' (Reach.received buf r.1)) h) go
after_read-Reach env s buf _ next r same go = with (r.0, Reach.received buf r.1)
after_read-Reach env s buf _ next r shut go = with (r.0, Reach.shut (Reach.received buf r.1))
after_read-Reach env s buf _ next r freed go = faults
after_read-Reach env s buf _ next r stopped go = faults

pub read_loop-Leaves :
    (env : Environment) (bufs : List Receiving) (s : Session)
    → Reachable s
    → Leaves Reachable (read_loop env bufs s)
unfolding read_loop
read_loop-Leaves env [] s r = with r
read_loop-Leaves env (buf ∷ bufs) s r =
    after_read-Reach env s buf (mcpr_connection_read_packet (with_buffer s.conn buf))
      (read_loop env bufs) r (read_packet-From (with_buffer s.conn buf)) (read_loop-Leaves env bufs)
