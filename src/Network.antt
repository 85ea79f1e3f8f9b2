-- ===== src/Network.antt =====
-- src/network/network.c: packet_handler, do_timeout, update_client and connection_close for one
-- client, and the list of clients.
pub mod Survives
pub mod Updates
pub mod Reaches
pub mod Accept
pub mod Batches
mod Tests
use stronk.Base.{ℕ, ◌+◌, ◌-◌, ◌%◌, ◌^◌, Bool, true, false, not, Option, none, some, List, [], ◌∷◌}
use stronk.Base.{◌==◌, ltb, if◌then◌else◌, Outcome, ok, fault, ◌>>=◌, Fault, use_after_free, exited}
use stronk.Packet.Types.{State, PacketType, Serverbound}
use stronk.Packet.Outgoing.{Outgoing}
use stronk.Packet.Json.{codes}
use stronk.Crypto.{mcpr_as_chat}
use stronk.Timespec.{Timespec, timespec_diff, lt64, sub64}
use stronk.Connection
use stronk.Connection.{Conn, Receiving, Closing, Received, with_buffer, mcpr_connection_close}
use stronk.Connection.{mcpr_connection_read_packet}
use stronk.Session.{
  Environment, Session, Player, Written, written, refused, broken, HpResult, HpResultType,
}
use stronk.Session.{record_sent}
use stronk.Session.Login.{closed_by_type}
use stronk.Session.Dispatch.{dispatch}

-- `clients` and `client_count`; a client has the address of its struct connection.
pub record Net : Type 0 where
  pub clients : List (ℕ × Session)
  pub client_count : ℕ

-- A connection after packet_handler, or after update_client: it is still there, or
-- `connection_close` is called with a reason.
pub data Fate : Type 0 where
  stays : Session → Fate
  leaves : Option (List ℕ) → Session → Fate

-- The label `finish`.
abbrev pub finish_of : HpResultType → Option (List ℕ) → Session → Fate
finish_of HpResultType.fatal message s = leaves message s
finish_of HpResultType.closed message s = leaves message s
finish_of HpResultType.ok message s = stays s
finish_of HpResultType.err message s = stays s

abbrev pub finish : Session → HpResult → Fate
finish s r = finish_of r.result r.disconnect_message s

abbrev pub handled : Outcome (Session × HpResult) → Outcome Fate
handled (ok (s, r)) = ok (finish s r)
handled (Outcome.err e) = Outcome.err e
handled (fault x) = fault x

unfoldable pub packet_handler : Environment → PacketType → Serverbound → Session → Outcome Fate
unfolding dispatch
packet_handler env type fields s = handled (dispatch env type fields s)

-- The part of `connection_close` that closes the connection itself.
abbrev pub closing_fault : Closing → Fault → Fault
closing_fault (Closing.closed conn) x = x
closing_fault (Closing.stuck frames y) x = y

-- `packet_handler(&pkt, conn); continue;`: what it returns is not looked at, so that behind a
-- `connection_close` the stream is read from the freed connection.
abbrev pub and_continue : Outcome Fate → Outcome Session
and_continue (ok (stays s)) = ok s
and_continue (ok (leaves reason s)) =
    fault (closing_fault (mcpr_connection_close s.conn reason) use_after_free)
and_continue (Outcome.err e) = Outcome.err e
and_continue (fault x) = fault x

unfoldable pub serve : Environment → PacketType → Serverbound → Session → Outcome Session
unfolding packet_handler mcpr_connection_close
serve env type fields s = and_continue (packet_handler env type fields s)

abbrev pub with_conn : Session → Conn → Session
with_conn s conn = record s { conn = conn }

-- One turn of the loop of update_client: `next` is the rest of it. A packet that the decoder freed
-- is handled all the same.
abbrev pub after_read :
    Environment → Session → Received → (Session → Outcome Session) → Outcome Session
after_read env s (Received.packet type fields conn) next =
    serve env type fields (with_conn s conn) >>= next
after_read env s (Received.nothing conn) next = ok (with_conn s conn)
after_read env s (Received.freed conn) next = fault use_after_free
after_read env s (Received.stopped x) next = fault x

-- The loop; the list has the receiving buffer as `update_receiving_buffer` leaves it at each read.
unfoldable pub read_loop : Environment → List Receiving → Session → Outcome Session
unfolding serve
read_loop env [] s = ok s
read_loop env (buf ∷ bufs) s =
    after_read env s (mcpr_connection_read_packet (with_buffer s.conn buf)) (read_loop env bufs)

-- `diff.tv_sec >= n` for the time since `since`.
abbrev pub passed : Environment → Timespec → ℕ → Bool
passed env since n = not (lt64 (timespec_diff since env.internal_clock).tv_sec n)

abbrev pub kept_alive : Written → Session → Player → Timespec → Outcome Fate
kept_alive written s p now = ok (
    stays (record (record_sent s (State.play, Outgoing.keep_alive 0)) {
      player = some (record p { last_keepalive_sent = now });
    }))
kept_alive (refused e) s p now = closed_by_type e (ok (leaves none s)) (ok (stays s))
kept_alive (broken x) s p now = fault x

abbrev pub keep_alive_for : Environment → Session → Option Player → Outcome Fate
keep_alive_for env s none = ok (stays s)
keep_alive_for env s (some p) =
    if passed env p.last_keepalive_sent 10
    then kept_alive (env.fwrite s.sent (State.play, Outgoing.keep_alive 0)) s p env.internal_clock
    else ok (stays s)

-- The first part of update_client.
unfoldable pub send_keep_alive : Environment → Session → Outcome Fate
unfolding timespec_diff
send_keep_alive env s = keep_alive_for env s s.player

-- `time(NULL) - conn->connected_at > 60` on signed numbers.
abbrev pub waited_too_long : ℕ → ℕ → Bool
waited_too_long time connected_at = lt64 60 (sub64 time connected_at)

-- The reason that do_timeout gives.
abbrev pub timeout_reason : List ℕ
timeout_reason = mcpr_as_chat (codes "Timed out. (server-side)")

abbrev pub timed_out : Bool → Session → Fate
timed_out true s = leaves (some timeout_reason) s
timed_out false s = stays s

abbrev pub last_received : Environment → Option Player → Bool
last_received env none = false
last_received env (some p) = passed env p.last_keepalive_received 30

-- The last part of update_client. `had_player` is what `conn->player` was at its start.
unfoldable pub check_timeout : Environment → ℕ → Bool → Session → Fate
unfolding timespec_diff
check_timeout env time had_player s =
    if had_player
    then timed_out (last_received env s.player) s
    else timed_out (waited_too_long time s.connected_at) s

abbrev pub has_player : Option Player → Bool
has_player none = false
has_player (some p) = true

abbrev pub go_on : Fate → (Session → Outcome Fate) → Outcome Fate
go_on (stays s) next = next s
go_on (leaves reason s) next = ok (leaves reason s)

unfoldable pub update_client : Environment → ℕ → List Receiving → Session → Outcome Fate
unfolding send_keep_alive read_loop check_timeout
update_client env time bufs s = do
  fate ← send_keep_alive env s
  go_on fate
      (λ s1. do s2 ← read_loop env bufs s1; ok (check_timeout env time (has_player s.player) s2))
