-- ===== src/Network/Survives.antt =====
-- Which packets the loop of update_client in src/network/network.c survives.
use stronk.Base.{ℕ, List, Option, ◌≡◌, ◌↔◌, refl, ap, false, Outcome, ok, fault}
use stronk.Base.{use_after_free, aborted, Bool-cases, inl, inr}
use stronk.Packet.Outgoing.{Outgoing}
use stronk.Packet.Types.{State, PacketType, Serverbound}
use stronk.Connection.{mcpr_connection_close}
use stronk.Session.{
  Environment, Session, written, record_sent, plain, HpResult, HpResultType, Handled,
}
use stronk.Session.Status.{handle_st_ping}
use stronk.Session.Play.{handle_pl_chat_message, is_command}
use stronk.Session.Dispatch.{dispatch, dispatch_in, dispatch_status, dispatch_play}
use stronk.Session.Dispatch.Facts.{StaysOpen}
use stronk.Network.{finish_of, handled, packet_handler, and_continue, serve}

finish_of_open :
    (s t : Session) (type : HpResultType) (message : Option (List ℕ))
    → and_continue (ok (finish_of type message s)) ≡ ok t
    → StaysOpen type × (s ≡ t)
finish_of_open s t HpResultType.ok message e = (tt, cc)
finish_of_open s t HpResultType.err message e = (tt, cc)
finish_of_open s t HpResultType.fatal message e = absurd (cc)
finish_of_open s t HpResultType.closed message e = absurd (cc)

serve_back :
    (t : Session) (h : Handled)
    → and_continue (handled h) ≡ ok t
    → (r : HpResult) × (h ≡ ok (t, r)) × StaysOpen r.result
serve_back t (Outcome.ok (s, r)) e =
    let (open_result, same) = finish_of_open s t r.result r.disconnect_message e in
    (r, ap (λ u. ok (u, r)) same, open_result)
serve_back t (Outcome.err x) e = absurd (cc)
serve_back t (Outcome.fault x) e = absurd (cc)

serve_on :
    (t : Session) (type : HpResultType) (message : Option (List ℕ))
    → StaysOpen type
    → and_continue (ok (finish_of type message t)) ≡ ok t
serve_on t HpResultType.ok message open_result = refl
serve_on t HpResultType.err message open_result = refl
serve_on t HpResultType.fatal message open_result = elim open_result [ ]
serve_on t HpResultType.closed message open_result = elim open_result [ ]

-- The loop of update_client goes on with a session behind a packet exactly where the handler
-- returned that session, with a result that leaves the connection open.
pub serve_iff :
    (env : Environment) (type : PacketType) (fields : Serverbound) (s t : Session)
    → (serve env type fields s ≡ ok t)
      ↔ ((r : HpResult) × (dispatch env type fields s ≡ ok (t, r)) × StaysOpen r.result)
unfolding serve packet_handler
serve_iff env type fields s t = (
  serve_back t (dispatch env type fields s),
  λ (r, e, o). rw e (serve_on t r.result r.disconnect_message o),
)

-- A ping in the status state whose pong the stream takes is answered with just that pong, with the
-- payload of the ping, and closes the connection; then the loop reads from the freed connection.
pub serve_ping :
    (env : Environment) (payload : ℕ) (s : Session)
    → s.conn.state ≡ State.status
    → env.fwrite s.sent (State.status, Outgoing.pong payload) ≡ written
    → (dispatch env PacketType.st_sb_ping (Serverbound.ping payload) s
        ≡ ok (record_sent s (State.status, Outgoing.pong payload), plain HpResultType.closed))
      × (serve env PacketType.st_sb_ping (Serverbound.ping payload) s ≡ fault use_after_free)
unfolding serve packet_handler dispatch handle_st_ping mcpr_connection_close
serve_ping env payload s here took = (
  rw (here, took, dispatch_in, dispatch_status, handle_st_ping) refl,
  rw (here, took, dispatch_in, dispatch_status, handle_st_ping)
      (elim (Bool-cases s.conn.is_closed) [
        | inl shut ↦ rw (shut, mcpr_connection_close) refl
        | inr live ↦ rw (live, mcpr_connection_close) refl
      ]),
)

-- A chat message that is not a command aborts the server, whoever is connected.
pub serve_chat_message :
    (env : Environment) (message : List ℕ) (s : Session)
    → s.conn.state ≡ State.play
    → is_command message ≡ false
    → serve env PacketType.pl_sb_chat_message (Serverbound.chat_message message) s ≡ fault aborted
unfolding serve packet_handler dispatch handle_pl_chat_message
serve_chat_message env message s here said =
    rw (here, dispatch_in, dispatch_play, handle_pl_chat_message, said) refl
