-- ===== src/Network/Tests.antt =====
-- src/network/network.c on the clients of a login.
use stronk.Base.{ℕ, ◌≤◌, ◌≡◌, ◌↔◌, ◌⊎◌, refl, arith, true, false}
use stronk.Base.{List, [], ◌∷◌, length, none, replicate, ok, fault, use_after_free, aborted}
use stronk.Packet.Json.{codes}
use stronk.Packet.Outgoing.{Outgoing}
use stronk.Packet.Types.{State, PacketType, Serverbound}
use stronk.Connection.{
  Receiving, mcpr_connection_new, mcpr_connection_close, mcpr_connection_read_packet,
}
use stronk.Session.{Session, Environment, HpResultType, plain, record_sent, new_session}
use stronk.Session.Login.{player_of}
use stronk.Session.Examples.{
  steve, steve_uuid, friendly, friendly_at, handshake_packet, challenged, response, playing,
}
use stronk.Session.Dispatch.{dispatch}
use stronk.Session.Dispatch.Facts.{Asked, IsValid}
use stronk.Session.Dispatch.Invariant.{Reach, kept_alive_at}
use stronk.Network.{Net, stays, serve, update_client, send_keep_alive, read_loop, check_timeout}
use stronk.Network.Survives.{serve_ping, serve_chat_message}
use stronk.Network.Updates.{update_client-IsValid}
use stronk.Network.Accept.{
  Calls, Accepted, Turn, turn, accept_incoming_connections, connection_close, IsCounted, Splits,
  accept_incoming_connections-IsCounted, connection_close-IsCounted, turn_closes_once_iff,
}
use stronk.Network.Batches.{serve_clients, concat, serve_clients-concat}

abbrev querying : Session
querying = record (new_session 3) { conn = record (new_session 3).conn { state = State.status } }

serve_ping_example :
    (dispatch friendly PacketType.st_sb_ping (Serverbound.ping 77) querying
      ≡ ok (record_sent querying (State.status, Outgoing.pong 77), plain HpResultType.closed))
    × (serve friendly PacketType.st_sb_ping (Serverbound.ping 77) querying ≡ fault use_after_free)
serve_ping_example = serve_ping friendly 77 querying refl refl

serve_chat_message_example :
    serve friendly PacketType.pl_sb_chat_message (Serverbound.chat_message (codes "hello")) playing
    ≡ fault aborted
unfolding dispatch new_session
serve_chat_message_example = serve_chat_message friendly (codes "hello") playing refl refl

-- Fifteen seconds behind the login: the client gets a keep alive packet.
abbrev later : Environment
later = friendly_at (record { tv_sec = 115; tv_nsec = 0 })

abbrev nothing_received : Receiving
nothing_received = record { content = replicate 256 0; max_size = 256; size = 0 }

abbrev kept : Session
kept =
    kept_alive_at playing (player_of friendly steve_uuid steve)
      (record { tv_sec = 115; tv_nsec = 0 })

abbrev asked : PacketType → Serverbound → Asked
asked type fields = record { env = friendly; type = type; fields = fields }

abbrev login_packets : List Asked
login_packets =
    asked PacketType.lg_sb_encryption_response response
    ∷ asked PacketType.lg_sb_login_start (Serverbound.login_start steve)
    ∷ asked PacketType.hs_sb_handshake handshake_packet
    ∷ []

playing_Reach : Reach login_packets playing
unfolding dispatch new_session
playing_Reach =
    Reach.handled friendly PacketType.lg_sb_encryption_response response
      (Reach.handled friendly PacketType.lg_sb_login_start (Serverbound.login_start steve)
        (Reach.handled friendly PacketType.hs_sb_handshake handshake_packet (Reach.accepted 3) tt
          refl tt)
        tt refl tt)
      tt refl tt

update_client_lem : update_client later 63 (nothing_received ∷ []) playing ≡ ok (stays kept)
unfolding update_client send_keep_alive read_loop check_timeout mcpr_connection_read_packet
    mcpr_connection_new dispatch new_session player_of
update_client_lem = refl

update_client-IsValid_example : (h : List Asked) × Reach h kept × IsValid h kept
update_client-IsValid_example =
    update_client-IsValid later 63 (nothing_received ∷ []) playing kept playing_Reach
      update_client_lem

abbrev all_well : Calls
all_well = record {
  nonblocking = true;
  opened = true;
  unbuffered = true;
  created = true;
  allocated = true;
  appended = true;
}

abbrev not_allocated : Calls
not_allocated = record all_well { allocated = false }

abbrev two_clients : Net
two_clients = record { clients = (16, challenged) ∷ (32, new_session 3) ∷ []; client_count = 2 }

two_clients-IsCounted : IsCounted two_clients
two_clients-IsCounted = record { counted = refl; fits = omega arith }

abbrev answers : List Accepted
answers =
    Accepted.connected 48 all_well ∷ Accepted.connected 64 not_allocated ∷ Accepted.would_block ∷ []

accept_incoming_connections-IsCounted_example :
    IsCounted (accept_incoming_connections 5 answers two_clients)
accept_incoming_connections-IsCounted_example =
    accept_incoming_connections-IsCounted 5 answers two_clients two_clients-IsCounted (omega arith)

abbrev one_client : Net
one_client = record { clients = (16, challenged) ∷ []; client_count = 1 }

connection_close-IsCounted_example :
    IsCounted one_client × (s : Session) × Splits 32 s two_clients.clients one_client.clients
unfolding connection_close mcpr_connection_close mcpr_connection_new dispatch new_session
connection_close-IsCounted_example =
    connection_close-IsCounted 32 none two_clients one_client two_clients-IsCounted refl

turn_closes_once_iff_example : (turn not_allocated ≡ Turn.dropped 1) ↔ (
    (not_allocated.nonblocking ≡ false)
    ⊎ ((not_allocated.opened ≡ true)
        × (not_allocated.unbuffered ≡ true)
        × (not_allocated.created ≡ false)))
turn_closes_once_iff_example = turn_closes_once_iff not_allocated

abbrev seven : List ℕ
seven = 1 ∷ 2 ∷ 3 ∷ 4 ∷ 5 ∷ 6 ∷ 7 ∷ []

serve_clients-concat_example :
    (batches : List (List ℕ)) × (serve_clients 3 (length seven) seven ≡ ok batches)
    × (concat batches ≡ seven)
    × (length batches ≤ 3)
serve_clients-concat_example =
    serve_clients-concat 3 seven (omega arith) (omega arith) (omega arith)
