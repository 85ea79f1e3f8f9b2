-- ===== src/Session/Status.antt =====
-- src/network/packethandlers/status.c
use stronk.Base.{ℕ, List, none, if◌then◌else◌}
use stronk.Packet.Types.{State}
use stronk.Packet.Outgoing.{Outgoing, Response}
use stronk.Packet.Json.{codes}
use stronk.Crypto.{mcpr_as_chat}
use stronk.Session.{Environment, Session, HpResultType, plain, Handled, answer, closed_by, send}
use stronk.Session.Handshake.{protocol_version_number, minecraft_version}

-- net_get_max_players
abbrev pub net_get_max_players : ℕ
net_get_max_players = 999

-- net_get_motd
abbrev pub net_get_motd : List ℕ
net_get_motd = mcpr_as_chat (codes "A bloody stronk server.")

abbrev pub server_response : Response
server_response = record {
  version_name = minecraft_version;
  protocol_version = protocol_version_number;
  max_players = net_get_max_players;
  online_players = 999;
  description = net_get_motd;
  favicon = none;
  player_sample = none;
}

unfoldable pub handle_st_request : Environment → Session → Handled
unfolding closed_by
handle_st_request env s =
    send env s (State.status, Outgoing.response server_response)
      (λ e. answer s (plain (if closed_by e then HpResultType.closed else HpResultType.err)))
      (λ s'. answer s' (plain HpResultType.ok))

-- The result is HP_RESULT_CLOSED where the pong was written.
unfoldable pub handle_st_ping : Environment → ℕ → Session → Handled
unfolding closed_by
handle_st_ping env payload s =
    send env s (State.status, Outgoing.pong payload)
      (λ e. answer s (plain (if closed_by e then HpResultType.closed else HpResultType.err)))
      (λ s'. answer s' (plain HpResultType.closed))
