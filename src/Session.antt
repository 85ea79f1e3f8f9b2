-- ===== src/Session.antt =====
-- The session of one client: struct connection of src/network/connection.h, struct player of
-- src/network/player.h, struct hp_result of src/network/packethandlers/packethandlers.h, and what
-- the handlers take from outside.
pub mod Handshake
pub mod Status
pub mod Login
pub mod Play
pub mod Ignored
pub mod Dispatch
pub mod Examples
use stronk.Base.{ℕ, Bool, true, false, Option, none, some, List, [], ◌∷◌, ◌++◌, Outcome, Fault}
use stronk.Codec.Position.{Position}
use stronk.Timespec.{Timespec}
use stronk.Uuid.{Ninuuid}
use stronk.Ninerr.{Ninerr, ninerr_is}
use stronk.Packet.Types.{State, Gamemode, Dimension, ChatMode, SkinParts}
use stronk.Packet.Outgoing.{Outgoing}
use stronk.Packet.Json.{codes}
use stronk.Crypto.{mcpr_as_chat}
use stronk.Connection
use stronk.Connection.{Conn}
use stronk.World.Chunks.{Chunk}

-- `client_settings` of a player; the main hand is never set.
pub record Settings : Type 0 where
  pub locale : List ℕ
  pub view_distance : ℕ
  pub chat_mode : ChatMode
  pub chat_colors : Option Bool
  pub displayed_skin_parts : SkinParts

-- Members of type double and float are bit patterns. `client_settings` is an option for
-- `client_settings_known`; a member that `create_player` does not set is an option too.
pub record Player : Type 0 where
  pub entity_id : ℕ
  pub username : List ℕ
  pub uuid : Ninuuid
  pub client_brand : Option (List ℕ)
  pub x : ℕ
  pub y : ℕ
  pub z : ℕ
  pub yaw : ℕ
  pub pitch : ℕ
  pub compass_target : Position
  pub invulnerable : Bool
  pub is_flying : Bool
  pub flying_speed : ℕ
  pub allow_flying : Bool
  pub gamemode : Gamemode
  pub client_settings : Option Settings
  pub selected_slot : Option ℕ
  pub last_teleport_id : Option ℕ
  pub last_keepalive_received : Timespec
  pub last_keepalive_sent : Timespec

-- The members of `tmp`: none where nothing is stored, or what was stored has been freed. The key
-- is the number of the key pair.
pub record Tmp : Type 0 where
  pub rsa : Option ℕ
  pub verify_token : Option (List ℕ)
  pub username : Option (List ℕ)

-- struct connection. `sent` are the packets that `pktstream` took, in their order; `ctx` is the
-- secret that the cipher contexts of `conn` were made with.
pub record Session : Type 0 where
  pub conn : Conn
  pub ctx : Option (List ℕ)
  pub sent : List (State × Outgoing)
  pub server_address_used : Option (List ℕ)
  pub port_used : Option ℕ
  pub player : Option Player
  pub connected_at : ℕ
  pub tmp_present : Bool
  pub tmp : Tmp

-- `fwrite` of one packet: taken; or not, with the thread's `ninerr` then; or a fault on the way.
pub data Written : Type 0 where
  written : Written
  refused : Option Ninerr → Written
  broken : Fault → Written

-- What the handlers take from the system, from OpenSSL, the session server (src/mapi/mapi.c), the
-- server's clock and the world. `fwrite` may depend on all that was written before: stdio keeps it in
-- its buffer, or hands it to mcpr_connection_write_packet of src/mcpr/connection.c, which may refuse
-- it, or break in the encoder. It is any function here, that one among them.
pub record Environment : Type 0 where
  pub fwrite : List (State × Outgoing) → State × Outgoing → Written
  pub rsa_generate_key : List (State × Outgoing) → ℕ
  pub i2d_rsa_pubkey : ℕ → Option (List ℕ)
  pub rsa_size : ℕ → ℕ
  pub rsa_private_decrypt : ℕ → List ℕ → Option (List ℕ)
  pub encrypt_init : List ℕ → Bool
  pub decrypt_init : List ℕ → Bool
  pub sha1 : List ℕ → Option (List ℕ)
  pub secure_random : ℕ → Option (List ℕ)
  pub has_joined : List ℕ → List ℕ → Option (List ℕ) → Option Ninuuid
  pub internal_clock : Timespec
  pub entity_id_counter : ℕ
  pub chunk_of_double : ℕ → ℕ
  pub chunks : ℕ → Option Chunk
  pub dimension : Dimension

pub data HpResultType : Type 0 where
  ok err fatal closed : HpResultType

pub record HpResult : Type 0 where
  pub result : HpResultType
  pub disconnect_message : Option (List ℕ)
  pub free_disconnect_message : Bool

-- A result with no message.
abbrev pub plain : HpResultType → HpResult
plain type = record { result = type; disconnect_message = none; free_disconnect_message = false }

abbrev pub fatal_with : List ℕ → HpResult
fatal_with reason = record {
  result = HpResultType.fatal;
  disconnect_message = some reason;
  free_disconnect_message = true;
}

abbrev pub login_failed : HpResult
login_failed = fatal_with (mcpr_as_chat (codes "A fatal error occurred whilst logging in."))

-- A handler gives the session behind it, and its result.
abbrev pub Handled : Type 0
Handled = Outcome (Session × HpResult)

abbrev pub answer : Session → HpResult → Handled
answer s r = Outcome.ok (s, r)

-- `ninerr != NULL && strcmp(ninerr->type, "ninerr_closed") == 0`
unfoldable pub closed_by : Option Ninerr → Bool
unfolding ninerr_is
closed_by none = false
closed_by (some e) = ninerr_is e "ninerr_closed"

abbrev pub record_sent : Session → State × Outgoing → Session
record_sent s pkt = record s { sent = s.sent ++ (pkt ∷ []) }

-- `if(fwrite(...) == 0)` with its branches.
abbrev pub after_fwrite : Written → (Option Ninerr → Handled) → Handled → Handled
after_fwrite written failed next = next
after_fwrite (refused e) failed next = failed e
after_fwrite (broken x) failed next = Outcome.fault x

abbrev pub send :
    Environment
    → Session
    → State × Outgoing
    → (Option Ninerr → Handled)
    → (Session → Handled)
    → Handled
send env s pkt failed next = after_fwrite (env.fwrite s.sent pkt) failed (next (record_sent s pkt))

abbrev pub set_state : Session → State → Session
set_state s state = record s { conn = Connection.mcpr_connection_set_state s.conn state }

-- The session that `accept_incoming_connections` of src/network/network.c sets up.
unfoldable pub new_session : ℕ → Session
unfolding Connection.mcpr_connection_new
new_session time = record {
  conn = Connection.mcpr_connection_new;
  ctx = none;
  sent = [];
  server_address_used = none;
  port_used = none;
  player = none;
  connected_at = time;
  tmp_present = false;
  tmp = record { rsa = none; verify_token = none; username = none };
}
