-- ===== src/Session/Play.antt =====
-- src/network/packethandlers/play.c: the handlers that do something.
use Prim.Native.String.{String}
use text.Mathlib.Text as Text
use stronk.Base.{ℕ, ◌+◌, Bool, false, Option, none, some, List, [], ◌∷◌, ◌==◌}
use stronk.Base.{if◌then◌else◌, u8, u64, Outcome, ◌>>=◌, null_read, uninitialised}
use stronk.Base.Null.{same_string}
use stronk.Ninerr.{Ninerr}
use stronk.Packet.Types.{State, ClientSettings, ChatPosition}
use stronk.Packet.Outgoing.{Outgoing}
use stronk.Packet.Json.{codes}
use stronk.Chat.{ChatType, chat_broadcast}
use stronk.World.Chunks
use stronk.World.Chunks.{Chunk}
use stronk.Session.{
  Environment, Session, Player, Written, written, refused, broken, HpResultType, plain,
}
use stronk.Session.{Handled, answer, closed_by, send, record_sent}

abbrev pub with_some : Option Player → (Player → Handled) → Handled
with_some none next = Outcome.fault null_read
with_some (some p) next = next p

-- The handlers that read members of `conn->player` do not test whether it is NULL.
abbrev pub with_player : Session → (Player → Handled) → Handled
with_player s next = with_some s.player next

abbrev pub with_settings : Session → Player → Session
with_settings s p = record s { player = some p }

unfoldable pub handle_pl_keep_alive : Environment → Session → Handled
handle_pl_keep_alive env s = with_player s (λ p.
    answer (with_settings s (record p { last_keepalive_received = env.internal_clock }))
      (plain HpResultType.ok))

-- For the brand, mcpr_decode_string gets `data_length` as its limit, which mcpr_decode_packet never
-- sets.
unfoldable pub handle_pl_plugin_message : List ℕ → List ℕ → Session → Handled
unfolding same_string
handle_pl_plugin_message channel content s =
    if same_string channel (codes "MC|BRAND")
    then Outcome.fault uninitialised
    else answer s (plain HpResultType.ok)

unfoldable pub get_chunk : Environment → ℕ → ℕ → Chunk
unfolding Chunks.get_chunk_key Chunks.load_chunk
get_chunk env x z = elim (env.chunks (Chunks.get_chunk_key x z)) [
  | some chunk ↦ chunk
  | none ↦ Chunks.load_chunk
]

abbrev pub if_written : Written → Session → State × Outgoing → Outcome Session
if_written written s pkt = Outcome.ok (record_sent s pkt)
if_written (refused e) s pkt = Outcome.ok s
if_written (broken x) s pkt = Outcome.fault x

abbrev pub chunk_packet : Environment → ℕ → ℕ → State × Outgoing
chunk_packet env x z = (
  State.play,
  Outgoing.chunk_data
      (Chunks.send_chunk_data (get_chunk env x z) x z (Chunks.sends_sky_light env.dimension)),
)

-- What the write of one chunk returns is not looked at.
unfoldable pub send_chunks : Environment → List (ℕ × ℕ) → Session → Outcome Session
unfolding get_chunk Chunks.send_chunk_data Chunks.sends_sky_light
send_chunks env [] s = Outcome.ok s
send_chunks env ((x, z) ∷ rest) s =
    if_written (env.fwrite s.sent (chunk_packet env x z)) s (chunk_packet env x z)
    >>= send_chunks env rest

abbrev pub position_packet : Player → Outgoing
position_packet p = Outgoing.player_position_and_look (record {
  x = p.x;
  y = p.y;
  z = p.z;
  yaw = p.yaw;
  pitch = p.pitch;
  x_is_relative = false;
  y_is_relative = false;
  z_is_relative = false;
  yaw_is_relative = false;
  pitch_is_relative = false;
  teleport_id = 0;
})

-- `strcmp(ninerr->message, "ninerr_closed")`, whose message may be NULL.
abbrev pub by_message : Session → Option String → Handled
by_message s none = Outcome.fault null_read
by_message s (some message) =
    answer s (
      plain (if Text.◌==◌ message "ninerr_closed" then HpResultType.closed else HpResultType.fatal))

abbrev pub settings_refused : Session → Option Ninerr → Handled
settings_refused s none = answer s (plain HpResultType.fatal)
settings_refused s (some e) = by_message s e.message

abbrev pub stored_settings : ClientSettings → Player → Player
stored_settings settings p = record p {
  client_settings = some (record {
    locale = settings.locale;
    view_distance = settings.view_distance;
    chat_mode = settings.chat_mode;
    chat_colors = settings.chat_colors;
    displayed_skin_parts = settings.displayed_skin_parts;
  });
}

abbrev pub settled_in : Player → Session → Handled
settled_in p s =
    answer (with_settings s (record p { last_teleport_id = some 0 })) (plain HpResultType.ok)

-- `world_send_chunk_data1` returns true, so that the test for a negative value never holds.
unfoldable pub place : Environment → Session → Player → Handled
unfolding send_chunks Chunks.world_send_chunk_data1
place env s p = do
  s' ←
      send_chunks env
        (Chunks.world_send_chunk_data1 (env.chunk_of_double p.x) (env.chunk_of_double p.z))
        (with_settings s p)
  send env s' (State.play, position_packet p) (settings_refused s') (settled_in p)

unfoldable pub handle_pl_client_settings : Environment → ClientSettings → Session → Handled
unfolding place
handle_pl_client_settings env settings s =
    with_player s (λ p. place env s (stored_settings settings p))

abbrev pub teleported : Session → Player → ℕ → Handled
teleported s p n =
    answer (with_settings s (record p { last_teleport_id = some (u64 (n + 1)) }))
      (plain HpResultType.ok)

abbrev pub with_last_id : Option ℕ → (ℕ → Handled) → Handled
with_last_id none next = Outcome.fault uninitialised
with_last_id (some n) next = next n

-- The id in the packet is not looked at.
unfoldable pub handle_pl_teleport_confirm : Environment → Session → Handled
unfolding closed_by
handle_pl_teleport_confirm env s = with_player s (λ p. with_last_id p.last_teleport_id (λ n.
    if n == 0
    then send env s (State.play, position_packet p)
        (λ e. answer s (plain (if closed_by e then HpResultType.closed else HpResultType.fatal)))
        (λ s'. teleported s' p n)
    else teleported s p n))

-- The session behind `chat_broadcast`, whose result is not looked at.
abbrev pub after_broadcast {ℓ} : {A : Type ℓ} → Session → Outcome A → Handled
after_broadcast s (Outcome.ok sent) = answer s (plain HpResultType.ok)
after_broadcast s (Outcome.err e) = Outcome.err e
after_broadcast s (Outcome.fault x) = Outcome.fault x

abbrev pub is_command : List ℕ → Bool
is_command [] = false
is_command (c ∷ cs) = c == b'/'

-- The text of the message is sent as it is: the chat text that is made of it is not used.
unfoldable pub handle_pl_chat_message : Environment → List ℕ → Session → Handled
unfolding chat_broadcast
handle_pl_chat_message env msg s =
    if is_command msg
    then answer s (plain HpResultType.ok)
    else after_broadcast s
        (chat_broadcast env (record { msg = msg; position = ChatPosition.chat }) ChatType.chat)

unfoldable pub handle_pl_held_item_change : ℕ → Session → Handled
handle_pl_held_item_change slot s = with_player s (λ p.
    answer (with_settings s (record p { selected_slot = some (u8 slot) })) (plain HpResultType.ok))
