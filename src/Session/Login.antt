-- ===== src/Session/Login.antt =====
-- src/network/packethandlers/login.c
pub mod Response
use Prim.Native.String.{String}
use text.Mathlib.Text.{◌==◌}
use stronk.Base.{ℕ, ◌-◌, ◌^◌, Bool, true, false, Option, none, some, List, [], ◌∷◌, length, ltb}
use stronk.Base.{if◌then◌else◌, Outcome, Fault, uninitialised, null_read}
use stronk.Codec.Text.{encode_string}
use stronk.Uuid.{Ninuuid, generate}
use stronk.Ninerr.{Ninerr, ninerr_is}
use stronk.Packet.Types.{State, Gamemode, Dimension, Difficulty, Level}
use stronk.Packet.Outgoing.{Outgoing}
use stronk.Packet.Json.{codes}
use stronk.World.Chunks.{generate_new_entity_id}
use stronk.Session.{Environment, Session, Player, HpResult, HpResultType, plain, login_failed}
use stronk.Session.{Handled, answer, closed_by, send, set_state}

unfoldable pub is_auth_required : List ℕ → Bool
is_auth_required username = true

-- The player of a session, with the user name that is stored there.
unfoldable pub player_of : Environment → Ninuuid → List ℕ → Player
unfolding generate_new_entity_id
player_of env uuid username = record {
  entity_id = generate_new_entity_id env.entity_id_counter;
  username = username;
  uuid = uuid;
  client_brand = none;
  x = 0;
  y = 0x4060000000000000;
  z = 0;
  yaw = 0;
  pitch = 0;
  compass_target = record { x = 0; y = 70; z = 0 };
  invulnerable = true;
  is_flying = true;
  flying_speed = 0x3F800000;
  allow_flying = true;
  gamemode = Gamemode.survival;
  client_settings = none;
  selected_slot = none;
  last_teleport_id = none;
  last_keepalive_received = env.internal_clock;
  last_keepalive_sent = env.internal_clock;
}

-- What `send_post_login_sequence` returns: there `free_disconnect_message` is always set.
abbrev pub post : HpResultType → HpResult
post type = record { result = type; disconnect_message = none; free_disconnect_message = true }

abbrev pub post_refused : Session → Option Ninerr → Handled
post_refused s e = answer s (post (if closed_by e then HpResultType.closed else HpResultType.fatal))

abbrev pub join_game : Player → Outgoing
join_game p = Outgoing.join_game (record {
  entity_id = p.entity_id;
  gamemode = p.gamemode;
  hardcore = false;
  dimension = Dimension.overworld;
  difficulty = Difficulty.peaceful;
  max_players = 255;
  level_type = Level.default;
  reduced_debug_info = false;
})

abbrev pub player_abilities : Player → Outgoing
player_abilities p = Outgoing.player_abilities (record {
  invulnerable = p.invulnerable;
  is_flying = p.is_flying;
  allow_flying = p.allow_flying;
  creative_mode = false;
  flying_speed = p.flying_speed;
  field_of_view_modifier = 0x3F800000;
})

-- The text of the server's brand in its buffer.
abbrev pub with_brand : Session → Outcome (List ℕ) → (List ℕ → Handled) → Handled
with_brand s (Outcome.ok brand) next = next brand
with_brand s (Outcome.err e) next = answer s (post HpResultType.fatal)
with_brand s (Outcome.fault x) next = Outcome.fault x

-- Writes one behind the other, each with the same branches for a failure.
unfoldable pub send_each :
    Environment → List (State × Outgoing) → Session → (Session → Handled) → Handled
unfolding closed_by
send_each env [] s next = next s
send_each env (pkt ∷ pkts) s next =
    send env s pkt (post_refused s) (λ s'. send_each env pkts s' next)

-- The packets behind the first.
abbrev pub entry_packets : Player → List ℕ → List (State × Outgoing)
entry_packets p brand =
    (State.play, Outgoing.plugin_message (codes "MC|BRAND") brand)
    ∷ (State.play, Outgoing.spawn_position p.compass_target)
    ∷ (State.play, player_abilities p)
    ∷ []

abbrev pub sequence_sent : Session → Handled
sequence_sent s = answer s (post HpResultType.ok)

-- From the brand on.
unfoldable pub send_brand : Environment → Player → Session → Handled
unfolding encode_string send_each
send_brand env p s =
    with_brand s (encode_string (codes "Stronk"))
      (λ brand. send_each env (entry_packets p brand) s sequence_sent)

unfoldable pub send_post_login_sequence : Environment → Player → Session → Handled
unfolding send_each send_brand
send_post_login_sequence env p s =
    send_each env ((State.play, join_game p) ∷ []) s (send_brand env p)

-- `ninerr != NULL && ninerr->message != NULL && strcmp(ninerr->message, "ninerr_closed") == 0`
abbrev message_is_closed : Option String → Bool
message_is_closed none = false
message_is_closed (some message) = message == "ninerr_closed"

unfoldable pub message_closed_by : Option Ninerr → Bool
message_closed_by none = false
message_closed_by (some e) = message_is_closed e.message

abbrev pub remember : Session → ℕ → List ℕ → List ℕ → Session
remember s rsa token name = record s {
  tmp_present = true;
  tmp = record { rsa = some rsa; verify_token = some token; username = some name };
}

-- Behind the random token.
unfoldable pub with_token : Environment → List ℕ → List ℕ → Session → Option (List ℕ) → Handled
unfolding message_closed_by
with_token env key name s none = answer s login_failed
with_token env key name s (some token) =
    send env s (State.login, Outgoing.encryption_request [] key token)
      (λ e.
        if message_closed_by e then answer s (plain HpResultType.closed) else answer s login_failed)
      (λ s'. answer (remember s' (env.rsa_generate_key s.sent) token name) (plain HpResultType.ok))

-- Behind the encoding of the public key.
unfoldable pub with_key : Environment → List ℕ → Session → Option (List ℕ) → Handled
unfolding with_token
with_key env name s none = answer s login_failed
with_key env name s (some key) =
    if ltb (2 ^ 31 - 1) (length key)
    then answer s login_failed
    else with_token env key name s (env.secure_random 16)

-- `malloc` succeeds. The key and the token are kept once the request is written.
unfoldable pub request_encryption : Environment → List ℕ → Session → Handled
unfolding with_key
request_encryption env name s =
    with_key env name s (env.i2d_rsa_pubkey (env.rsa_generate_key s.sent))

-- `strcmp(ninerr->type, "ninerr_closed") == 0`, with no test whether there is an error.
unfoldable pub closed_by_type {ℓ} : {A : Type ℓ} → Option Ninerr → Outcome A → Outcome A → Outcome A
unfolding ninerr_is
closed_by_type none closed other = Outcome.fault null_read
closed_by_type (some e) closed other = if ninerr_is e "ninerr_closed" then closed else other

-- The branch for a client that needs no authentication.
unfoldable pub login_without_auth : Environment → List ℕ → Session → Handled
unfolding generate player_of send_post_login_sequence closed_by_type
login_without_auth env name s = elim (generate (env.secure_random 16) 4) [
  | Outcome.fault x ↦ Outcome.fault x
  | Outcome.err e ↦ Outcome.err e
  | Outcome.ok none ↦ answer s (plain HpResultType.fatal)
  | Outcome.ok (some uuid) ↦
      send env s (State.login, Outgoing.login_success uuid name)
        (λ e.
          closed_by_type e (answer s (plain HpResultType.closed))
            (answer s (plain HpResultType.fatal)))
        (λ s'.
          let p = player_of env uuid name in
          send_post_login_sequence env p (record (set_state s' State.play) { player = some p }))
]

unfoldable pub handle_lg_login_start : Environment → List ℕ → Session → Handled
unfolding is_auth_required request_encryption login_without_auth
handle_lg_login_start env name s =
    let s' = record s {
      tmp = record { rsa = s.tmp.rsa; verify_token = s.tmp.verify_token; username = some name };
    } in
    if is_auth_required name then request_encryption env name s' else login_without_auth env name s'
