-- ===== src/Chat.antt =====
-- src/chat/chat.c: chat messages to players.
pub mod Laws
mod Tests
use stronk.Base.{
  ℕ, zero, suc, Bool, true, false, not, List, [], ◌∷◌, Option, none, some, ◌&&◌, if◌then◌else◌,
}
use stronk.Base.{Outcome, ok, fault, ◌>>=◌, Fault, aborted, uninitialised}
use stronk.Packet.Types.{State, ChatMode, ChatPosition}
use stronk.Packet.Outgoing.{Outgoing}
use stronk.Session.{
  Environment, Session, Settings, Player, Written, written, refused, broken, record_sent,
}

pub data ChatType : Type 0 where
  chat system game_info : ChatType

pub record ChatEntry : Type 0 where
  pub msg : List ℕ
  pub position : ChatPosition

unfoldable pub chat_mode_to_index : ChatMode → ℕ
chat_mode_to_index ChatMode.enabled = 0
chat_mode_to_index ChatMode.commands_only = 1
chat_mode_to_index ChatMode.hidden = 2

unfoldable pub chat_type_to_index : ChatType → ℕ
chat_type_to_index ChatType.chat = 0
chat_type_to_index ChatType.system = 1
chat_type_to_index ChatType.game_info = 2

-- By mode, then by type.
abbrev pub should_send_table : List (List Bool)
should_send_table =
    (true ∷ true ∷ true ∷ []) ∷ (false ∷ true ∷ true ∷ []) ∷ (false ∷ false ∷ true ∷ []) ∷ []

-- An entry of an array; the table has one for each index.
abbrev pub entry_at {ℓ} : {A : Type ℓ} → A → List A → ℕ → A
entry_at other [] i = other
entry_at other (x ∷ xs) zero = x
entry_at other (x ∷ xs) (suc i) = entry_at other xs i

unfoldable pub should_send : ChatMode → ChatType → Bool
unfolding chat_mode_to_index chat_type_to_index
should_send mode t =
    entry_at false (entry_at [] should_send_table (chat_mode_to_index mode)) (chat_type_to_index t)

abbrev chat_packet : ChatEntry → State × Outgoing
chat_packet entry = (State.play, Outgoing.chat_message entry.msg entry.position)

abbrev after_chat : Written → Session → ChatEntry → Outcome (Session × Bool)
after_chat written s entry = ok (record_sent s (chat_packet entry), true)
after_chat (refused e) s entry = ok (s, false)
after_chat (broken x) s entry = fault x

unfoldable pub chat_send : Environment → ChatEntry → Session → Outcome (Session × Bool)
chat_send env entry s = after_chat (env.fwrite s.sent (chat_packet entry)) s entry

-- 0 for a failure, 1 for success, 2 where the settings of the player keep the message back.
pub data Sending : Type 0 where
  failure success kept_back : Sending

abbrev sending_of : Session × Bool → Session × Sending
sending_of (s, true) = (s, Sending.success)
sending_of (s, false) = (s, Sending.failure)

abbrev keeps_back : Option Settings → ChatType → Bool
keeps_back none t = false
keeps_back (some settings) t = not (should_send settings.chat_mode t)

-- To the player `p` of the session `s`.
unfoldable pub chat_send_if_appropiate :
    Environment → ChatEntry → ChatType → Player → Session → Outcome (Session × Sending)
unfolding should_send chat_send
chat_send_if_appropiate env entry t p s =
    if keeps_back p.client_settings t
    then ok (s, Sending.kept_back)
    else chat_send env entry s >>= λ r. ok (sending_of r)

-- src/server.c: not implemented, it calls `abort`.
unfoldable pub server_get_players_lock : Outcome (Unit {0})
server_get_players_lock = fault aborted

-- src/server.c: the body is empty, so that the caller reads what was never set.
unfoldable pub server_get_players : Outcome (List (Player × Session))
server_get_players = fault uninitialised

-- The loop over the players.
unfoldable pub send_to_all :
    Environment
    → ChatEntry
    → ChatType
    → List (Player × Session)
    → Outcome (List (Session × Sending))
unfolding chat_send_if_appropiate
send_to_all env entry t [] = ok []
send_to_all env entry t ((p, s) ∷ rest) = do
  here ← chat_send_if_appropiate env entry t p s
  others ← send_to_all env entry t rest
  ok (here ∷ others)

unfoldable pub chat_broadcast :
    Environment → ChatEntry → ChatType → Outcome (List (Session × Sending))
unfolding server_get_players_lock server_get_players send_to_all
chat_broadcast env entry t = do
  lock ← server_get_players_lock
  players ← server_get_players
  send_to_all env entry t players

-- The loop over the players that looks at no settings.
unfoldable pub force_to_all :
    Environment → ChatEntry → List (Player × Session) → Outcome (List (Session × Bool))
unfolding chat_send
force_to_all env entry [] = ok []
force_to_all env entry ((p, s) ∷ rest) = do
  here ← chat_send env entry s
  others ← force_to_all env entry rest
  ok (here ∷ others)

unfoldable pub chat_broadcast_forced : Environment → ChatEntry → Outcome (List (Session × Bool))
unfolding server_get_players_lock server_get_players force_to_all
chat_broadcast_forced env entry = do
  lock ← server_get_players_lock
  players ← server_get_players
  force_to_all env entry players
