-- ===== src/Chat/Laws.antt =====
-- Which messages of src/chat/chat.c reach a player.
use stronk.Base.{◌≤◌, ◌≡◌, ◌↔◌, arith, Bool, true, false}
use stronk.Base.{some}
use stronk.Packet.Types.{ChatMode}
use stronk.Session.{Session, Settings}
use stronk.Base.{ltb, Option, none}
use stronk.Packet.Outgoing.{Outgoing}
use stronk.Chat.{ChatType, should_send, chat_mode_to_index, chat_type_to_index}

-- A message is sent exactly if the mode's rank is at most that of the message's type, where chat
-- ranks below system and system below game_info, enabled below commands_only and that below hidden.
pub should_send_iff :
    (mode : ChatMode) (t : ChatType)
    → (should_send mode t ≡ true) ↔ (chat_mode_to_index mode ≤ chat_type_to_index t)
unfolding should_send chat_mode_to_index chat_type_to_index
should_send_iff ChatMode.enabled ChatType.chat = ground arith
should_send_iff ChatMode.enabled ChatType.system = ground arith
should_send_iff ChatMode.enabled ChatType.game_info = ground arith
should_send_iff ChatMode.commands_only ChatType.chat = ground arith
should_send_iff ChatMode.commands_only ChatType.system = ground arith
should_send_iff ChatMode.commands_only ChatType.game_info = ground arith
should_send_iff ChatMode.hidden ChatType.chat = ground arith
should_send_iff ChatMode.hidden ChatType.system = ground arith
should_send_iff ChatMode.hidden ChatType.game_info = ground arith

-- The client's mode ranks above the type; a client that sent no settings has no mode.
abbrev pub ranks_below : ChatType → Option Settings → Bool
ranks_below t none = false
ranks_below t (some settings) = ltb (chat_type_to_index t) (chat_mode_to_index settings.chat_mode)
