-- ===== src/Chat/Tests.antt =====
-- src/chat/chat.c with a player who wants no chat.
use stronk.Base.{some, true, false}
use stronk.Packet.Json.{codes}
use stronk.Packet.Types.{ChatMode, ChatPosition}
use stronk.Session.{Settings, Player}
use stronk.Session.Login.{player_of}
use stronk.Session.Examples.{friendly, steve, steve_uuid}
use stronk.Chat.{ChatEntry}

abbrev hello : ChatEntry
hello = record { msg = codes "hello"; position = ChatPosition.chat }

abbrev quiet : Settings
quiet = record {
  locale = codes "en_GB";
  view_distance = 8;
  chat_mode = ChatMode.hidden;
  chat_colors = some true;
  displayed_skin_parts = record {
    cape_enabled = true;
    jacket_enabled = true;
    left_sleeve_enabled = true;
    right_sleeve_enabled = true;
    left_pants_enabled = true;
    right_pants_enabled = true;
    hat_enabled = false;
  };
}

abbrev quiet_steve : Player
quiet_steve = record (player_of friendly steve_uuid steve) { client_settings = some quiet }
