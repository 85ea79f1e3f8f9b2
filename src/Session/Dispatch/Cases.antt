-- ===== src/Session/Dispatch/Cases.antt =====
-- The switches of packet_handler in src/network/network.c keep a session valid, case by case.
use stronk.Base.{false, List, ◌≡◌}
use stronk.Packet.Types.{State, PacketType, Serverbound}
use stronk.Session.{Environment, Session, Player}
use stronk.Session.Dispatch.{
  dispatch_play, dispatch_in, dispatch_handshake, dispatch_status, dispatch_login,
}
use stronk.Session.Dispatch.Facts.{Asked, Phase, Post, returns, faults, Follows, phase_in, ValidIn}
use stronk.Session.Dispatch.Early.{
  handle_hs_handshake-Follows, handle_st_request-Follows, handle_st_ping-Follows,
  handle_lg_login_start-Follows,
}
use stronk.Packet.Decode.Next.{IsDecodable}
use mathlib.Core.List.{Memᴰ}
use stronk.Session.Dispatch.Entering.{handle_lg_encryption_response-Follows}
use stronk.Session.Dispatch.Playing.{
  InPlay, handle_pl_chat_message-Follows, handle_pl_client_settings-Follows,
  handle_pl_held_item_change-Follows, handle_pl_keep_alive-Follows,
  handle_pl_plugin_message-Follows, handle_pl_teleport_confirm-Follows, stays,
}

-- Every case of the switch.
pub dispatch_play-Follows :
    {h : List Asked} (env : Environment) (type : PacketType) (fields : Serverbound) (s : Session)
    (p : Player)
    → InPlay h s p
    → Post (Follows h Phase.playing type) (dispatch_play env type fields s)
unfolding dispatch_play
dispatch_play-Follows env PacketType.pl_sb_teleport_confirm fields s p i =
    handle_pl_teleport_confirm-Follows _ _ env s p i
dispatch_play-Follows env PacketType.pl_sb_keep_alive fields s p i =
    handle_pl_keep_alive-Follows _ _ env s p i
dispatch_play-Follows env PacketType.pl_sb_chat_message (Serverbound.chat_message msg) s p i =
    handle_pl_chat_message-Follows _ _ env s p i msg
dispatch_play-Follows env PacketType.pl_sb_client_settings (Serverbound.client_settings settings) s
      p i =
    handle_pl_client_settings-Follows _ env settings s p i
dispatch_play-Follows env PacketType.pl_sb_plugin_message
      (Serverbound.plugin_message channel content) s p i =
    handle_pl_plugin_message-Follows _ _ env s p i channel content
dispatch_play-Follows env PacketType.pl_sb_held_item_change (Serverbound.held_item_change slot) s p
      i =
    handle_pl_held_item_change-Follows _ _ env s p i slot
dispatch_play-Follows env PacketType.pl_sb_tab_complete fields s p i = returns (stays _ _ s p _ i)
dispatch_play-Follows env PacketType.pl_sb_client_status fields s p i = returns (stays _ _ s p _ i)
dispatch_play-Follows env PacketType.pl_sb_confirm_transaction fields s p i =
    returns (stays _ _ s p _ i)
dispatch_play-Follows env PacketType.pl_sb_enchant_item fields s p i = returns (stays _ _ s p _ i)
dispatch_play-Follows env PacketType.pl_sb_click_window fields s p i = returns (stays _ _ s p _ i)
dispatch_play-Follows env PacketType.pl_sb_close_window fields s p i = returns (stays _ _ s p _ i)
dispatch_play-Follows env PacketType.pl_sb_use_entity fields s p i = returns (stays _ _ s p _ i)
dispatch_play-Follows env PacketType.pl_sb_player_position fields s p i =
    returns (stays _ _ s p _ i)
dispatch_play-Follows env PacketType.pl_sb_player_position_and_look fields s p i =
    returns (stays _ _ s p _ i)
dispatch_play-Follows env PacketType.pl_sb_player_look fields s p i = returns (stays _ _ s p _ i)
dispatch_play-Follows env PacketType.pl_sb_player fields s p i = returns (stays _ _ s p _ i)
dispatch_play-Follows env PacketType.pl_sb_vehicle_move fields s p i = returns (stays _ _ s p _ i)
dispatch_play-Follows env PacketType.pl_sb_steer_boat fields s p i = returns (stays _ _ s p _ i)
dispatch_play-Follows env PacketType.pl_sb_player_abilities fields s p i =
    returns (stays _ _ s p _ i)
dispatch_play-Follows env PacketType.pl_sb_player_digging fields s p i = returns (stays _ _ s p _ i)
dispatch_play-Follows env PacketType.pl_sb_entity_action fields s p i = returns (stays _ _ s p _ i)
dispatch_play-Follows env PacketType.pl_sb_steer_vehicle fields s p i = returns (stays _ _ s p _ i)
dispatch_play-Follows env PacketType.pl_sb_resource_pack_status fields s p i =
    returns (stays _ _ s p _ i)
dispatch_play-Follows env PacketType.pl_sb_creative_inventory_action fields s p i =
    returns (stays _ _ s p _ i)
dispatch_play-Follows env PacketType.pl_sb_update_sign fields s p i = returns (stays _ _ s p _ i)
dispatch_play-Follows env PacketType.pl_sb_animation fields s p i = returns (stays _ _ s p _ i)
dispatch_play-Follows env PacketType.pl_sb_spectate fields s p i = returns (stays _ _ s p _ i)
dispatch_play-Follows env PacketType.pl_sb_player_block_placement fields s p i =
    returns (stays _ _ s p _ i)
dispatch_play-Follows env PacketType.pl_sb_use_item fields s p i = returns (stays _ _ s p _ i)
dispatch_play-Follows env _ _ s p i = faults

dispatch_handshake-Follows :
    {h : List Asked} (type : PacketType) (fields : Serverbound) (s : Session)
    → s.conn.use_encryption ≡ false
    → ValidIn h State.handshake s
    → IsDecodable fields
    → Post (Follows h Phase.handshaking type) (dispatch_handshake type fields s)
unfolding dispatch_handshake
dispatch_handshake-Follows PacketType.hs_sb_handshake (Serverbound.handshake v a p n) s plain_text
      valid leads =
    handle_hs_handshake-Follows s plain_text v a p n s.tmp_present valid leads
dispatch_handshake-Follows _ _ s plain_text valid leads = faults

module _ {h : List Asked} (env : Environment) (s : Session)
    (plain_text : s.conn.use_encryption ≡ false) where
  dispatch_status-Follows :
      (type : PacketType) (fields : Serverbound)
      → s.conn.state ≡ State.status
      → ValidIn h State.status s
      → Post (Follows h Phase.querying type) (dispatch_status env type fields s)
  unfolding dispatch_status
  dispatch_status-Follows PacketType.st_sb_request fields here valid =
      handle_st_request-Follows env s plain_text s.tmp_present here valid
  dispatch_status-Follows PacketType.st_sb_ping (Serverbound.ping payload) here valid =
      handle_st_ping-Follows env s plain_text s.tmp_present payload here valid
  dispatch_status-Follows _ _ here valid = faults

  dispatch_login-Follows :
      (type : PacketType) (fields : Serverbound)
      → Memᴰ (record { env = env; type = type; fields = fields }) h
      → s.conn.state ≡ State.login
      → ValidIn h State.login s
      → Post
          (Follows h (phase_in State.login s.tmp_present) type)
          (dispatch_login env type fields s)
  unfolding dispatch_login
  dispatch_login-Follows PacketType.lg_sb_login_start (Serverbound.login_start name) asked here
        valid =
      handle_lg_login_start-Follows env s s.tmp_present name asked plain_text here valid
  dispatch_login-Follows PacketType.lg_sb_encryption_response (Serverbound.encryption_response k t)
        asked here valid =
      handle_lg_encryption_response-Follows env k t s asked plain_text valid.3
  dispatch_login-Follows _ _ asked here valid = faults

  pub dispatch_in-Follows :
      (st : State) (type : PacketType) (fields : Serverbound)
      → Memᴰ (record { env = env; type = type; fields = fields }) h
      → s.conn.state ≡ st
      → ValidIn h st s
      → IsDecodable fields
      → Post (Follows h (phase_in st s.tmp_present) type) (dispatch_in st env type fields s)
  unfolding dispatch_in
  dispatch_in-Follows State.handshake type fields asked here valid leads =
      dispatch_handshake-Follows type fields s plain_text valid leads
  dispatch_in-Follows State.status type fields asked here valid leads =
      dispatch_status-Follows type fields here valid
  dispatch_in-Follows State.login type fields asked here valid leads =
      dispatch_login-Follows type fields asked here valid
  dispatch_in-Follows State.play type fields asked here valid leads =
      dispatch_play-Follows env type fields s valid.1 (record {
        plain_text = plain_text;
        here = here;
        settled = valid.0;
        playing = valid.2;
        authentic = valid.3;
      })
