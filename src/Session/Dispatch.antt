-- ===== src/Session/Dispatch.antt =====
-- packet_handler of src/network/network.c: the handler of a packet, by state and packet type.
pub mod Facts
pub mod Playing
pub mod Entering
pub mod Early
pub mod Cases
pub mod Invariant
pub mod Unfinished
mod Tests
use stronk.Base.{Outcome, Fault, uninitialised}
use stronk.Packet.Types
use stronk.Packet.Types.{State, PacketType, Serverbound}
use stronk.Session.{Environment, Session, Handled}
use stronk.Session.Handshake.{handle_hs_handshake}
use stronk.Session.Status.{handle_st_request, handle_st_ping}
use stronk.Session.Login.{handle_lg_login_start}
use stronk.Session.Login.Response.{handle_lg_encryption_response}
use stronk.Session.Ignored.{
  handle_pl_tab_complete, handle_pl_client_status, handle_pl_confirm_transaction,
  handle_pl_enchant_item, handle_pl_click_window, handle_pl_close_window, handle_pl_use_entity,
  handle_pl_player_position, handle_pl_player_position_and_look, handle_pl_player_look,
  handle_pl_player, handle_pl_vehicle_move, handle_pl_steer_boat, handle_pl_player_abilities,
  handle_pl_player_digging, handle_pl_entity_action, handle_pl_steer_vehicle,
  handle_pl_resource_pack_status, handle_pl_creative_inventory_action, handle_pl_update_sign,
  handle_pl_animation, handle_pl_spectate, handle_pl_player_block_placement, handle_pl_use_item,
}
use stronk.Session.Play.{
  handle_pl_keep_alive, handle_pl_plugin_message, handle_pl_client_settings,
  handle_pl_teleport_confirm, handle_pl_chat_message, handle_pl_held_item_change,
}

-- No case of the switch sets `result`, or the packet holds the members of another type.
abbrev pub unset : Handled
unset = Outcome.fault uninitialised

unfoldable pub dispatch_handshake : PacketType → Serverbound → Session → Handled
unfolding handle_hs_handshake
dispatch_handshake PacketType.hs_sb_handshake (Serverbound.handshake v a p n) s =
    handle_hs_handshake v a p n s
dispatch_handshake _ _ s = unset

unfoldable pub dispatch_status : Environment → PacketType → Serverbound → Session → Handled
unfolding handle_st_request handle_st_ping
dispatch_status env PacketType.st_sb_request fields s = handle_st_request env s
dispatch_status env PacketType.st_sb_ping (Serverbound.ping payload) s =
    handle_st_ping env payload s
dispatch_status env _ _ s = unset

unfoldable pub dispatch_login : Environment → PacketType → Serverbound → Session → Handled
unfolding handle_lg_login_start handle_lg_encryption_response
dispatch_login env PacketType.lg_sb_login_start (Serverbound.login_start name) s =
    handle_lg_login_start env name s
dispatch_login env PacketType.lg_sb_encryption_response (Serverbound.encryption_response k t) s =
    handle_lg_encryption_response env k t s
dispatch_login env _ _ s = unset

unfoldable pub dispatch_play : Environment → PacketType → Serverbound → Session → Handled
unfolding handle_pl_keep_alive handle_pl_plugin_message handle_pl_client_settings
    handle_pl_teleport_confirm handle_pl_chat_message handle_pl_held_item_change
dispatch_play env PacketType.pl_sb_teleport_confirm fields s = handle_pl_teleport_confirm env s
dispatch_play env PacketType.pl_sb_tab_complete fields s = handle_pl_tab_complete s
dispatch_play env PacketType.pl_sb_chat_message (Serverbound.chat_message msg) s =
    handle_pl_chat_message env msg s
dispatch_play env PacketType.pl_sb_client_status fields s = handle_pl_client_status s
dispatch_play env PacketType.pl_sb_client_settings (Serverbound.client_settings settings) s =
    handle_pl_client_settings env settings s
dispatch_play env PacketType.pl_sb_confirm_transaction fields s = handle_pl_confirm_transaction s
dispatch_play env PacketType.pl_sb_enchant_item fields s = handle_pl_enchant_item s
dispatch_play env PacketType.pl_sb_click_window fields s = handle_pl_click_window s
dispatch_play env PacketType.pl_sb_close_window fields s = handle_pl_close_window s
dispatch_play env PacketType.pl_sb_plugin_message (Serverbound.plugin_message channel content) s =
    handle_pl_plugin_message channel content s
dispatch_play env PacketType.pl_sb_use_entity fields s = handle_pl_use_entity s
dispatch_play env PacketType.pl_sb_keep_alive fields s = handle_pl_keep_alive env s
dispatch_play env PacketType.pl_sb_player_position fields s = handle_pl_player_position s
dispatch_play env PacketType.pl_sb_player_position_and_look fields s =
    handle_pl_player_position_and_look s
dispatch_play env PacketType.pl_sb_player_look fields s = handle_pl_player_look s
dispatch_play env PacketType.pl_sb_player fields s = handle_pl_player s
dispatch_play env PacketType.pl_sb_vehicle_move fields s = handle_pl_vehicle_move s
dispatch_play env PacketType.pl_sb_steer_boat fields s = handle_pl_steer_boat s
dispatch_play env PacketType.pl_sb_player_abilities fields s = handle_pl_player_abilities s
dispatch_play env PacketType.pl_sb_player_digging fields s = handle_pl_player_digging s
dispatch_play env PacketType.pl_sb_entity_action fields s = handle_pl_entity_action s
dispatch_play env PacketType.pl_sb_steer_vehicle fields s = handle_pl_steer_vehicle s
dispatch_play env PacketType.pl_sb_resource_pack_status fields s = handle_pl_resource_pack_status s
dispatch_play env PacketType.pl_sb_held_item_change (Serverbound.held_item_change slot) s =
    handle_pl_held_item_change slot s
dispatch_play env PacketType.pl_sb_creative_inventory_action fields s =
    handle_pl_creative_inventory_action s
dispatch_play env PacketType.pl_sb_update_sign fields s = handle_pl_update_sign s
dispatch_play env PacketType.pl_sb_animation fields s = handle_pl_animation s
dispatch_play env PacketType.pl_sb_spectate fields s = handle_pl_spectate s
dispatch_play env PacketType.pl_sb_player_block_placement fields s =
    handle_pl_player_block_placement s
dispatch_play env PacketType.pl_sb_use_item fields s = handle_pl_use_item s
dispatch_play env _ _ s = unset

unfoldable pub dispatch_in : State → Environment → PacketType → Serverbound → Session → Handled
unfolding dispatch_handshake dispatch_status dispatch_login dispatch_play
dispatch_in State.handshake env type fields s = dispatch_handshake type fields s
dispatch_in State.status env type fields s = dispatch_status env type fields s
dispatch_in State.login env type fields s = dispatch_login env type fields s
dispatch_in State.play env type fields s = dispatch_play env type fields s

-- The switch over `mcpr_connection_get_state` and the packet's id.
unfoldable pub dispatch : Environment → PacketType → Serverbound → Session → Handled
unfolding dispatch_in
dispatch env type fields s = dispatch_in s.conn.state env type fields s
