-- ===== src/Packet/Ids.antt =====
-- mcpr_get_packet_type and mcpr_packet_type_to_byte of src/mcpr/packet.c.
pub mod Laws
mod Tests
use stronk.Base.{ℕ, zero, suc, List, [], ◌∷◌, Option, none, some, get_elem?}
use stronk.Base.{Outcome, ok, fault, aborted}
use stronk.Packet.Types.{State, PacketType}

-- `case 0x00:` to `case 0X20:` of the play state, in order.
abbrev pub play_serverbound : List PacketType
play_serverbound =
    PacketType.pl_sb_teleport_confirm ∷ PacketType.pl_sb_tab_complete
    ∷ PacketType.pl_sb_chat_message ∷ PacketType.pl_sb_client_status
    ∷ PacketType.pl_sb_client_settings ∷ PacketType.pl_sb_confirm_transaction
    ∷ PacketType.pl_sb_enchant_item ∷ PacketType.pl_sb_click_window ∷ PacketType.pl_sb_close_window
    ∷ PacketType.pl_sb_plugin_message ∷ PacketType.pl_sb_use_entity ∷ PacketType.pl_sb_keep_alive
    ∷ PacketType.pl_sb_player ∷ PacketType.pl_sb_player_position
    ∷ PacketType.pl_sb_player_position_and_look ∷ PacketType.pl_sb_player_look
    ∷ PacketType.pl_sb_vehicle_move ∷ PacketType.pl_sb_steer_boat
    ∷ PacketType.pl_sb_craft_recipe_request ∷ PacketType.pl_sb_player_abilities
    ∷ PacketType.pl_sb_player_digging ∷ PacketType.pl_sb_entity_action
    ∷ PacketType.pl_sb_steer_vehicle ∷ PacketType.pl_sb_crafting_book_data
    ∷ PacketType.pl_sb_resource_pack_status ∷ PacketType.pl_sb_advancement_tab
    ∷ PacketType.pl_sb_held_item_change ∷ PacketType.pl_sb_creative_inventory_action
    ∷ PacketType.pl_sb_update_sign ∷ PacketType.pl_sb_animation ∷ PacketType.pl_sb_spectate
    ∷ PacketType.pl_sb_player_block_placement ∷ PacketType.pl_sb_use_item ∷ []

abbrev pub login_serverbound : List PacketType
login_serverbound = PacketType.lg_sb_login_start ∷ PacketType.lg_sb_encryption_response ∷ []

abbrev pub status_serverbound : List PacketType
status_serverbound = PacketType.st_sb_request ∷ PacketType.st_sb_ping ∷ []

-- `none` is the return value false. In the handshake state every id is enumerator 0.
unfoldable pub get_packet_type : ℕ → State → Option PacketType
get_packet_type id State.handshake = some PacketType.hs_sb_handshake
get_packet_type id State.login = get_elem? login_serverbound id
get_packet_type id State.status = get_elem? status_serverbound id
get_packet_type id State.play = get_elem? play_serverbound id

-- A type with no case in the switch calls `abort`.
unfoldable pub packet_type_to_byte : PacketType → Outcome ℕ
packet_type_to_byte PacketType.st_cb_response = ok 0
packet_type_to_byte PacketType.st_cb_pong = ok 1
packet_type_to_byte PacketType.lg_cb_disconnect = ok 0
packet_type_to_byte PacketType.lg_cb_encryption_request = ok 1
packet_type_to_byte PacketType.lg_cb_login_success = ok 2
packet_type_to_byte PacketType.lg_cb_set_compression = ok 3
packet_type_to_byte PacketType.pl_cb_disconnect = ok 0x1a
packet_type_to_byte PacketType.pl_cb_keep_alive = ok 0x1f
packet_type_to_byte PacketType.pl_cb_join_game = ok 0x23
packet_type_to_byte PacketType.pl_cb_plugin_message = ok 0x18
packet_type_to_byte PacketType.pl_cb_spawn_position = ok 0x46
packet_type_to_byte PacketType.pl_cb_chunk_data = ok 0x20
packet_type_to_byte PacketType.pl_cb_player_abilities = ok 0x2c
packet_type_to_byte PacketType.pl_cb_player_position_and_look = ok 0x2f
packet_type_to_byte PacketType.pl_cb_chat_message = ok 0xf
packet_type_to_byte _ = fault aborted
