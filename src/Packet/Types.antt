-- ===== src/Packet/Types.antt =====
-- The enumerations and structs of src/mcpr/packet.h and src/mcpr/mcpr.h that packet.c handles.
use stronk.Base.{ℕ, Bool, Option, List}

-- enum mcpr_state
pub data State : Type 0 where
  handshake status login play : State

-- enum mcpr_packet_type: the enumerators that packet.c names, and the rest by number.
pub data PacketType : Type 0 where
  hs_sb_handshake : PacketType
  st_cb_response st_cb_pong st_sb_request st_sb_ping : PacketType
  lg_cb_disconnect lg_cb_encryption_request lg_cb_login_success lg_cb_set_compression : PacketType
  lg_sb_login_start lg_sb_encryption_response : PacketType
  pl_cb_chat_message pl_cb_plugin_message pl_cb_disconnect pl_cb_keep_alive : PacketType
  pl_cb_chunk_data pl_cb_join_game pl_cb_player_abilities : PacketType
  pl_cb_player_position_and_look pl_cb_spawn_position : PacketType
  pl_sb_teleport_confirm pl_sb_tab_complete pl_sb_chat_message pl_sb_client_status : PacketType
  pl_sb_client_settings pl_sb_confirm_transaction pl_sb_enchant_item : PacketType
  pl_sb_click_window pl_sb_close_window pl_sb_plugin_message pl_sb_use_entity : PacketType
  pl_sb_keep_alive pl_sb_player pl_sb_player_position : PacketType
  pl_sb_player_position_and_look pl_sb_player_look pl_sb_vehicle_move : PacketType
  pl_sb_steer_boat pl_sb_craft_recipe_request pl_sb_player_abilities : PacketType
  pl_sb_player_digging pl_sb_entity_action pl_sb_steer_vehicle : PacketType
  pl_sb_crafting_book_data pl_sb_resource_pack_status pl_sb_advancement_tab : PacketType
  pl_sb_held_item_change pl_sb_creative_inventory_action pl_sb_update_sign : PacketType
  pl_sb_animation pl_sb_spectate pl_sb_player_block_placement pl_sb_use_item : PacketType
  other : ℕ → PacketType

pub data ChatMode : Type 0 where
  enabled commands_only hidden : ChatMode

pub data SideBasedHand : Type 0 where
  left right : SideBasedHand

pub data Gamemode : Type 0 where
  survival creative adventure spectator : Gamemode

pub data Dimension : Type 0 where
  overworld nether end : Dimension

pub data Difficulty : Type 0 where
  peaceful easy normal hard : Difficulty

pub data Level : Type 0 where
  default flat large_biomes amplified default_1_1 : Level

pub data ChatPosition : Type 0 where
  chat system hotbar : ChatPosition

pub record SkinParts : Type 0 where
  pub cape_enabled : Bool
  pub jacket_enabled : Bool
  pub left_sleeve_enabled : Bool
  pub right_sleeve_enabled : Bool
  pub left_pants_enabled : Bool
  pub right_pants_enabled : Bool
  pub hat_enabled : Bool

-- A `bool` of a decoded packet is an option: `none` is what was never set.
pub record ClientSettings : Type 0 where
  pub locale : List ℕ
  pub view_distance : ℕ
  pub chat_mode : ChatMode
  pub chat_colors : Option Bool
  pub displayed_skin_parts : SkinParts
  pub main_hand : SideBasedHand

-- The members of struct mcpr_packet that mcpr_decode_packet fills in, one for each packet type.
-- Strings, secrets and plugin data are the bytes behind their pointers, floats bit patterns.
pub data Serverbound : Type 0 where
  handshake : ℕ → List ℕ → ℕ → State → Serverbound
  login_start : List ℕ → Serverbound
  encryption_response : List ℕ → List ℕ → Serverbound
  ping : ℕ → Serverbound
  request : Serverbound
  chat_message : List ℕ → Serverbound
  client_settings : ClientSettings → Serverbound
  plugin_message : List ℕ → List ℕ → Serverbound
  keep_alive : ℕ → Serverbound
  player_position : ℕ → ℕ → ℕ → Option Bool → Serverbound
  player_position_and_look : ℕ → ℕ → ℕ → ℕ → ℕ → Option Bool → Serverbound
  teleport_confirm : ℕ → Serverbound
  player_look : ℕ → ℕ → Option Bool → Serverbound
  held_item_change : ℕ → Serverbound
