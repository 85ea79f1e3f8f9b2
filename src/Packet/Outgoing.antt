-- ===== src/Packet/Outgoing.antt =====
-- The members of struct mcpr_packet in src/mcpr/packet.h that mcpr_encode_packet reads.
use stronk.Base.{ℕ, Bool, Option, List}
use stronk.Codec.Position.{Position}
use stronk.Uuid.{Ninuuid}
use stronk.Packet.Types.{State, Gamemode, Dimension, Difficulty, Level, ChatPosition}

-- The server list response. A `char *` that may be NULL is an option.
pub record Response : Type 0 where
  pub version_name : List ℕ
  pub protocol_version : ℕ
  pub max_players : ℕ
  pub online_players : ℕ
  pub description : List ℕ
  pub favicon : Option (List ℕ)
  pub player_sample : Option (List (Ninuuid × List ℕ))

pub record JoinGame : Type 0 where
  pub entity_id : ℕ
  pub gamemode : Gamemode
  pub hardcore : Bool
  pub dimension : Dimension
  pub difficulty : Difficulty
  pub max_players : ℕ
  pub level_type : Level
  pub reduced_debug_info : Bool

pub record PlayerAbilities : Type 0 where
  pub invulnerable : Bool
  pub is_flying : Bool
  pub allow_flying : Bool
  pub creative_mode : Bool
  pub flying_speed : ℕ
  pub field_of_view_modifier : ℕ

pub record PositionAndLook : Type 0 where
  pub x : ℕ
  pub y : ℕ
  pub z : ℕ
  pub yaw : ℕ
  pub pitch : ℕ
  pub x_is_relative : Bool
  pub y_is_relative : Bool
  pub z_is_relative : Bool
  pub yaw_is_relative : Bool
  pub pitch_is_relative : Bool
  pub teleport_id : ℕ

-- struct mcpr_chunk_section: `blocks` are the bytes of the block array, 8 for each of the
-- `block_array_length` longs, and the light arrays hold 2048 bytes.
pub record ChunkSection : Type 0 where
  pub bits_per_block : ℕ
  pub palette : List ℕ
  pub block_array_length : ℕ
  pub blocks : List ℕ
  pub block_light : List ℕ
  pub sky_light : Option (List ℕ)

pub record ChunkData : Type 0 where
  pub chunk_x : ℕ
  pub chunk_z : ℕ
  pub ground_up_continuous : Bool
  pub primary_bit_mask : ℕ
  pub chunk_sections : List ChunkSection
  pub biomes : List ℕ
  pub block_entity_count : ℕ
  -- What `nbt_dump_binary` gives for the block entities, of the library under lib/nbt.
  pub raw_block_entities : Option (List ℕ)

pub data Outgoing : Type 0 where
  handshake : List ℕ → ℕ → ℕ → Outgoing
  pong : ℕ → Outgoing
  response : Response → Outgoing
  login_disconnect : List ℕ → Outgoing
  encryption_request : List ℕ → List ℕ → List ℕ → Outgoing
  login_success : Ninuuid → List ℕ → Outgoing
  set_compression : ℕ → Outgoing
  login_start : List ℕ → Outgoing
  encryption_response : List ℕ → List ℕ → Outgoing
  chat_message : List ℕ → ChatPosition → Outgoing
  disconnect : List ℕ → Outgoing
  keep_alive : ℕ → Outgoing
  join_game : JoinGame → Outgoing
  plugin_message : List ℕ → List ℕ → Outgoing
  spawn_position : Position → Outgoing
  player_abilities : PlayerAbilities → Outgoing
  player_position_and_look : PositionAndLook → Outgoing
  sb_keep_alive : ℕ → Outgoing
  sb_plugin_message : List ℕ → List ℕ → Outgoing
  chunk_data : ChunkData → Outgoing

-- The state whose switch handles the packet.
abbrev pub state_of : Outgoing → State
state_of (handshake a p n) = State.handshake
state_of (pong p) = State.status
state_of (response r) = State.status
state_of (login_disconnect r) = State.login
state_of (encryption_request s k t) = State.login
state_of (login_success u n) = State.login
state_of (set_compression t) = State.login
state_of (login_start n) = State.login
state_of (encryption_response s t) = State.login
state_of _ = State.play
