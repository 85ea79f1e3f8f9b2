-- ===== src/Packet/Encode/Play.antt =====
-- mcpr_encode_packet of src/mcpr/packet.c in the play state, but for chunk data.
use stronk.Base.{ℕ, ◌-◌, ◌^◌, Bool, List, ◌++◌, length, ltb, bit_or}
use stronk.Base.{if◌then◌else◌, Outcome, fault, ◌>>=◌, aborted}
use stronk.Codec.Varint.{encode_varint}
use stronk.Codec.Text.{encode_string, encode_chat}
use stronk.Codec.Fixed.{encode_bool, encode_byte, encode_ubyte, encode_int, encode_float}
use stronk.Codec.Fixed.{encode_double}
use stronk.Codec.Position.{Position, encode_position}
use stronk.Packet.Types.{PacketType, Gamemode, Dimension, Difficulty, Level, ChatPosition}
use stronk.Packet.Outgoing.{JoinGame, PlayerAbilities, PositionAndLook}
use stronk.Packet.Json.{codes}
use stronk.Packet.Encode.{Encoded, all_of, encode_id}

abbrev pub position_byte : ChatPosition → ℕ
position_byte ChatPosition.chat = 0
position_byte ChatPosition.system = 1
position_byte ChatPosition.hotbar = 2

-- No packet id is written.
unfoldable pub encode_chat_message : List ℕ → ChatPosition → Outcome Encoded
encode_chat_message json_data position = do
  chat ← encode_chat json_data
  all_of (chat ++ encode_byte (position_byte position))

unfoldable pub encode_disconnect : List ℕ → Outcome Encoded
encode_disconnect reason = do
  id ← encode_id PacketType.pl_cb_disconnect
  string ← encode_string reason
  all_of (id ++ string)

unfoldable pub encode_keep_alive : ℕ → Outcome Encoded
encode_keep_alive keep_alive_id = do
  id ← encode_id PacketType.pl_cb_keep_alive
  all_of (id ++ encode_varint keep_alive_id)

abbrev pub gamemode_byte : Gamemode → ℕ
gamemode_byte Gamemode.survival = 0x00
gamemode_byte Gamemode.creative = 0x01
gamemode_byte Gamemode.adventure = 0x02
gamemode_byte Gamemode.spectator = 0x03

-- The nether is the int32_t -1.
abbrev pub dimension_int : Dimension → ℕ
dimension_int Dimension.nether = 2 ^ 32 - 1
dimension_int Dimension.overworld = 0
dimension_int Dimension.end = 1

abbrev pub difficulty_byte : Difficulty → ℕ
difficulty_byte Difficulty.peaceful = 0
difficulty_byte Difficulty.easy = 1
difficulty_byte Difficulty.normal = 2
difficulty_byte Difficulty.hard = 3

abbrev pub level_name : Level → List ℕ
level_name Level.default = codes "default"
level_name Level.flat = codes "flat"
level_name Level.large_biomes = codes "largeBiomes"
level_name Level.amplified = codes "amplified"
level_name Level.default_1_1 = codes "default_1_1"

unfoldable pub encode_join_game : JoinGame → Outcome Encoded
encode_join_game p = do
  id ← encode_id PacketType.pl_cb_join_game
  let gamemode =
      if p.hardcore then bit_or (gamemode_byte p.gamemode) 0x08 else gamemode_byte p.gamemode
  level_type ← encode_string (level_name p.level_type)
  all_of (
      id
      ++ (encode_int p.entity_id
          ++ (encode_ubyte gamemode
              ++ (encode_int (dimension_int p.dimension)
                  ++ (encode_ubyte (difficulty_byte p.difficulty)
                      ++ (encode_ubyte p.max_players
                          ++ (level_type ++ encode_bool p.reduced_debug_info)))))))

unfoldable pub encode_plugin_message : List ℕ → List ℕ → Outcome Encoded
encode_plugin_message channel payload = if ltb 20 (length channel) then fault aborted else do
  id ← encode_id PacketType.pl_cb_plugin_message
  string ← encode_string channel
  all_of (id ++ (string ++ payload))

unfoldable pub encode_spawn_position : Position → Outcome Encoded
encode_spawn_position location = do
  id ← encode_id PacketType.pl_cb_spawn_position
  all_of (id ++ encode_position location)

-- `if(b) flags |= bit;`
abbrev with_flag : Bool → ℕ → ℕ → ℕ
with_flag b bit flags = if b then bit_or flags bit else flags

unfoldable pub encode_player_abilities : PlayerAbilities → Outcome Encoded
encode_player_abilities p = do
  id ← encode_id PacketType.pl_cb_player_abilities
  let flags =
      with_flag p.creative_mode 0x08 (
        with_flag p.allow_flying 0x04
          (with_flag p.is_flying 0x02 (with_flag p.invulnerable 0x01 0)))
  flying_speed ← encode_float p.flying_speed
  field_of_view_modifier ← encode_float p.field_of_view_modifier
  all_of (id ++ (encode_byte flags ++ (flying_speed ++ field_of_view_modifier)))

unfoldable pub encode_position_and_look : PositionAndLook → Outcome Encoded
encode_position_and_look p = do
  id ← encode_id PacketType.pl_cb_player_position_and_look
  yaw ← encode_float p.yaw
  pitch ← encode_float p.pitch
  let flags = with_flag p.yaw_is_relative 0x10 (
      with_flag p.pitch_is_relative 0x08 (
        with_flag p.z_is_relative 0x04
          (with_flag p.y_is_relative 0x02 (with_flag p.x_is_relative 0x01 0))))
  all_of (
      id
      ++ (encode_double p.x
          ++ (encode_double p.y
              ++ (encode_double p.z
                  ++ (yaw ++ (pitch ++ (encode_byte flags ++ encode_varint p.teleport_id)))))))

unfoldable pub encode_sb_keep_alive : ℕ → Outcome Encoded
encode_sb_keep_alive keep_alive_id = do
  id ← encode_id PacketType.pl_sb_keep_alive
  all_of (id ++ encode_varint keep_alive_id)

unfoldable pub encode_sb_plugin_message : List ℕ → List ℕ → Outcome Encoded
encode_sb_plugin_message channel payload = do
  id ← encode_id PacketType.pl_sb_plugin_message
  string ← encode_string channel
  all_of (id ++ (string ++ payload))
