-- ===== src/Packet/Decode/Moves.antt =====
-- mcpr_decode_packet of src/mcpr/packet.c in the play state: the packets that move a player.
use stronk.Base.{ℕ, Bool, Option, none}
use stronk.Codec.Fixed.{decode_bool, decode_double, decode_float}
use stronk.Packet.Types.{Serverbound}
use stronk.Packet.Cursor.{Cursor, advance, Decoded, done}
use stronk.Packet.Cursor.{◌>>=◌, ◌>>◌, or_free, need}

-- `if(len_left < MCPR_DOUBLE_SIZE) ...; mcpr_decode_double(...); ptr += ...; len_left -= ...;`
unfoldable pub take_double : Cursor → Decoded (ℕ × Cursor)
take_double c = do need c 8; d ← or_free (decode_double c.mem); done (d, advance c 8)

unfoldable pub take_float : Cursor → Decoded (ℕ × Cursor)
take_float c = do need c 4; f ← or_free (decode_float c.mem); done (f, advance c 4)

unfoldable pub take_bool : Cursor → Decoded (Option Bool × ℕ)
take_bool c = do need c 1; b ← or_free (decode_bool c.mem); done (b, (advance c 1).pos)

-- The flag is stored in the union's member `player_position_and_look`, where it lies behind the
-- end of `player_position`: the `on_ground` of this packet stays unset.
unfoldable pub decode_player_position : Cursor → Decoded (Serverbound × ℕ)
unfolding take_double take_bool
decode_player_position c = do
  (x, c) ← take_double c
  (feet_y, c) ← take_double c
  (z, c) ← take_double c
  (on_ground, n) ← take_bool c
  done (Serverbound.player_position x feet_y z none, n)

unfoldable pub decode_player_position_and_look : Cursor → Decoded (Serverbound × ℕ)
unfolding take_double take_float take_bool
decode_player_position_and_look c = do
  (x, c) ← take_double c
  (feet_y, c) ← take_double c
  (z, c) ← take_double c
  (yaw, c) ← take_float c
  (pitch, c) ← take_float c
  (on_ground, n) ← take_bool c
  done (Serverbound.player_position_and_look x feet_y z yaw pitch on_ground, n)

unfoldable pub decode_player_look : Cursor → Decoded (Serverbound × ℕ)
unfolding take_float take_bool
decode_player_look c = do
  (yaw, c) ← take_float c
  (pitch, c) ← take_float c
  (on_ground, n) ← take_bool c
  done (Serverbound.player_look yaw pitch on_ground, n)
