-- ===== src/Packet/Encode/Bounds.antt =====
-- mcpr_encode_packet_bounds of src/mcpr/packet.c: how large a buffer the caller allocates.
pub mod Sizes
pub mod Cases
pub mod Enough
pub mod Chunk
use stronk.Base.{Option, none, some}
use stronk.Base.{ℕ, ◌+◌, ◌-◌, ◌*◌, List, length, leb, if◌then◌else◌, Outcome, ok, fault, ◌>>=◌}
use stronk.Base.{over_read, aborted}
use stronk.Packet.Types.{State}
use stronk.Packet.Outgoing.{Outgoing, state_of, ChunkData}
use stronk.Packet.Json.{server_list_response_to_json}
use stronk.Packet.Encode.Chunk.{data_size}
use stronk.Packet.Encode.Main.{switch_order}

-- `strlen(s + 6)`: past the end of a text shorter than that.
abbrev strlen_from_6 : List ℕ → Outcome ℕ
strlen_from_6 s = if leb 6 (length s) then ok (length s - 6) else fault over_read

-- What nbt_dump_binary gives, where there are block entities.
abbrev pub raw_size : Option (List ℕ) → ℕ
raw_size none = 0
raw_size (some raw) = length raw

unfoldable pub chunk_bounds : ChunkData → ℕ
chunk_bounds p = 4 + 4 + 1 + 5 + 5 + data_size p + 5 + raw_size p.raw_block_entities

unfoldable pub bounds_case : Outgoing → Outcome ℕ
bounds_case (Outgoing.handshake a p n) = ok (12 + length a)
bounds_case (Outgoing.pong p) = ok (5 + 8)
bounds_case (Outgoing.response r) = do
  response ← server_list_response_to_json r
  ok (5 + 5 + length response)
bounds_case (Outgoing.login_disconnect r) = ok (10 + length r)
bounds_case (Outgoing.encryption_request s k t) = ok (20 + length s + length k + length t)
bounds_case (Outgoing.login_success u n) = ok (51 + length n)
bounds_case (Outgoing.set_compression t) = ok 10
bounds_case (Outgoing.login_start n) = ok (10 + length n)
bounds_case (Outgoing.encryption_response s t) = ok (15 + length s + length t)
bounds_case (Outgoing.chat_message j p) = strlen_from_6 j
bounds_case (Outgoing.disconnect r) = ok (10 + length r)
bounds_case (Outgoing.keep_alive i) = ok 10
bounds_case (Outgoing.join_game p) = ok 33
bounds_case (Outgoing.plugin_message c d) = ok (10 + length c + length d)
bounds_case (Outgoing.spawn_position l) = ok (5 + 8)
bounds_case (Outgoing.player_abilities p) = ok (5 + 1 + 4 + 4)
bounds_case (Outgoing.player_position_and_look p) = ok (5 + 8 * 3 + 4 * 2 + 1 + 5)
bounds_case (Outgoing.sb_keep_alive i) = ok 10
bounds_case (Outgoing.sb_plugin_message c d) = ok (10 + length c + length d)
bounds_case (Outgoing.chunk_data p) = ok (chunk_bounds p)

unfoldable pub encode_packet_bounds : State → Outgoing → Outcome ℕ
unfolding bounds_case
encode_packet_bounds state pkt =
    if leb (switch_order state) (switch_order (state_of pkt))
    then bounds_case pkt
    else fault aborted
