-- ===== src/Packet/Encode/Main.antt =====
-- mcpr_encode_packet of src/mcpr/packet.c: the switch over the state and the packet.
use stronk.Base.{ℕ, leb, if◌then◌else◌, Outcome, fault, aborted}
use stronk.Packet.Types.{State}
use stronk.Packet.Outgoing.{Outgoing, state_of}
use stronk.Packet.Encode.{Encoded, encode_handshake, encode_pong, encode_response}
use stronk.Packet.Encode.{encode_login_disconnect, encode_encryption_request, encode_login_success}
use stronk.Packet.Encode.{encode_set_compression, encode_login_start, encode_encryption_response}
use stronk.Packet.Encode.Play.{encode_chat_message, encode_disconnect, encode_keep_alive}
use stronk.Packet.Encode.Play.{encode_join_game, encode_plugin_message, encode_spawn_position}
use stronk.Packet.Encode.Play.{encode_player_abilities, encode_position_and_look}
use stronk.Packet.Encode.Play.{encode_sb_keep_alive, encode_sb_plugin_message}
use stronk.Packet.Encode.Chunk.{encode_chunk_data}

-- The order of the cases of the outer switch. No case ends in a `break`: a state runs through
-- its own packets and those of the states behind it.
abbrev pub switch_order : State → ℕ
switch_order State.handshake = 0
switch_order State.status = 1
switch_order State.login = 2
switch_order State.play = 3

unfoldable pub encode_case : Outgoing → Outcome Encoded
encode_case (Outgoing.handshake a p n) = encode_handshake a p n
encode_case (Outgoing.pong p) = encode_pong p
encode_case (Outgoing.response r) = encode_response r
encode_case (Outgoing.login_disconnect r) = encode_login_disconnect r
encode_case (Outgoing.encryption_request s k t) = encode_encryption_request s k t
encode_case (Outgoing.login_success u n) = encode_login_success u n
encode_case (Outgoing.set_compression t) = encode_set_compression t
encode_case (Outgoing.login_start n) = encode_login_start n
encode_case (Outgoing.encryption_response s t) = encode_encryption_response s t
encode_case (Outgoing.chat_message j p) = encode_chat_message j p
encode_case (Outgoing.disconnect r) = encode_disconnect r
encode_case (Outgoing.keep_alive i) = encode_keep_alive i
encode_case (Outgoing.join_game p) = encode_join_game p
encode_case (Outgoing.plugin_message c d) = encode_plugin_message c d
encode_case (Outgoing.spawn_position l) = encode_spawn_position l
encode_case (Outgoing.player_abilities p) = encode_player_abilities p
encode_case (Outgoing.player_position_and_look p) = encode_position_and_look p
encode_case (Outgoing.sb_keep_alive i) = encode_sb_keep_alive i
encode_case (Outgoing.sb_plugin_message c d) = encode_sb_plugin_message c d
encode_case (Outgoing.chunk_data p) = encode_chunk_data p

unfoldable pub encode_packet : State → Outgoing → Outcome Encoded
unfolding encode_case
encode_packet state pkt =
    if leb (switch_order state) (switch_order (state_of pkt))
    then encode_case pkt
    else fault aborted
