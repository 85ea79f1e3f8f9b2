-- ===== src/Packet/Ids/Tests.antt =====
-- Packet ids of src/mcpr/packet.c.
use stronk.Base.{◌≡◌, ◌↔◌, refl, some}
use stronk.Packet.Types.{State, PacketType}
use stronk.Packet.Ids.{get_packet_type}
use stronk.Packet.Ids.Laws.{get_packet_type_iff, serverbound_id, serverbound_state}

keep_alive_0x0B : get_packet_type 0x0B State.play ≡ some PacketType.pl_sb_keep_alive
unfolding get_packet_type
keep_alive_0x0B = refl

get_packet_type_iff_example :
    (get_packet_type 0x0B State.play ≡ some PacketType.pl_sb_keep_alive)
    ↔ (serverbound_id PacketType.pl_sb_keep_alive ≡ some 0x0B)
      × (serverbound_state PacketType.pl_sb_keep_alive ≡ some State.play)
get_packet_type_iff_example =
    get_packet_type_iff 0x0B State.play PacketType.pl_sb_keep_alive λ e. cc
