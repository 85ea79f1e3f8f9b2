-- ===== src/Packet.antt =====
-- src/mcpr/packet.c and src/mcpr/packet.h: the packets, and their forms on the wire.
pub mod Types
pub mod Ids
pub mod Cursor
pub mod Decode
pub mod Outgoing
pub mod Json
pub mod Encode
