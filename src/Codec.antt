-- ===== src/Codec.antt =====
-- src/mcpr/codec.c: the encoding of the values of the Minecraft protocol.
pub mod Endian
pub mod Fixed
pub mod Varint
pub mod Text
pub mod Position
