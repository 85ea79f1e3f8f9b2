-- ===== src/Packet/Decode/Tests.antt =====
-- mcpr_decode_packet of src/mcpr/packet.c on concrete packets.
use stronk.Base.{ℕ, ◌^◌, ◌<◌, ◌≡◌, refl, arith, inr, List, [], ◌∷◌, ◌++◌, length, length-append}
use stronk.Codec.Varint.{encode_varint}
use stronk.Codec.Varint.Encode.{length-encode_varint}
use stronk.Codec.Fixed.{encode_ushort}
use stronk.Codec.Endian.{length-bytes_of, htons}
use stronk.Packet.Types.{State, PacketType, Serverbound}
use stronk.Packet.Encode.{counted}
use stronk.Packet.Cursor.{done}
use stronk.Packet.Decode.Main.{decode_packet}
use stronk.Packet.Decode.Wire.{handshake_wire}
use stronk.Packet.Decode.Laws.{
  decode_packet_handshake, decode_packet_login_start, decode_packet_keep_alive,
}
use stronk.Packet.Decode.Laws.{decode_packet_encryption_response}

abbrev host : List ℕ
host = b'm' ∷ b'c' ∷ []

handshake_size : length (encode_varint 0 ++ handshake_wire 340 host 25565 2) < 2 ^ 64
unfolding encode_ushort
handshake_size = omega (
  arith,
  length-append (encode_varint 0) (handshake_wire 340 host 25565 2),
  length-append (encode_varint 340) (counted host ++ (encode_ushort 25565 ++ encode_varint 2)),
  length-append (counted host) (encode_ushort 25565 ++ encode_varint 2),
  length-append (encode_ushort 25565) (encode_varint 2),
  length-append (encode_varint 2) host,
  length-encode_varint 0,
  length-encode_varint 340,
  length-encode_varint 2,
  length-bytes_of 2 (htons 25565),
)

decode_packet_handshake_example :
    let wire = encode_varint 0 ++ handshake_wire 340 host 25565 2 in
    decode_packet wire State.handshake (length wire)
    ≡ done
        (PacketType.hs_sb_handshake, Serverbound.handshake 340 host 25565 State.login, length wire)
decode_packet_handshake_example =
    decode_packet_handshake 0 340 25565 2 host (omega arith) (omega arith) (omega arith)
      (omega arith) (inr refl) handshake_size

decode_packet_login_start_example :
    let wire = encode_varint 256 ++ counted host in
    decode_packet wire State.login (length wire)
    ≡ done (PacketType.lg_sb_login_start, Serverbound.login_start host, length wire)
decode_packet_login_start_example =
    decode_packet_login_start 256 host (omega arith) refl (omega arith)

decode_packet_keep_alive_example :
    let wire = encode_varint 0x0B ++ encode_varint 7 in
    decode_packet wire State.play (length wire)
    ≡ done (PacketType.pl_sb_keep_alive, Serverbound.keep_alive 7, length wire)
decode_packet_keep_alive_example = decode_packet_keep_alive 0x0B 7 (omega arith) refl (omega arith)

decode_packet_encryption_response_example :
    let wire = encode_varint 1 ++ (counted host ++ counted (1 ∷ 2 ∷ [])) in
    decode_packet wire State.login (length wire)
    ≡ done (
      PacketType.lg_sb_encryption_response,
      Serverbound.encryption_response host (1 ∷ 2 ∷ []),
      length wire,
    )
decode_packet_encryption_response_example =
    decode_packet_encryption_response host (1 ∷ 2 ∷ []) (omega arith) (omega arith) refl
