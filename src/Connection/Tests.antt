-- ===== src/Connection/Tests.antt =====
-- Connections of src/mcpr/connection.c on concrete packets.
use stronk.Base.{
  ℕ, ◌+◌, ◌^◌, ◌<◌, ◌≡◌, refl, arith, inl, true, false, List, [], ◌∷◌, ◌++◌, length, take, map,
}
use stronk.Base.{
  length-append, append-nil, ap, ◌∙◌, Option, some, none, ok, over_write, closed_twice,
}
use stronk.Codec.Varint.{encode_varint}
use stronk.Codec.Varint.Encode.{length-encode_varint}
use stronk.Codec.Fixed.{encode_long}
use stronk.Codec.Endian.{length-bytes_of, htonll}
use stronk.Packet.Types.{State, PacketType, Serverbound}
use stronk.Packet.Outgoing.{Outgoing}
use stronk.Packet.Ids.{packet_type_to_byte}
use stronk.Packet.Encode.{encode_id, encode_pong}
use stronk.Packet.Encode.Main.{encode_case, encode_packet}
use stronk.Packet.Encode.Bounds.{encode_packet_bounds, bounds_case}
use stronk.Packet.Cursor.{done}
use stronk.Packet.Decode.Main.{decode_packet}
use stronk.Packet.Decode.Laws.{decode_packet_keep_alive}
use stronk.Connection.{Conn, Receiving, mcpr_connection_new, with_buffer}
use stronk.Connection.{
  mcpr_connection_write_packet, mcpr_connection_read_packet, packet, mcpr_connection_close, stuck,
}
use stronk.Connection.Frames.{mcpr_connection_write_packet_frame, mcpr_connection_read_packet_frame}
use stronk.Connection.Frames.{mcpr_connection_close_reenters, disconnect_frame}
use stronk.Connection.{reason_or_default}
use stronk.Connection.Receive.{got, updated, stopped, plain_loop, encrypted_loop}
use stronk.Connection.Receive.Laws.{
  plain_loop_overruns, Decrypts, encrypted_loop_appends, valid, IsValid,
}

abbrev pong_7 : List ℕ
pong_7 = encode_varint 1 ++ encode_long 7

pong_encoded : encode_packet State.status (Outgoing.pong 7) ≡ ok (pong_7, length pong_7)
unfolding encode_packet encode_case encode_pong encode_id packet_type_to_byte
pong_encoded = refl

pong_bounds : encode_packet_bounds State.status (Outgoing.pong 7) ≡ ok 13
unfolding encode_packet_bounds bounds_case
pong_bounds = refl

pong_small : (0 < length pong_7) × (length pong_7 < 2 ^ 31)
unfolding encode_long
pong_small = omega (
  arith,
  length-append (encode_varint 1) (encode_long 7),
  length-encode_varint 1,
  length-bytes_of 8 (htonll 7),
)

mcpr_connection_write_packet_frame_example :
    mcpr_connection_write_packet State.status (Outgoing.pong 7)
    ≡ ok (encode_varint (length pong_7) ++ pong_7)
mcpr_connection_write_packet_frame_example =
    mcpr_connection_write_packet_frame State.status (Outgoing.pong 7) pong_7 13 tt pong_encoded
      pong_bounds pong_small.0 pong_small.1

-- A keep alive in its frame, and nothing behind it.
abbrev alive : List ℕ
alive = encode_varint 0x0B ++ encode_varint 7

abbrev filled_buffer : Receiving
filled_buffer = record {
  content = encode_varint (length alive) ++ ((alive ++ []) ++ []);
  max_size = length (encode_varint (length alive) ++ (alive ++ []));
  size = length (encode_varint (length alive) ++ (alive ++ []));
}

abbrev waiting : Conn
waiting = record {
  is_closed = false;
  state = State.play;
  use_compression = false;
  use_encryption = false;
  receiving_buf = filled_buffer;
}

alive_size : (0 < length alive) × (length alive < 2 ^ 31)
alive_size = omega (
  arith,
  length-append (encode_varint 0x0B) (encode_varint 7),
  length-encode_varint 0x0B,
  length-encode_varint 7,
)

alive_decodes :
    decode_packet ((alive ++ []) ++ []) State.play (length alive)
    ≡ done (PacketType.pl_sb_keep_alive, Serverbound.keep_alive 7, length alive)
alive_decodes =
    ap (λ l. decode_packet l State.play (length alive))
      (append-nil (alive ++ []) ∙ append-nil alive)
    ∙ decode_packet_keep_alive 0x0B 7 (omega arith) refl (omega arith)

mcpr_connection_read_packet_frame_example :
    (buf : Receiving) × (mcpr_connection_read_packet waiting
      ≡ packet PacketType.pl_sb_keep_alive (Serverbound.keep_alive 7) (with_buffer waiting buf))
    × (buf.size ≡ 0)
    × (take buf.size buf.content ≡ [])
mcpr_connection_read_packet_frame_example =
    mcpr_connection_read_packet_frame waiting alive [] [] PacketType.pl_sb_keep_alive
      (Serverbound.keep_alive 7) refl refl alive_size.0 alive_size.1 alive_decodes

abbrev in_login : Conn
in_login = record {
  is_closed = false;
  state = State.login;
  use_compression = false;
  use_encryption = false;
  receiving_buf = filled_buffer;
}

mcpr_connection_close_reenters_example :
    mcpr_connection_close in_login (some (b'"' ∷ b'"' ∷ []))
    ≡ stuck
        (disconnect_frame (b'"' ∷ b'"' ∷ []) ∷ disconnect_frame (reason_or_default none) ∷ [])
        closed_twice
mcpr_connection_close_reenters_example =
    mcpr_connection_close_reenters in_login (b'"' ∷ b'"' ∷ []) refl (inl refl) (omega arith)

plain_loop_overruns_example :
    plain_loop
      (got (1 ∷ 2 ∷ []) ∷ got (3 ∷ []) ∷ [])
      mcpr_connection_new
      mcpr_connection_new.receiving_buf
    ≡ stopped over_write
plain_loop_overruns_example =
    plain_loop_overruns (1 ∷ 2 ∷ []) (3 ∷ []) [] (omega arith) (omega arith) (omega arith)

-- A cipher whose context is a key byte, added to each byte.
abbrev shifted : ℕ → List ℕ → Option (List ℕ × ℕ)
shifted key [] = none
shifted key (c ∷ cs) = some ((key + c) ∷ [], key)

abbrev two_blocks : List (List ℕ)
two_blocks = (1 ∷ []) ∷ (2 ∷ []) ∷ []

two_blocks-Decrypts : Decrypts shifted 10 two_blocks (11 ∷ 12 ∷ [])
two_blocks-Decrypts =
    Decrypts.block 10 10 (1 ∷ []) 11 ((2 ∷ []) ∷ []) (12 ∷ []) refl
      (Decrypts.block 10 10 (2 ∷ []) 12 [] [] refl (Decrypts.finished 10))

abbrev no_bytes : Receiving
no_bytes = record { content = []; max_size = 0; size = 0 }

encrypted_loop_appends_example :
    (buf' : Receiving) × (encrypted_loop shifted (map got two_blocks) 10 in_login no_bytes
      ≡ updated true (with_buffer in_login buf'))
    × (valid buf' ≡ valid no_bytes ++ (11 ∷ 12 ∷ []))
    × IsValid buf'
encrypted_loop_appends_example =
    encrypted_loop_appends shifted 10 two_blocks (11 ∷ 12 ∷ []) in_login no_bytes
      two_blocks-Decrypts (refl, omega arith)
