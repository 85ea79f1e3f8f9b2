-- ===== src/Packet/Decode/Laws.antt =====
-- mcpr_decode_packet of src/mcpr/packet.c on whole packets.
use stronk.Base.{ℕ, ◌+◌, ◌^◌, ◌<◌, ◌≡◌, ◌⊎◌, refl, ap, ◌∙◌, arith, u8}
use stronk.Base.{
  List, ◌++◌, length, length-append, ◌==◌, if◌then◌else◌, append_assoc, append-nil, [], ltb, true,
}
use stronk.Codec.Endian.{read_bytes-front}
use stronk.Codec.Varint.{encode_varint}
use stronk.Codec.Varint.Encode.{length-encode_varint}
use stronk.Packet.Types.{State, PacketType, Serverbound}
use stronk.Packet.Ids.{get_packet_type}
use stronk.Packet.Encode.{counted}
use stronk.Packet.Cursor.{Decoded, done, advance}
use stronk.Packet.Decode.{decode_login_start, decode_encryption_response}
use stronk.Packet.Decode.Play.{decode_keep_alive}
use stronk.Packet.Decode.Main.{decode_packet, decode_body}
use stronk.Packet.Decode.Wire.{
  at, advance-front, advance-pos, decode_packet-id, varint_front, varint_alone,
}
use stronk.Packet.Decode.Wire.{string_alone, handshake_wire, handshake_body}

same_size :
    {fields : Serverbound} {a b : ℕ}
    → a ≡ b
    → ◌≡◌ {A = Decoded (Serverbound × ℕ)} (done (fields, a)) (done (fields, b))
same_size {fields} e = ap (λ k. done (fields, k)) e

-- A handshake in the protocol's layout is decoded to its fields, and all of it is read. Any id
-- will do: in the handshake state none is looked at.
pub decode_packet_handshake :
    (id version port next : ℕ) (address : List ℕ)
    → id < 2 ^ 32
    → version < 2 ^ 32
    → port < 2 ^ 16
    → length address < 2 ^ 31
    → next ≡ 1 ⊎ next ≡ 2
    → length (encode_varint id ++ handshake_wire version address port next) < 2 ^ 64
    → let wire = encode_varint id ++ handshake_wire version address port next in
      decode_packet wire State.handshake (length wire)
      ≡ done (
        PacketType.hs_sb_handshake,
        Serverbound.handshake version address port
            (if next == 1 then State.status else State.login),
        length wire,
      )
unfolding decode_body get_packet_type
decode_packet_handshake id version port next address hi hv hp ha hn len =
    let rest = handshake_wire version address port next in
    let n = length-append (encode_varint id) rest in
    decode_packet-id id rest State.handshake PacketType.hs_sb_handshake _ _ hi len refl (
      handshake_body version port next (length (encode_varint id)) address hv hp ha hn
        (omega (arith, n, len))
      ∙ same_size (omega (arith, n)))

-- A login start is decoded to the name of the player, and all of it is read. Of the id only the
-- low 8 bits count.
pub decode_packet_login_start :
    (id : ℕ) (name : List ℕ)
    → id < 2 ^ 32
    → u8 id ≡ 0
    → length name < 2 ^ 31
    → let wire = encode_varint id ++ counted name in
      decode_packet wire State.login (length wire)
      ≡ done (PacketType.lg_sb_login_start, Serverbound.login_start name, length wire)
unfolding decode_body get_packet_type decode_login_start
decode_packet_login_start id name hi low h =
    let n = length-append (encode_varint id) (counted name) in
    let size = length-append (encode_varint (length name)) name in
    let small = length-encode_varint id in
    let small' = length-encode_varint (length name) in
    decode_packet-id id (counted name) State.login PacketType.lg_sb_login_start _ _ hi (omega arith)
      (rw low refl) (rw (string_alone name h) (same_size (omega arith)))

-- A keep alive is decoded to its number, and all of it is read. Of the id only the low 8 bits
-- count.
pub decode_packet_keep_alive :
    (id v : ℕ)
    → id < 2 ^ 32
    → u8 id ≡ 0x0B
    → v < 2 ^ 32
    → let wire = encode_varint id ++ encode_varint v in
      decode_packet wire State.play (length wire)
      ≡ done (PacketType.pl_sb_keep_alive, Serverbound.keep_alive v, length wire)
unfolding decode_body get_packet_type decode_keep_alive
decode_packet_keep_alive id v hi low h =
    let n = length-append (encode_varint id) (encode_varint v) in
    let small = length-encode_varint id in
    let small' = length-encode_varint v in
    decode_packet-id id (encode_varint v) State.play PacketType.pl_sb_keep_alive _ _ hi
      (omega arith) (rw low refl)
      (rw
        (
          varint_alone v h,
          advance-pos (at (encode_varint v) (length (encode_varint id))) (length (encode_varint v)),
        )
        (same_size (omega arith)))

-- An encryption response is decoded to the secret and the token, and all of it is read, if the
-- two lengths have encodings of one size: the decoder moves past the second by the size of the
-- first.
pub decode_packet_encryption_response :
    (secret token : List ℕ)
    → length secret < 2 ^ 31
    → length token < 2 ^ 31
    → length (encode_varint (length secret)) ≡ length (encode_varint (length token))
    → let wire = encode_varint 1 ++ (counted secret ++ counted token) in
      decode_packet wire State.login (length wire)
      ≡ done (
        PacketType.lg_sb_encryption_response,
        Serverbound.encryption_response secret token,
        length wire,
      )
unfolding decode_body get_packet_type decode_encryption_response
decode_packet_encryption_response secret token hs ht same =
    let first = encode_varint (length secret) in
    let second = encode_varint (length token) in
    let start = length (encode_varint 1) in
    let all_size = length-append (encode_varint 1) (counted secret ++ counted token) in
    let both_size = length-append (counted secret) (counted token) in
    let secret_size = length-append first secret in
    let token_size = length-append second token in
    let behind_size = length-append secret (counted token) in
    let rest_size = length-append first (secret ++ counted token) in
    let id_small = length-encode_varint 1 in
    let first_small = length-encode_varint (length secret) in
    let moved : advance (at (counted token) (start + length first + length secret)) (length first)
        ≡ at token (start + length first + length secret + length first) =
      rw same (advance-front second token (start + length second + length secret) (omega arith)) in
    let all_token = rw (append-nil token) at (read_bytes-front token [] (length token) refl) in
    let secret_ok : ltb (length secret) (2 ^ 31) ≡ true = ground arith in
    let token_ok : ltb (length token) (2 ^ 31) ≡ true = ground arith in
    decode_packet-id 1 (counted secret ++ counted token) State.login
      PacketType.lg_sb_encryption_response _ _ (omega arith) (omega arith) refl
      (rw (append_assoc first secret (counted token)) (
        rw
          (
            varint_front (length secret) (secret ++ counted token) (omega arith),
            secret_ok,
            advance-front first (secret ++ counted token) start (omega arith),
            read_bytes-front secret (counted token) (length secret) refl,
            advance-front secret (counted token) (start + length first) (omega arith),
            varint_front (length token) token (omega arith),
            token_ok,
            moved,
            all_token,
          )
          (same_size
            (omega (arith, length-append (encode_varint 1) (first ++ (secret ++ counted token)))))))
