-- ===== src/Packet/Decode/Wire.antt =====
-- Packets as the protocol lays them out are read by mcpr_decode_packet of src/mcpr/packet.c.
use stronk.Base.{ℕ, ◌+◌, ◌-◌, ◌%◌, ◌^◌, ◌<◌, ◌≡◌, ◌⊎◌, refl, ap, ◌∙◌, sym, arith, u8, ltb}
use stronk.Base.{List, [], ◌++◌, length, length-append, drop-length_append, if◌then◌else◌}
use stronk.Base.{false, ok, ◌==◌, some, append-nil}
use stronk.Codec.Endian.{length-bytes_of}
use stronk.Codec.Varint.{encode_varint, decode_varint}
use stronk.Codec.Varint.Encode.{length-encode_varint}
use stronk.Codec.Varint.RoundTrip.{decode_varint-encode_varint}
use stronk.Codec.Text.{decode_string}
use stronk.Codec.Text.Laws.{decode_string-encode_string}
use stronk.Codec.Fixed.{encode_ushort}
use stronk.Codec.Fixed.Laws.{decode-encode_ints}
use stronk.Packet.Types.{State, PacketType, Serverbound}
use stronk.Packet.Ids.{get_packet_type}
use stronk.Packet.Encode.{counted}
use stronk.Packet.Cursor.{Cursor, advance, done}
use stronk.Packet.Decode.{decode_handshake, handshake_tail}
use stronk.Packet.Decode.Main.{decode_packet, decode_body}

-- The cursor at `pos` of a packet of which `rest` is left.
abbrev pub at : List ℕ → ℕ → Cursor
at rest pos = record { mem = rest; len_left = length rest; pos = pos }

pub advance-front :
    (pre rest : List ℕ) (pos : ℕ)
    → length (pre ++ rest) < 2 ^ 64
    → advance (at (pre ++ rest) pos) (length pre) ≡ at rest (pos + length pre)
unfolding advance
advance-front pre rest pos h =
    let n = length-append pre rest in
    let left : (length (pre ++ rest) + 2 ^ 64 - length pre) % 2 ^ 64 ≡ length rest = omega arith in
    rw (drop-length_append pre rest, left)

pub advance-pos : (c : Cursor) (n : ℕ) → (advance c n).pos ≡ c.pos + n
unfolding advance
advance-pos c n = refl

-- A packet is the varint of its id, and the rest.
pub decode_packet-id :
    (id : ℕ) (rest : List ℕ) (state : State) (t : PacketType) (fields : Serverbound) (n : ℕ)
    → id < 2 ^ 32
    → length (encode_varint id ++ rest) < 2 ^ 64
    → get_packet_type (u8 id) state ≡ some t
    → decode_body state t (at rest (length (encode_varint id))) ≡ done (fields, n)
    → decode_packet (encode_varint id ++ rest) state (length (encode_varint id ++ rest))
      ≡ done (t, fields, n)
unfolding decode_packet
decode_packet-id id rest state t fields n h len named body =
    let zeroed : 0 + length (encode_varint id) ≡ length (encode_varint id) = omega arith in
    let total = length-append (encode_varint id) rest in
    rw (
      decode_varint-encode_varint id rest (length (encode_varint id ++ rest)) h (omega arith),
      named,
      advance-front (encode_varint id) rest 0 len,
      zeroed,
      body,
    )

pub varint_front :
    (v : ℕ) (rest : List ℕ)
    → v < 2 ^ 32
    → decode_varint (encode_varint v ++ rest) (length (encode_varint v ++ rest))
      ≡ ok (v, length (encode_varint v))
varint_front v rest h =
    decode_varint-encode_varint v rest _ h (omega (arith, length-append (encode_varint v) rest))

pub string_front :
    (str rest : List ℕ)
    → length str < 2 ^ 31
    → decode_string (counted str ++ rest) (length (counted str ++ rest))
      ≡ ok (str, length (counted str))
string_front str rest h = decode_string-encode_string str rest _ h (
    omega (arith, length-append (encode_varint (length str)) str, length-append (counted str) rest))

pub varint_alone :
    (v : ℕ)
    → v < 2 ^ 32
    → decode_varint (encode_varint v) (length (encode_varint v)) ≡ ok (v, length (encode_varint v))
varint_alone v h =
    ap (λ l. decode_varint l (length l)) (sym (append-nil (encode_varint v))) ∙ varint_front v [] h

pub string_alone :
    (str : List ℕ)
    → length str < 2 ^ 31
    → decode_string (counted str) (length (counted str)) ≡ ok (str, length (counted str))
string_alone str h =
    ap (λ l. decode_string l (length l)) (sym (append-nil (counted str))) ∙ string_front str [] h

-- The wire format of a handshake, behind its id.
abbrev pub handshake_wire : ℕ → List ℕ → ℕ → ℕ → List ℕ
handshake_wire version address port next =
    encode_varint version ++ (counted address ++ (encode_ushort port ++ encode_varint next))

length-encode_ushort : (i : ℕ) → length (encode_ushort i) ≡ 2
unfolding encode_ushort
length-encode_ushort i = length-bytes_of 2 _

tail_body :
    (version port next pos : ℕ) (address : List ℕ)
    → port < 2 ^ 16
    → next ≡ 1 ⊎ next ≡ 2
    → handshake_tail (at (encode_ushort port ++ encode_varint next) pos) version address
      ≡ done (
        Serverbound.handshake version address port
            (if next == 1 then State.status else State.login),
        pos + 2 + length (encode_varint next),
      )
unfolding handshake_tail
tail_body version port next pos address hp hn =
    let last = encode_varint next in
    let short = length-encode_ushort port in
    let small : next < 2 ^ 32 = ground (arith, hn) in
    let room : length (encode_ushort port ++ last) < 2 ^ 64 =
      omega (arith, length-append (encode_ushort port) last, length-encode_varint next) in
    let long : ltb (length (encode_ushort port ++ last)) 2 ≡ false =
      ground (arith, length-append (encode_ushort port) last) in
    let port_ok = (decode-encode_ints port 0 0 last hp (omega arith) (omega arith)).1 in
    let moved : advance (at (encode_ushort port ++ last) pos) 2 ≡ at last (pos + 2) =
      rw (← short) (advance-front (encode_ushort port) last pos room) in
    rw
      (long, port_ok, moved, varint_alone next small, advance-pos (at last (pos + 2)) (length last))
      (ground (arith, hn))

pub handshake_body :
    (version port next pos : ℕ) (address : List ℕ)
    → version < 2 ^ 32
    → port < 2 ^ 16
    → length address < 2 ^ 31
    → next ≡ 1 ⊎ next ≡ 2
    → length (handshake_wire version address port next) < 2 ^ 64
    → decode_handshake (at (handshake_wire version address port next) pos)
      ≡ done (
        Serverbound.handshake version address port
            (if next == 1 then State.status else State.login),
        pos + length (handshake_wire version address port next),
      )
unfolding decode_handshake
handshake_body version port next pos address hv hp ha hn len =
    let tail = encode_ushort port ++ encode_varint next in
    let size : length (handshake_wire version address port next)
        ≡ length (encode_varint version)
          + (length (counted address) + (2 + length (encode_varint next))) =
      ground (
        arith,
        length-append (encode_varint version) (counted address ++ tail),
        length-append (counted address) tail,
        length-append (encode_ushort port) (encode_varint next),
        length-encode_ushort port,
      ) in
    let room : length (counted address ++ tail) < 2 ^ 64 =
      omega (arith, length-append (encode_varint version) (counted address ++ tail), len) in
    rw
      (
        varint_front version (counted address ++ tail) hv,
        advance-front (encode_varint version) (counted address ++ tail) pos len,
        string_front address tail ha,
        advance-front (counted address) tail (pos + length (encode_varint version)) room,
        tail_body version port next
            (pos + length (encode_varint version) + length (counted address)) address hp hn,
      )
      (ground (arith, size))
