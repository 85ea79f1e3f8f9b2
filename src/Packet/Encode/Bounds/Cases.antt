-- ===== src/Packet/Encode/Bounds/Cases.antt =====
-- How much each case of mcpr_encode_packet stores at most.
use stronk.Base.{
  ℕ, ◌+◌, ◌-◌, ◌*◌, ◌^◌, ◌≤◌, ◌<◌, ◌≡◌, ◌≢◌, ◌⊎◌, inl, inr, refl, arith, ltb, Bool-cases,
}
use stronk.Base.{Bool, true, false, List, [], ◌∷◌, ◌++◌, length, length-append, All, IsByte}
use stronk.Base.{Outcome, ok, err, fault, ◌>>=◌, if◌then◌else◌}
use stronk.Codec.Varint.{encode_varint}
use stronk.Codec.Varint.Encode.{length-encode_varint}
use stronk.Codec.Position.{Position}
use stronk.Codec.Text.{encode_string, encode_chat}
use stronk.Uuid.{Ninuuid, Ccase, to_string}
use stronk.Uuid.Laws.{IsValid, length-to_string}
use stronk.Packet.Types.{Level}
use stronk.Packet.Ids.{packet_type_to_byte}
use stronk.Packet.Json.{server_list_response_to_json}
use stronk.Packet.Outgoing.{JoinGame, Response}
use stronk.Packet.Encode.{
  Encoded, encode_id, encode_pong, encode_response, encode_login_disconnect,
  encode_encryption_request, encode_login_success, encode_set_compression,
}
use stronk.Packet.Encode.Play.{
  encode_disconnect, encode_keep_alive, encode_join_game, encode_plugin_message, level_name,
  encode_spawn_position,
}
use stronk.Packet.Encode.Bounds.Sizes.{
  length-encode_bool, length-encode_byte, length-encode_ubyte, length-encode_int,
  length-encode_long, length-encode_double, length-encode_position,
}

-- What is stored, if anything is, takes at most `b` bytes.
abbrev pub Within : ℕ → Outcome Encoded → Type 0
Within b (ok (out, n)) = length out ≤ b
Within b (err e) = Unit {0}
Within b (fault x) = Unit {0}

pub ruleset sizes = (
  length-append, length-encode_bool, length-encode_byte, length-encode_ubyte, length-encode_int,
  length-encode_long, length-encode_double, length-encode_position,
)

-- A string takes at most five bytes more than its text.
pub string-Within :
    (s : List ℕ) (b : ℕ) (k : List ℕ → Outcome Encoded)
    → ((str : List ℕ) → length str ≤ 5 + length s → Within b (k str))
    → Within b (encode_string s >>= k)
unfolding encode_string
string-Within s b k h = elim (Bool-cases (ltb (2 ^ 31 - 1) (length s))) [
  | inl long ↦ rw long tt
  | inr fits ↦ rw fits (
      h _ (
        omega (arith, length-append (encode_varint (length s)) s, length-encode_varint (length s))))
]

pub pong-Within : (p : ℕ) → Within 13 (encode_pong p)
unfolding encode_pong encode_id packet_type_to_byte
pong-Within p = simp sizes (omega (arith, length-encode_varint 1))

pub login_disconnect-Within : (r : List ℕ) → Within (10 + length r) (encode_login_disconnect r)
unfolding encode_login_disconnect encode_chat encode_id packet_type_to_byte
login_disconnect-Within r =
    string-Within r _ _ λ str h. simp sizes (omega (arith, length-encode_varint 0))

pub encryption_request-Within :
    (s k t : List ℕ)
    → Within (20 + length s + length k + length t) (encode_encryption_request s k t)
unfolding encode_encryption_request encode_id packet_type_to_byte
encryption_request-Within s k t = string-Within s _ _ λ str h. simp sizes (
    omega (
      arith,
      length-encode_varint 1,
      length-encode_varint (length k),
      length-encode_varint (length t),
    ))

pub set_compression-Within : (t : ℕ) → Within 10 (encode_set_compression t)
unfolding encode_set_compression encode_id packet_type_to_byte
set_compression-Within t =
    simp sizes (omega (arith, length-encode_varint 3, length-encode_varint t))

pub login_success-Within :
    (u : Ninuuid) (n : List ℕ)
    → IsValid u
    → All IsByte u.bytes
    → Within (51 + length n) (encode_login_success u n)
unfolding encode_login_success encode_id packet_type_to_byte
login_success-Within u n valid bytes =
    let text = length-to_string u Ccase.lowercase false valid bytes in
    string-Within (to_string u Ccase.lowercase false) _ _ λ str h.
      string-Within n _ _ λ name k. simp sizes (omega (arith, length-encode_varint 2, text.0))

pub response-Within :
    (r : Response) (json : List ℕ)
    → server_list_response_to_json r ≡ ok json
    → Within (5 + 5 + length json) (encode_response r)
unfolding encode_response encode_id packet_type_to_byte
response-Within r json e =
    rw e (simp sizes (omega (arith, length-encode_varint 0, length-encode_varint (length json))))

pub disconnect-Within : (r : List ℕ) → Within (10 + length r) (encode_disconnect r)
unfolding encode_disconnect encode_id packet_type_to_byte
disconnect-Within r =
    string-Within r _ _ λ str h. simp sizes (omega (arith, length-encode_varint 0x1A))

pub keep_alive-Within : (i : ℕ) → Within 10 (encode_keep_alive i)
unfolding encode_keep_alive encode_id packet_type_to_byte
keep_alive-Within i = simp sizes (omega (arith, length-encode_varint 0x1F, length-encode_varint i))

length-level_name : (l : Level) → length (level_name l) ≤ 11
length-level_name Level.default = omega arith
length-level_name _ = omega arith

pub join_game-Within : (p : JoinGame) → Within 33 (encode_join_game p)
unfolding encode_join_game encode_id packet_type_to_byte
join_game-Within p =
    string-Within (level_name p.level_type) _ _
      λ str h. simp sizes (omega (arith, length-encode_varint 0x23, length-level_name p.level_type))

pub plugin_message-Within :
    (c d : List ℕ) → Within (10 + length c + length d) (encode_plugin_message c d)
unfolding encode_plugin_message encode_id packet_type_to_byte
plugin_message-Within c d = elim (Bool-cases (ltb 20 (length c))) [
  | inl long ↦ rw long tt
  | inr fits ↦
      rw fits (string-Within c _ _ λ str h. simp sizes (omega (arith, length-encode_varint 0x18)))
]

pub spawn_position-Within : (l : Position) → Within 13 (encode_spawn_position l)
unfolding encode_spawn_position encode_id packet_type_to_byte
spawn_position-Within l = simp sizes (omega (arith, length-encode_varint 0x46))
