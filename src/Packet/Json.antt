-- ===== src/Packet/Json.antt =====
-- server_list_response_to_json of src/mcpr/packet.c, by the conversions of `sprintf` it uses.
use Prim.Native.Char.{code}
use Prim.Native.String.{String}
use stronk.Base.{ℕ, ◌+◌, ◌-◌, ◌/◌, ◌%◌, ◌^◌, ◌<◌, arith, Acc, dite, dec_lt, lt_wf, ltb}
use stronk.Base.{if◌then◌else◌, List, [], ◌∷◌, ◌++◌, Option, none, some, Outcome, ok, fault}
use stronk.Base.{uninitialised}
use stronk.Packet.Outgoing.{Response}

abbrev pub codes : String → List ℕ
codes String.[] = []
codes (String.◌∷◌ c s) = code c ∷ codes s

print_uint_acc : (n : ℕ) → Acc ◌<◌ n → List ℕ
print_uint_acc n (Acc.intro _ smaller) =
    dite (dec_lt 9 n)
      (λ more. print_uint_acc (n / 10) (smaller _ (omega arith)) ++ ((b'0' + n % 10) ∷ []))
      (λ _. (b'0' + n) ∷ [])

-- `%i` on a 32-bit pattern.
unfoldable pub print_int : ℕ → List ℕ
unfolding print_uint_acc lt_wf dec_lt
print_int w =
    if ltb w (2 ^ 31)
    then print_uint_acc w (lt_wf.apply w)
    else b'-' ∷ print_uint_acc (2 ^ 32 - w) (lt_wf.apply (2 ^ 32 - w))

json_favicon : Option (List ℕ) → List ℕ
json_favicon none = []
json_favicon (some favicon) = codes ",\"favicon\":\"" ++ (favicon ++ codes "\"")

-- With a sample, the loop runs to a variable that is initialised by itself.
unfoldable pub server_list_response_to_json : Response → Outcome (List ℕ)
unfolding print_int json_favicon
server_list_response_to_json r = elim r.player_sample [
  | some sample ↦ fault uninitialised
  | none ↦ ok (
      codes "{\"version\":{\"name\":\""
      ++ (r.version_name
          ++ (codes "\",\"protocol\":"
              ++ (print_int r.protocol_version
                  ++ (codes "},\"players\":{\"max\":"
                      ++ (print_int r.max_players
                          ++ (codes ",\"online\":"
                              ++ (print_int r.online_players
                                  ++ (codes "},\"description\":"
                                      ++ (r.description
                                          ++ (json_favicon r.favicon ++ codes "}")))))))))))
]
