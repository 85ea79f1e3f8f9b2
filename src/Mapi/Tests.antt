-- ===== src/Mapi/Tests.antt =====
-- src/mapi/mapi.c on concrete answers.
use Prim.Native.String.{String}
use text.Mathlib.Text as Text
use stronk.Base.{
  ℕ, ◌≡◌, ◌≢◌, ◌↔◌, refl, arith, true, if◌then◌else◌, Option, none, some, List, [], ◌∷◌, ◌++◌, take,
  replicate, ok, fault, use_after_free,
}
use stronk.Uuid.{Ninuuid}
use stronk.Packet.Json.{codes}
use stronk.Mapi.{Web}
use stronk.Mapi.Strings.{
  mapi_uuid_compress_string, mapi_uuid_decompress_string, compress-decompress_string,
}
use stronk.Mapi.Token.{
  isalnum, alphanumeric, mapi_generate_client_token, mapi_generate_client_token_lem,
}
use stronk.Mapi.Joined.{
  IsText, ninuuid_from_string, has_joined_response_of, has_joined_response_runs_on,
}
use stronk.Mapi.Requests.{ValidateResult, validate_payload, is_success, mapi_auth_validate}
use stronk.Base.Null.{same_string}
use stronk.Mapi.Auth.{
  AuthResponse, json_to_auth_response, profiles_of, profile_of, user_of, properties_of, property_of,
}
use stronk.Mapi.Laws.{mapi_auth_validate_iff}

-- A JSON document with the entries that the tests look at.
data Doc : Type 0 where
  string : List ℕ → Doc
  object : List (String × List ℕ) → Doc

abbrev lookup : String → List (String × List ℕ) → Option Doc
lookup key [] = none
lookup key ((k, v) ∷ rest) =
    let others = lookup key rest in if Text.◌==◌ k key then some (string v) else others

abbrev object_get : Doc → String → Option Doc
object_get (string t) key = none
object_get (object entries) key = lookup key entries

abbrev string_value : Doc → Option (List ℕ)
string_value (string t) = some t
string_value (object entries) = none

abbrev zeros : Ninuuid
zeros = record { bytes = replicate 16 0 }

abbrev web : Web Doc
web = record {
  perform = λ url payload. some (204, []);
  json_loadb = λ body. none;
  json_object_get = object_get;
  json_string_value = string_value;
  json_array = λ json. [];
  sscanf = λ compressed input. some zeros;
  malloc = λ size. replicate size 0xAA;
}

abbrev identifier : List ℕ
identifier = codes "069a79f444e94726a5befca90e38aaf5"

hyphens : mapi_uuid_decompress_string identifier ≡ codes "069a79f4-44e9-4726-a5be-fca90e38aaf5"
unfolding mapi_uuid_decompress_string
hyphens = refl

compress-decompress_string_example :
    mapi_uuid_compress_string (mapi_uuid_decompress_string identifier) ≡ identifier
compress-decompress_string_example = compress-decompress_string identifier refl

-- Control characters and letters.
abbrev random : List ℕ
random = 7 ∷ b'x' ∷ 200 ∷ b'4' ∷ b'-' ∷ b'Q' ∷ []

mapi_generate_client_token_lem_example :
    mapi_generate_client_token random 3 ≡ some (take 3 (alphanumeric random))
unfolding isalnum
mapi_generate_client_token_lem_example = mapi_generate_client_token_lem random 3 (omega arith)

nonzero : IsText (b'N' ∷ b'o' ∷ b't' ∷ [])
nonzero = (ground arith, (ground arith, (ground arith, tt)))

has_joined_response_runs_on_example :
    has_joined_response_of web identifier (b'N' ∷ b'o' ∷ b't' ∷ []) (b'V' ∷ []) (b'S' ∷ [])
    ≡ some (record {
      id = zeros;
      player_name = b'N' ∷ b'o' ∷ b't' ∷ [];
      skin_blob_base64 = (b'V' ∷ []) ++ ((b'S' ∷ []) ++ (b'N' ∷ b'o' ∷ b't' ∷ []));
      signature = (b'S' ∷ []) ++ (b'N' ∷ b'o' ∷ b't' ∷ []);
    })
unfolding ninuuid_from_string
has_joined_response_runs_on_example =
    has_joined_response_runs_on web identifier (b'N' ∷ b'o' ∷ b't' ∷ []) (b'V' ∷ []) (b'S' ∷ [])
      zeros refl (ground arith, tt) (ground arith, tt) nonzero

mapi_auth_validate_iff_example :
    ((mapi_auth_validate web (codes "token") none ≡ ok ValidateResult.result_success) ↔ (
      (http_code : ℕ) × (body : List ℕ) × (web.perform
          (codes "https://authserver.mojang.com/validate")
          (some (validate_payload (codes "token") none))
        ≡ some (http_code, body))
      × (is_success http_code ≡ true)))
    × (mapi_auth_validate web (codes "token") none ≢ ok ValidateResult.result_failed)
mapi_auth_validate_iff_example = mapi_auth_validate_iff web (codes "token") none

-- Every lookup gives the same document, which is a text and an array too.
abbrev uniform : Web ℕ
uniform = record {
  perform = λ url payload. none;
  json_loadb = λ body. some 5;
  json_object_get = λ json key. some json;
  json_string_value = λ json. some identifier;
  json_array = λ json. json ∷ [];
  sscanf = λ compressed input. some zeros;
  malloc = λ size. replicate size 0;
}

abbrev response : AuthResponse
response = record {
  access_token = identifier;
  client_token = identifier;
  available_profiles = record { uuid = zeros; name = identifier; legacy = true } ∷ [];
  selected_uuid = zeros;
  selected_name = identifier;
  user_present = none;
  user = some (record { id = identifier; preferred_language = none; twitch_access_token = none });
}

-- A profile without a member `legacy` ends in a fault, as its name is freed twice.
profile_without_legacy :
    profile_of
      (record uniform {
        json_object_get = λ json key. if Text.◌==◌ key "legacy" then none else some 5;
      })
      (λ json. true)
      5
    ≡ fault use_after_free
unfolding profile_of ninuuid_from_string
profile_without_legacy = refl

sign_in_response : json_to_auth_response uniform (λ json. true) 5 ≡ ok (some response)
unfolding json_to_auth_response profiles_of profile_of user_of properties_of property_of
    ninuuid_from_string same_string
sign_in_response = refl
