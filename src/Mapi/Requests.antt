-- ===== src/Mapi/Requests.antt =====
-- The requests of src/mapi/mapi.c, with their errors.
use stronk.Base.{ℕ, ◌+◌, ◌*◌, ◌-◌, ◌^◌, Bool, not}
use stronk.Base.{◌==◌, ◌||◌, ltb, leb, if◌then◌else◌, Option, none, some, List, ◌++◌, length}
use stronk.Base.{Outcome, ok, fault, ◌>>=◌, over_write, null_read}
use stronk.Base.Null as Null
use stronk.Uuid.{Ninuuid}
use stronk.Packet.Json.{codes}
use stronk.Mapi.{Web}
use stronk.Mapi.Joined.{
  HasJoined, ninuuid_from_string, mapi_minecraft_has_joined_response_from_json,
}

-- sizeof(struct mapi_err_authserver_err) with pointers of eight bytes.
abbrev err_struct_size : ℕ
err_struct_size = 80

-- The length of "%s: %s. Cause: %s", or of "%s: %s." where there is no cause.
abbrev pub message_length : List ℕ → List ℕ → Option (List ℕ) → ℕ
message_length error friendly none = length error + 2 + length friendly + 1
message_length error friendly (some cause) = length error + 2 + length friendly + 9 + length cause

abbrev pub cause_size : Option (List ℕ) → ℕ
cause_size none = 0
cause_size (some cause) = length cause + 1

-- The size of the block that is allocated.
unfoldable pub required_size : List ℕ → List ℕ → Option (List ℕ) → ℕ
required_size error friendly cause =
    err_struct_size
    + (length error + 1)
    + (length friendly + 1)
    + cause_size cause
    + message_length error friendly cause

-- The end of what is written to the block: `err + sizeof(...)` counts in structs.
unfoldable pub written_size : List ℕ → List ℕ → Option (List ℕ) → ℕ
written_size error friendly cause =
    err_struct_size * err_struct_size
    + (length error + 1)
    + (length friendly + 1)
    + cause_size cause
    + message_length error friendly cause
    + 1

-- The status of the error object.
unfoldable pub mapi_err_authserver_err_new : List ℕ → List ℕ → Option (List ℕ) → ℕ → Outcome ℕ
unfolding required_size written_size
mapi_err_authserver_err_new error friendly cause http_code =
    if leb (written_size error friendly cause) (required_size error friendly cause)
    then ok http_code
    else fault over_write

-- An answer, or an error: with the status where the server reported one.
pub data Requested (J : Type 0) : Type 0 where
  answered : Option J → Requested J
  failed : Option ℕ → Requested J

pub data ValidateResult : Type 0 where
  result_success result_error result_failed : ValidateResult

unfoldable pub validate_payload : List ℕ → Option (List ℕ) → List ℕ
validate_payload access none = codes "{\"accessToken\":\"" ++ (access ++ codes "\"}")
validate_payload access (some client) =
    codes "{\"accessToken\":\""
    ++ (access ++ (codes "\",\"clientToken\":\"" ++ (client ++ codes "\"}")))

unfoldable pub has_joined_url : List ℕ → List ℕ → List ℕ
has_joined_url username server_id_hash =
    codes "https://sessionserver.mojang.com/session/minecraft/hasJoined?username="
    ++ (username ++ (codes "&serverId=" ++ server_id_hash))

-- The size of the buffer for the URL and its NUL.
unfoldable pub has_joined_url_size : List ℕ → List ℕ → List ℕ → ℕ
has_joined_url_size username server_id_hash ip =
    length server_id_hash + 84 + length username + length ip + 1

abbrev pub is_success : ℕ → Bool
is_success http_code = http_code == 200 || http_code == 204

module _ {J : Type 0} (web : Web J) where
  -- The two strings; the cause is looked up under the name of the message.
  abbrev pub error_strings : J → Option (List ℕ × List ℕ)
  error_strings json = Null.◌>>=◌ (web.json_object_get json "error") (λ error_json.
      Null.◌>>=◌ (web.json_string_value error_json) (λ error.
        Null.◌>>=◌ (web.json_object_get json "errorMessage") (λ message_json.
          Null.◌>>=◌ (web.json_string_value message_json) (λ message. some (error, message)))))

  abbrev pub err_of : Option (List ℕ × List ℕ) → ℕ → Outcome (Requested J)
  err_of none http_code = ok (failed none)
  err_of (some (error, message)) http_code =
      mapi_err_authserver_err_new error message (some message) http_code >>= λ code.
      ok (failed (some code))

  -- Without the strings the error is NULL, as it is where the body is no JSON.
  abbrev pub error_answer : Option J → ℕ → Outcome (Requested J)
  error_answer none http_code = ok (failed none)
  error_answer (some json) http_code = err_of (error_strings json) http_code

  -- `response == NULL` compares the argument, not what was loaded.
  abbrev pub after_perform : Option (ℕ × List ℕ) → Outcome (Requested J)
  after_perform none = ok (failed none)
  after_perform (some (http_code, body)) =
      if is_success http_code
      then ok (answered (web.json_loadb body))
      else error_answer (web.json_loadb body) http_code

  unfoldable pub make_authserver_request : List ℕ → List ℕ → Outcome (Requested J)
  unfolding mapi_err_authserver_err_new
  make_authserver_request endpoint payload =
      after_perform
        (web.perform (codes "https://authserver.mojang.com/" ++ endpoint) (some payload))

  abbrev pub validated : Requested J → ValidateResult
  validated (answered json) = ValidateResult.result_success
  validated (failed none) = ValidateResult.result_error
  validated (failed (some code)) =
      if code == 403 then ValidateResult.result_failed else ValidateResult.result_error

  unfoldable pub mapi_auth_validate : List ℕ → Option (List ℕ) → Outcome ValidateResult
  unfolding make_authserver_request validate_payload
  mapi_auth_validate access client =
      make_authserver_request (codes "validate") (validate_payload access client) >>= λ requested.
      ok (validated requested)

  -- The status and the JSON; the headers are of no account for the answer.
  abbrev loaded : ℕ → Option J → Option (ℕ × J)
  loaded http_code none = none
  loaded http_code (some json) = if ltb (2 ^ 31 - 1) http_code then none else some (http_code, json)

  unfoldable pub mapi_make_api_request : List ℕ → Option (ℕ × J)
  mapi_make_api_request url =
      Null.◌>>=◌ (web.perform url none) (λ answer. loaded answer.0 (web.json_loadb answer.1))

  -- `strlen(ip)` of an address that may be NULL; the address is no part of the URL.
  unfoldable pub mapi_minecraft_has_joined :
      List ℕ → List ℕ → Option (List ℕ) → Outcome (Option HasJoined)
  unfolding has_joined_url has_joined_url_size mapi_make_api_request
      mapi_minecraft_has_joined_response_from_json
  mapi_minecraft_has_joined username server_id_hash none = fault null_read
  mapi_minecraft_has_joined username server_id_hash (some ip) =
      if leb (length (has_joined_url username server_id_hash) + 1)
        (has_joined_url_size username server_id_hash ip)
      then ok (
          Null.◌>>=◌ (mapi_make_api_request (has_joined_url username server_id_hash))
            (λ answer. mapi_minecraft_has_joined_response_from_json web answer.1))
      else fault over_write

  unfoldable pub mapi_username_to_uuid : List ℕ → Option Ninuuid
  unfolding mapi_make_api_request ninuuid_from_string
  mapi_username_to_uuid player_name =
      Null.◌>>=◌
        (mapi_make_api_request
          (codes "https://api.mojang.com/users/profiles/minecraft/" ++ player_name))
        (λ answer. Null.◌>>=◌ (Null.or_err (not (answer.0 == 204))) (λ _.
          Null.◌>>=◌ (web.json_object_get answer.1 "id") (λ id_json.
            Null.◌>>=◌ (web.json_string_value id_json) (λ id.
              Null.◌>>=◌ (Null.or_err (length id == 32)) (λ _. ninuuid_from_string web id)))))
