-- ===== src/Mapi/Laws.antt =====
-- What the requests of src/mapi/mapi.c answer.
use stronk.Base.{ℕ, ◌+◌, ◌≡◌, ◌≢◌, ◌↔◌, refl, arith, Bool, true, false}
use stronk.Base.{leb, if◌then◌else◌, Option, none, some, List, ◌++◌, length, length-append}
use stronk.Base.{Outcome, ok, fault, ◌>>=◌, over_write}
use stronk.Base.Null as Null
use stronk.Packet.Json.{codes}
use stronk.Mapi.{Web}
use stronk.Mapi.Joined.{mapi_minecraft_has_joined_response_from_json}
use stronk.Mapi.Requests.{
  mapi_err_authserver_err_new, required_size, written_size, Requested, answered, failed,
  ValidateResult, is_success, error_answer, err_of, error_strings, after_perform,
  make_authserver_request, validated, validate_payload, mapi_auth_validate, has_joined_url,
  has_joined_url_size, mapi_make_api_request, mapi_minecraft_has_joined,
}

written_over :
    (error friendly : List ℕ) (cause : Option (List ℕ))
    → leb (written_size error friendly cause) (required_size error friendly cause) ≡ false
unfolding required_size written_size
written_over error friendly none = ground arith
written_over error friendly (some cause) = ground arith

-- The object of a server's error is always written behind its block.
pub mapi_err_authserver_err_new_overruns :
    (error friendly : List ℕ) (cause : Option (List ℕ)) (http_code : ℕ)
    → mapi_err_authserver_err_new error friendly cause http_code ≡ fault over_write
unfolding mapi_err_authserver_err_new
mapi_err_authserver_err_new_overruns error friendly cause http_code =
    rw (written_over error friendly cause) refl

has_joined_url_fits :
    (username server_id_hash ip : List ℕ)
    → leb
        (length (has_joined_url username server_id_hash) + 1)
        (has_joined_url_size username server_id_hash ip)
      ≡ true
unfolding has_joined_url has_joined_url_size
has_joined_url_fits username server_id_hash ip =
    let tail = codes "&serverId=" ++ server_id_hash in
    ground (arith, length-append username tail, length-append (codes "&serverId=") server_id_hash)

-- The URL fits its buffer, whatever the client sends as its name: where there is an address, the
-- answer is what the session server answers for the name and the hash.
pub mapi_minecraft_has_joined_lem :
    {J : Type 0} (web : Web J) (username server_id_hash ip : List ℕ)
    → mapi_minecraft_has_joined web username server_id_hash (some ip)
      ≡ ok (
          Null.◌>>=◌
            (mapi_make_api_request web (has_joined_url username server_id_hash))
            (λ answer. mapi_minecraft_has_joined_response_from_json web answer.1))
unfolding mapi_minecraft_has_joined
mapi_minecraft_has_joined_lem web username server_id_hash ip =
    rw (has_joined_url_fits username server_id_hash ip) refl

-- There is no answer with status 200 or 204.
abbrev IsRefused : Option (ℕ × List ℕ) → Type 0
IsRefused performed =
    (http_code : ℕ) (body : List ℕ)
    → performed ≡ some (http_code, body)
    → is_success http_code ≡ true
    → ⊥

module _ {J : Type 0} (web : Web J) where
  -- What a request comes to, without a value for a server's error that was reported.
  data Ends (performed : Option (ℕ × List ℕ)) : Outcome (Requested J) → Type 0 where
    with_answer :
        (http_code : ℕ) (body : List ℕ) {json : Option J}
        → performed ≡ some (http_code, body)
        → is_success http_code ≡ true
        → Ends performed (ok (answered json))
    without : IsRefused performed → Ends performed (ok (failed none))
    overruns : IsRefused performed → Ends performed (fault over_write)

  err_of-Ends :
      {performed : Option (ℕ × List ℕ)} (strings : Option (List ℕ × List ℕ)) (http_code : ℕ)
      → IsRefused performed
      → Ends performed (err_of web strings http_code)
  err_of-Ends none http_code h = without h
  err_of-Ends (some (error, message)) http_code h =
      rw (mapi_err_authserver_err_new_overruns error message (some message) http_code) (overruns h)

  error_answer-Ends :
      {performed : Option (ℕ × List ℕ)} (json : Option J) (http_code : ℕ)
      → IsRefused performed
      → Ends performed (error_answer web json http_code)
  error_answer-Ends none http_code h = without h
  error_answer-Ends (some json) http_code h = err_of-Ends (error_strings web json) http_code h

  after_perform-Ends :
      (performed : Option (ℕ × List ℕ)) → Ends performed (after_perform web performed)
  after_perform-Ends none = without (λ c b e _. absurd (cc))
  after_perform-Ends (some (http_code, body)) = by_status (is_success http_code) refl
    where
      refuses : is_success http_code ≡ false → IsRefused (some (http_code, body))
      refuses no_success c b same yes_success = cc

      by_status :
          (b : Bool)
          → is_success http_code ≡ b
          → Ends (some (http_code, body)) (
              if b
              then ok (answered (web.json_loadb body))
              else error_answer web (web.json_loadb body) http_code)
      by_status true e = with_answer http_code body refl e
      by_status false e = error_answer-Ends (web.json_loadb body) http_code (refuses e)

  Ends-validated :
      {performed : Option (ℕ × List ℕ)} {o : Outcome (Requested J)}
      → Ends performed o
      → (((o >>= λ requested. ok (validated web requested)) ≡ ok ValidateResult.result_success) ↔ (
          (http_code : ℕ) × (body : List ℕ) × (performed ≡ some (http_code, body))
          × (is_success http_code ≡ true)))
        × ((o >>= λ requested. ok (validated web requested)) ≢ ok ValidateResult.result_failed)
  Ends-validated (with_answer http_code body e s) =
      (((λ _. (http_code, body, e, s)), λ _. refl), λ bad. absurd (cc))
  Ends-validated (without h) =
      (((λ bad. absurd (cc)), λ (c, b, e, s). absurd (h c b e s)), λ bad. absurd (cc))
  Ends-validated (overruns h) =
      (((λ bad. absurd (cc)), λ (c, b, e, s). absurd (h c b e s)), λ bad. absurd (cc))

  -- A token is reported as valid exactly if the server answers with status 200 or 204; no token is
  -- ever reported as refused.
  pub mapi_auth_validate_iff :
      (access : List ℕ) (client : Option (List ℕ))
      → ((mapi_auth_validate web access client ≡ ok ValidateResult.result_success) ↔ (
          (http_code : ℕ) × (body : List ℕ) × (web.perform
              (codes "https://authserver.mojang.com/validate")
              (some (validate_payload access client))
            ≡ some (http_code, body))
          × (is_success http_code ≡ true)))
        × (mapi_auth_validate web access client ≢ ok ValidateResult.result_failed)
  unfolding mapi_auth_validate make_authserver_request
  mapi_auth_validate_iff access client = Ends-validated (
      after_perform-Ends (
        web.perform (codes "https://authserver.mojang.com/validate")
          (some (validate_payload access client))))
