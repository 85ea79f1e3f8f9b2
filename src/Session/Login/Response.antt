-- ===== src/Session/Login/Response.antt =====
-- handle_lg_encryption_response of src/network/packethandlers/login.c
use stronk.Base.{ℕ, false, not, Option, none, some, List, ◌++◌, length, ltb}
use stronk.Base.{if◌then◌else◌, Outcome, uninitialised}
use stronk.Base.Null.{◌>>=◌, or_err}
use stronk.Uuid.{Ninuuid}
use stronk.Packet.Types.{State}
use stronk.Packet.Outgoing.{Outgoing}
use stronk.Crypto.{mcpr_crypto_stringify_sha1}
use stronk.Session.{Environment, Session, HpResultType, plain, login_failed}
use stronk.Session.{Handled, answer, send, set_state}
use stronk.Session.Login.{player_of, send_post_login_sequence, closed_by_type}

-- Up to `mcpr_connection_set_crypto`: the decrypted secret, which is key and vector of both
-- contexts.
unfoldable pub decrypted_secret : Environment → ℕ → List ℕ → Option (List ℕ)
decrypted_secret env rsa shared_secret = do
  _ ← or_err (not (ltb (env.rsa_size rsa) (length shared_secret)))
  secret ← env.rsa_private_decrypt rsa shared_secret
  _ ← or_err (env.encrypt_init secret)
  _ ← or_err (env.decrypt_init secret)
  some secret

-- The text of the hash over the secret and the encoded public key.
unfoldable pub server_id_hash : Environment → ℕ → List ℕ → Option (Outcome (List ℕ))
unfolding mcpr_crypto_stringify_sha1
server_id_hash env rsa secret = do
  key ← env.i2d_rsa_pubkey rsa
  hash ← env.sha1 (secret ++ key)
  some (mcpr_crypto_stringify_sha1 hash)

abbrev pub bind_text : Outcome (List ℕ) → (List ℕ → Option Ninuuid) → Outcome (Option Ninuuid)
bind_text (Outcome.ok text) next = Outcome.ok (next text)
bind_text (Outcome.err e) next = Outcome.err e
bind_text (Outcome.fault x) next = Outcome.fault x

-- NULL where the hash could not be made.
abbrev pub with_text :
    Option (Outcome (List ℕ)) → (List ℕ → Option Ninuuid) → Outcome (Option Ninuuid)
with_text none next = Outcome.ok none
with_text (some text) next = bind_text text next

-- The identifier that the session server has for the user name and the hash.
unfoldable pub authenticate :
    Environment → ℕ → List ℕ → List ℕ → Option (List ℕ) → Outcome (Option Ninuuid)
unfolding server_id_hash
authenticate env rsa secret username address =
    with_text (server_id_hash env rsa secret) (λ text. env.has_joined username text address)

-- The labels `err`, `cleanup_only` and `closed`. The user name is kept by `cleanup_only`, as the
-- player holds it.
abbrev pub cleaned : Session → Session
cleaned s = record s {
  tmp_present = false;
  tmp = record { rsa = none; verify_token = none; username = none };
}

abbrev pub cleanup_only : Session → Session
cleanup_only s = record s {
  tmp_present = false;
  tmp = record { rsa = none; verify_token = none; username = s.tmp.username };
}

abbrev pub failed : Session → Handled
failed s = answer (cleaned s) login_failed

abbrev pub hung_up : Session → Handled
hung_up s = answer (cleaned s) (plain HpResultType.closed)

-- What follows the result of `send_post_login_sequence`.
abbrev pub finish_login : HpResultType → Session → Handled
finish_login HpResultType.fatal s = failed s
finish_login HpResultType.closed s = hung_up s
finish_login _ s = answer (cleanup_only s) (plain HpResultType.ok)

abbrev pub after_sequence : Handled → Handled
after_sequence (Outcome.ok (s, r)) = finish_login r.result s
after_sequence (Outcome.err e) = Outcome.err e
after_sequence (Outcome.fault x) = Outcome.fault x

-- From the answer of the session server on.
unfoldable pub enter_play : Environment → Ninuuid → List ℕ → Session → Handled
unfolding player_of send_post_login_sequence closed_by_type
enter_play env uuid username s =
    send env s (State.login, Outgoing.login_success uuid username)
      (λ e. closed_by_type e (hung_up s) (failed s))
      (λ s'.
        let p = player_of env uuid username in
        after_sequence
          (send_post_login_sequence env p (record (set_state s' State.play) { player = some p })))

-- Behind the answer of the session server.
unfoldable pub joined : Environment → List ℕ → Session → Outcome (Option Ninuuid) → Handled
unfolding enter_play
joined env username s (Outcome.fault x) = Outcome.fault x
joined env username s (Outcome.err e) = Outcome.err e
joined env username s (Outcome.ok none) = failed s
joined env username s (Outcome.ok (some uuid)) = enter_play env uuid username s

-- Behind the set-up of the cipher contexts.
unfoldable pub unsealed : Environment → ℕ → List ℕ → Session → Option (List ℕ) → Handled
unfolding authenticate joined
unsealed env rsa username s none = failed s
unsealed env rsa username s (some secret) =
    joined env username (record s { ctx = some secret })
      (authenticate env rsa secret username s.server_address_used)

-- With the key and the user name of the login start.
unfoldable pub respond : Environment → List ℕ → Session → ℕ → List ℕ → Handled
unfolding decrypted_secret unsealed
respond env shared_secret s rsa username =
    unsealed env rsa username s (decrypted_secret env rsa shared_secret)

abbrev pub with_tmp : Option ℕ → Option (List ℕ) → (ℕ → List ℕ → Handled) → Handled
with_tmp (some rsa) (some username) next = next rsa username
with_tmp _ _ next = Outcome.fault uninitialised

-- The verify token of the packet is not looked at.
unfoldable pub handle_lg_encryption_response : Environment → List ℕ → List ℕ → Session → Handled
unfolding respond
handle_lg_encryption_response env shared_secret verify_token s =
    if s.tmp_present
    then with_tmp s.tmp.rsa s.tmp.username (respond env shared_secret s)
    else answer s login_failed
