-- ===== src/Session/Dispatch/Facts.antt =====
-- What a session of src/network promises: the phases of a client, the packets that lead from one
-- to another, and what holds in each.
use stronk.Base.{
  Bool, true, false, ℕ, List, Option, none, some, ◌≡◌, sym, subst, Outcome, Error, Fault,
}
use mathlib.Core.List.{Memᴰ}
use stronk.Base.{◌∷◌}
use stronk.Packet.Outgoing.{Outgoing}
use stronk.Packet.Types.{State, PacketType, Serverbound}
use stronk.Session.{Environment, Session, Player, Tmp, HpResult, HpResultType, Handled}
use stronk.Session.Login.Response.{decrypted_secret, authenticate}

-- The abstract state of a client.
pub data Phase : Type 0 where
  handshaking querying logging_in challenged playing : Phase

abbrev pub phase_in : State → Bool → Phase
phase_in State.handshake tmp_present = Phase.handshaking
phase_in State.status tmp_present = Phase.querying
phase_in State.login true = Phase.challenged
phase_in State.login false = Phase.logging_in
phase_in State.play tmp_present = Phase.playing

abbrev pub phase_of : Session → Phase
phase_of s = phase_in s.conn.state s.tmp_present

-- The packets that a client may send in a phase, and the phase that follows.
pub data Step : Phase → PacketType → Phase → Type 0 where
  to_status : Step Phase.handshaking PacketType.hs_sb_handshake Phase.querying
  to_login : Step Phase.handshaking PacketType.hs_sb_handshake Phase.logging_in
  ask : Step Phase.querying PacketType.st_sb_request Phase.querying
  ping : Step Phase.querying PacketType.st_sb_ping Phase.querying
  start : Step Phase.logging_in PacketType.lg_sb_login_start Phase.challenged
  restart : Step Phase.challenged PacketType.lg_sb_login_start Phase.challenged
  respond : Step Phase.challenged PacketType.lg_sb_encryption_response Phase.playing
  act : (type : PacketType) → Step Phase.playing type Phase.playing

-- The handler's result leaves the connection open: packet_handler returns true.
abbrev pub StaysOpen : HpResultType → Type 0
StaysOpen HpResultType.ok = Unit
StaysOpen HpResultType.err = Unit
StaysOpen HpResultType.fatal = ⊥
StaysOpen HpResultType.closed = ⊥

-- A packet that was handed to its handler, with what the handler took from outside.
pub record Asked : Type 0 where
  pub env : Environment
  pub type : PacketType
  pub fields : Serverbound

abbrev pub login_start_in : Environment → List ℕ → Asked
login_start_in env name = record {
  env = env;
  type = PacketType.lg_sb_login_start;
  fields = Serverbound.login_start name;
}

abbrev pub response_in : Environment → List ℕ → List ℕ → Asked
response_in env encrypted token = record {
  env = env;
  type = PacketType.lg_sb_encryption_response;
  fields = Serverbound.encryption_response encrypted token;
}

-- The key pair was generated for a login start with the name, which is among the packets `h`.
pub record IsStarted (h : List Asked) (rsa : ℕ) (name : List ℕ) : Type 0 where
  pub env : Environment
  pub sent : List (State × Outgoing)
  pub asked : Memᴰ (login_start_in env name) h
  pub generated : env.rsa_generate_key sent ≡ rsa

-- Among the packets `h` are a login start with the player's name and an encryption response. When
-- the response was handled, its secret was decrypted with the key pair of the login start, the
-- cipher contexts were made with it, and the session server gave the player's identifier for the
-- name and the hash over the secret and that key.
pub record IsAuthentic (h : List Asked) (ctx address : Option (List ℕ)) (p : Player) : Type 0 where
  pub env : Environment
  pub rsa : ℕ
  pub encrypted : List ℕ
  pub token : List ℕ
  pub secret : List ℕ
  pub started : IsStarted h rsa p.username
  pub asked : Memᴰ (response_in env encrypted token) h
  pub decrypted : decrypted_secret env rsa encrypted ≡ some secret
  pub kept : ctx ≡ some secret
  pub joined : authenticate env rsa secret p.username address ≡ Outcome.ok (some p.uuid)

abbrev pub HasTmp : List Asked → Tmp → Type 0
HasTmp h tmp =
    (rsa : ℕ) × (name : List ℕ) × (tmp.rsa ≡ some rsa)
    × (tmp.username ≡ some name)
    × IsStarted h rsa name

abbrev pub ValidIn : List Asked → State → Session → Type 0
ValidIn h State.handshake s = (s.player ≡ none) × (s.tmp_present ≡ false)
ValidIn h State.status s = (s.player ≡ none) × (s.tmp_present ≡ false)
ValidIn h State.login s =
    (s.player ≡ none)
    × (address : List ℕ) × (s.server_address_used ≡ some address)
    × (s.tmp_present ≡ true → HasTmp h s.tmp)
ValidIn h State.play s =
    (s.tmp_present ≡ false)
    × (p : Player) × (s.player ≡ some p)
    × IsAuthentic h s.ctx s.server_address_used p

-- What holds behind the packets `h`, the last one first, by the state of the connection.
abbrev pub IsValid : List Asked → Session → Type 0
IsValid h s = (s.conn.use_encryption ≡ false) × ValidIn h s.conn.state s

IsStarted-later :
    {h : List Asked} {rsa : ℕ} {name : List ℕ} (a : Asked)
    → IsStarted h rsa name
    → IsStarted (a ∷ h) rsa name
IsStarted-later a i = record {
  env = i.env;
  sent = i.sent;
  asked = Memᴰ.tail i.asked;
  generated = i.generated;
}

-- What holds behind some packets holds behind one more.
pub ValidIn-later :
    (h : List Asked) (a : Asked) (st : State) (s : Session) → ValidIn h st s → ValidIn (a ∷ h) st s
ValidIn-later h a State.handshake s valid = valid
ValidIn-later h a State.status s valid = valid
ValidIn-later h a State.login s (alone, address, used, tmp) = (
  alone,
  address,
  used,
  λ t.
      let (rsa, name, key, user, started) = tmp t in
      (rsa, name, key, user, IsStarted-later a started),
)
ValidIn-later h a State.play s (settled, p, held, i) = (
  settled,
  p,
  held,
  record {
    env = i.env;
    rsa = i.rsa;
    encrypted = i.encrypted;
    token = i.token;
    secret = i.secret;
    started = IsStarted-later a i.started;
    asked = Memᴰ.tail i.asked;
    decrypted = i.decrypted;
    kept = i.kept;
    joined = i.joined;
  },
)

-- A property of what a handler returns, where it returns.
pub data Post (P : Session → HpResult → Type 0) : Handled → Type 0 where
  returns : {s : Session} {r : HpResult} → P s r → Post P (Outcome.ok (s, r))
  errs : {e : Error} → Post P (Outcome.err e)
  faults : {x : Fault} → Post P (Outcome.fault x)

-- A handler called in `phase` with a packet of `type`, the first of `h`, either ends the session, or
-- makes a step and keeps the session valid.
pub record Follows (h : List Asked) (phase : Phase) (type : PacketType) (s : Session) (r : HpResult)
    : Type 0 where
  pub step : StaysOpen r.result → Step phase type (phase_of s)
  pub valid : StaysOpen r.result → IsValid h s

-- The same, where the state of the connection is known.
pub Follows-at :
    {h : List Asked} {phase : Phase} {type : PacketType} {s : Session} {r : HpResult} (st : State)
    → s.conn.state ≡ st
    → s.conn.use_encryption ≡ false
    → Step phase type (phase_in st s.tmp_present)
    → ValidIn h st s
    → Follows h phase type s r
Follows-at {h} {phase} {type} {s} st here plain_text step valid = record {
  step = λ o. subst (λ t. Step phase type (phase_in t s.tmp_present)) (sym here) step;
  valid = λ o. (plain_text, subst (λ t. ValidIn h t s) (sym here) valid);
}

-- The result ends the session.
pub ends :
    {h : List Asked} {phase : Phase} {type : PacketType} {s : Session} {r : HpResult}
    → (StaysOpen r.result → ⊥)
    → Follows h phase type s r
ends shut = record { step = λ o. absurd (shut o); valid = λ o. absurd (shut o) }
