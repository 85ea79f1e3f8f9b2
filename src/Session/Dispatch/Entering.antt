-- ===== src/Session/Dispatch/Entering.antt =====
-- handle_lg_encryption_response of src/network/packethandlers/login.c leads into the game, or ends
-- the session.
use stronk.Base.{
  true, false, ℕ, List, [], ◌∷◌, Option, none, some, if◌then◌else◌, ◌≡◌, refl, ap, ◌∙◌, Outcome,
}
use stronk.Uuid.{Ninuuid}
use stronk.Ninerr.{Ninerr, ninerr_is}
use stronk.Codec.Text.{encode_string}
use stronk.Packet.Json.{codes}
use stronk.Packet.Outgoing.{Outgoing}
use stronk.Packet.Types.{State, PacketType}
use stronk.Session.{Environment, Session, Player, Tmp, HpResult, HpResultType, Handled}
use stronk.Session.{record_sent, answer, login_failed}
use stronk.Session.Login.{
  player_of, send_each, with_brand, send_brand, sequence_sent, send_post_login_sequence, join_game,
  entry_packets,
}
use stronk.Session.Login.{closed_by_type}
use stronk.Session.Login.Response.{
  decrypted_secret, authenticate, finish_login, after_sequence, enter_play, joined, unsealed,
  respond, with_tmp, handle_lg_encryption_response,
}
use mathlib.Core.List.{Memᴰ}
use stronk.Session.Dispatch.Facts.{
  Asked, response_in, IsStarted, HasTmp, Phase, phase_in, Step, IsAuthentic, Post, returns,
}
use stronk.Session.Dispatch.Facts.{errs, faults, Follows, Follows-at, ends}
use stronk.Session.Dispatch.Early.{Post-after_fwrite, Post-if}

-- Two sessions that differ in what was sent, and in what is kept during the login.
pub record SameCore (s t : Session) : Type 0 where
  pub same_conn : t.conn ≡ s.conn
  pub same_ctx : t.ctx ≡ s.ctx
  pub same_address : t.server_address_used ≡ s.server_address_used
  pub same_player : t.player ≡ s.player

-- What the writes of the sequence keep, they keep to its end.
Post-send_each :
    (C : Session → Type 0) {P : Session → HpResult → Type 0} (env : Environment)
    (pkts : List (State × Outgoing)) (s : Session) (next : Session → Handled)
    → ((t : Session) (pkt : State × Outgoing) → C t → C (record_sent t pkt))
    → ((t : Session) (r : HpResult) → C t → P t r)
    → ((t : Session) → C t → Post P (next t))
    → C s
    → Post P (send_each env pkts s next)
unfolding send_each
Post-send_each C env [] s next sent stop go c = go s c
Post-send_each C env (pkt ∷ pkts) s next sent stop go c =
    Post-after_fwrite (env.fwrite s.sent pkt) (λ e. returns (stop s _ c))
      (Post-send_each C env pkts (record_sent s pkt) next sent stop go (sent s pkt c))

pub Post-with_brand :
    {P : Session → HpResult → Type 0} (s : Session) (o : Outcome (List ℕ)) (next : List ℕ → Handled)
    → ((r : HpResult) → P s r)
    → ((brand : List ℕ) → Post P (next brand))
    → Post P (with_brand s o next)
Post-with_brand s (Outcome.ok brand) next h hn = hn brand
Post-with_brand s (Outcome.err e) next h hn = returns (h _)
Post-with_brand s (Outcome.fault x) next h hn = faults

sent-SameCore :
    (s t : Session) (pkt : State × Outgoing) → SameCore s t → SameCore s (record_sent t pkt)
sent-SameCore s t pkt c = record {
  same_conn = c.same_conn;
  same_ctx = c.same_ctx;
  same_address = c.same_address;
  same_player = c.same_player;
}

-- The sequence only sends.
send_post_login_sequence-SameCore :
    (env : Environment) (p : Player) (s : Session)
    → Post (λ t r. SameCore s t) (send_post_login_sequence env p s)
unfolding send_post_login_sequence
send_post_login_sequence-SameCore env p s =
    let same : SameCore s s = record {
      same_conn = refl;
      same_ctx = refl;
      same_address = refl;
      same_player = refl;
    } in
    Post-send_each (SameCore s) env ((State.play, join_game p) ∷ []) s (send_brand env p)
      (sent-SameCore s) (λ t r c. c)
      (λ t c.
        Post-with_brand t (encode_string (codes "Stronk"))
          (λ brand. send_each env (entry_packets p brand) t sequence_sent) (λ r. c)
          (λ brand.
            Post-send_each (SameCore s) env (entry_packets p brand) t sequence_sent
              (sent-SameCore s) (λ u r d. d) (λ u d. returns d) c))
      same

abbrev Entered : List Asked → Session → HpResult → Type 0
Entered h = Follows h Phase.challenged PacketType.lg_sb_encryption_response

finish_login-Follows :
    {h : List Asked} (t : HpResultType) (s : Session)
    → s.conn.use_encryption ≡ false
    → s.conn.state ≡ State.play
    → ((p : Player) × (s.player ≡ some p) × IsAuthentic h s.ctx s.server_address_used p)
    → Post (Entered h) (finish_login t s)
finish_login-Follows HpResultType.fatal s plain_text here h = returns (ends (λ o. o))
finish_login-Follows HpResultType.closed s plain_text here h = returns (ends (λ o. o))
finish_login-Follows HpResultType.ok s plain_text here h =
    returns (Follows-at State.play here plain_text Step.respond (refl, h.0, h.1, h.2))
finish_login-Follows HpResultType.err s plain_text here h =
    returns (Follows-at State.play here plain_text Step.respond (refl, h.0, h.1, h.2))

pub after_sequence-Post :
    (P : Session → HpResult → Type 0) (h : Handled)
    → Post (λ t r. Post P (finish_login r.result t)) h
    → Post P (after_sequence h)
after_sequence-Post P (Outcome.ok _) (returns x) = x
after_sequence-Post P (Outcome.err _) errs = errs
after_sequence-Post P (Outcome.fault _) faults = faults

Post-weaken :
    {P Q : Session → HpResult → Type 0} {h : Handled}
    → Post P h
    → ((s : Session) (r : HpResult) → P s r → Q s r)
    → Post Q h
Post-weaken (returns x) f = returns (f _ _ x)
Post-weaken errs f = errs
Post-weaken faults f = faults

pub Post-closed_by_type :
    {P : Session → HpResult → Type 0} {x y : Handled} (e : Option Ninerr)
    → Post P x
    → Post P y
    → Post P (closed_by_type e x y)
unfolding closed_by_type
Post-closed_by_type none hx hy = faults
Post-closed_by_type (some e) hx hy = Post-if (ninerr_is e "ninerr_closed") (λ _. hx) (λ _. hy)

enter_play-Follows :
    {h : List Asked} (env : Environment) (uuid : Ninuuid) (username : List ℕ) (s : Session)
    → s.conn.use_encryption ≡ false
    → ((p : Player)
        → p.username ≡ username
        → p.uuid ≡ uuid
        → IsAuthentic h s.ctx s.server_address_used p)
    → Post (Entered h) (enter_play env uuid username s)
unfolding enter_play
enter_play-Follows env uuid username s plain_text joined =
    Post-after_fwrite (env.fwrite s.sent _)
      (λ e. Post-closed_by_type e (returns (ends (λ o. o))) (returns (ends (λ o. o))))
      (after_sequence-Post _ _ (
        Post-weaken (send_post_login_sequence-SameCore env (player_of env uuid username) _)
          (λ t r core.
            let player : t.player ≡ some (player_of env uuid username) = core.same_player in
            finish_login-Follows r.result t (ap (λ c. c.use_encryption) core.same_conn ∙ plain_text)
              (ap (λ c. c.state) core.same_conn)
              (
                player_of env uuid username,
                player,
                rw (core.same_ctx, core.same_address)
                    (joined _ (unfold player_of in refl) (unfold player_of in refl)),
              ))))

module _ {h : List Asked} (env : Environment) (s : Session)
    (plain_text : s.conn.use_encryption ≡ false) (encrypted token : List ℕ)
    (asked : Memᴰ (response_in env encrypted token) h) where
  joined-Follows :
      (rsa : ℕ) (secret username : List ℕ) (answered : Outcome (Option Ninuuid))
      → IsStarted h rsa username
      → decrypted_secret env rsa encrypted ≡ some secret
      → s.ctx ≡ some secret
      → authenticate env rsa secret username s.server_address_used ≡ answered
      → Post (Entered h) (joined env username s answered)
  unfolding joined
  joined-Follows rsa secret username (Outcome.ok none) i d k e = returns (ends (λ o. o))
  joined-Follows rsa secret username (Outcome.err x) i d k e = errs
  joined-Follows rsa secret username (Outcome.fault x) i d k e = faults
  joined-Follows rsa secret username (Outcome.ok (some uuid)) i d k e =
      enter_play-Follows env uuid username s plain_text (λ p name id. record {
        env = env;
        rsa = rsa;
        encrypted = encrypted;
        token = token;
        secret = secret;
        started = rw name i;
        asked = asked;
        decrypted = d;
        kept = k;
        joined = rw (name, id) e;
      })

unsealed-Follows :
    {h : List Asked} (env : Environment) (s : Session) (rsa : ℕ) (encrypted token username : List ℕ)
    (opened : Option (List ℕ))
    → Memᴰ (response_in env encrypted token) h
    → IsStarted h rsa username
    → s.conn.use_encryption ≡ false
    → decrypted_secret env rsa encrypted ≡ opened
    → Post (Entered h) (unsealed env rsa username s opened)
unfolding unsealed
unsealed-Follows env s rsa encrypted token username none asked i plain_text d =
    returns (ends (λ o. o))
unsealed-Follows env s rsa encrypted token username (some secret) asked i plain_text d =
    joined-Follows env (record s { ctx = some secret }) plain_text encrypted token asked rsa secret
      username (authenticate env rsa secret username s.server_address_used) i d refl refl

-- A pending login has its key and its name.
Post-with_tmp :
    {P : Session → HpResult → Type 0} {h : List Asked} (tmp : Tmp) (next : ℕ → List ℕ → Handled)
    → HasTmp h tmp
    → ((k : ℕ) (l : List ℕ) → IsStarted h k l → Post P (next k l))
    → Post P (with_tmp tmp.rsa tmp.username next)
Post-with_tmp tmp next (rsa, name, key, user, started) f = rw (key, user) (f rsa name started)

pub handle_lg_encryption_response-Follows :
    {h : List Asked} (env : Environment) (encrypted token : List ℕ) (s : Session)
    → Memᴰ (response_in env encrypted token) h
    → s.conn.use_encryption ≡ false
    → (s.tmp_present ≡ true → HasTmp h s.tmp)
    → Post
        (Follows h (phase_in State.login s.tmp_present) PacketType.lg_sb_encryption_response)
        (handle_lg_encryption_response env encrypted token s)
unfolding handle_lg_encryption_response respond
handle_lg_encryption_response-Follows {h} env encrypted token s asked plain_text pending =
    elim s.tmp_present
        as (λ b.
          (b ≡ true → HasTmp h s.tmp)
          → Post (Follows h (phase_in State.login b) PacketType.lg_sb_encryption_response) (
              if b
              then with_tmp s.tmp.rsa s.tmp.username (respond env encrypted s)
              else answer s login_failed)) [
                | true ↦ λ kept. Post-with_tmp s.tmp (respond env encrypted s) (kept refl) (λ k l i.
                    unsealed-Follows env s k encrypted token l (decrypted_secret env k encrypted)
                      asked i plain_text refl)
                | false ↦ λ kept. returns (ends (λ o. o))
              ]
      pending
