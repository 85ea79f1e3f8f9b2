-- ===== src/Session/Dispatch/Invariant.antt =====
-- What holds of a session of src/network between two packets, whatever the client sends and
-- whatever the system, OpenSSL and the session server answer.
use stronk.Base.{false, ℕ, Option, none, some, ◌≡◌, ◌≢◌, refl, sym, subst, ◌∙◌, Outcome}
use stronk.Packet.Outgoing.{Outgoing}
use stronk.Packet.Decode.Next.{IsDecodable}
use stronk.Packet.Types.{State, PacketType, Serverbound}
use stronk.Timespec.{Timespec}
use stronk.Connection.{Receiving, with_buffer, marked_closed}
use stronk.Session.{Environment, Session, Player, HpResult, Handled, new_session, record_sent}
use stronk.Session.Dispatch.{dispatch}
use mathlib.Core.List.{Memᴰ}
use stronk.Base.{List, [], ◌∷◌}
use stronk.Session.Dispatch.Facts.{
  Asked, ValidIn-later, phase_of, Step, StaysOpen, IsAuthentic, ValidIn, IsValid, Post, returns,
}
use stronk.Session.Dispatch.Cases.{dispatch_in-Follows}

none_ne_some : {p : Player} → ◌≡◌ {A = Option Player} none (some p) → ⊥
none_ne_some e = cc

Post-returned :
    {P : Session → HpResult → Type 0} {h : Handled} {s : Session} {r : HpResult}
    → Post P h
    → h ≡ Outcome.ok (s, r)
    → P s r
Post-returned {P} {s} {r} post e = inverted (subst (Post P) e post)
  where
    inverted : Post P (Outcome.ok (s, r)) → P s r
    inverted (returns x) = x

-- A packet whose handler leaves the connection open makes a step that the phases allow, and keeps
-- the session valid: what holds behind the packets `h` holds behind them and this one.
pub dispatch-refines :
    (h : List Asked) (env : Environment) (type : PacketType) (fields : Serverbound) (s t : Session)
    (r : HpResult)
    → IsValid h s
    → IsDecodable fields
    → dispatch env type fields s ≡ Outcome.ok (t, r)
    → StaysOpen r.result
    → Step (phase_of s) type (phase_of t)
      × IsValid (record { env = env; type = type; fields = fields } ∷ h) t
unfolding dispatch
dispatch-refines h env type fields s t r valid leads e stays =
    let asked : Asked = record { env = env; type = type; fields = fields } in
    let follows =
      Post-returned
        (dispatch_in-Follows {h = asked ∷ h} env s valid.0 s.conn.state type fields (Memᴰ.head refl)
          refl (ValidIn-later h asked s.conn.state s valid.1) leads)
        e in
    (follows.step stays, follows.valid stays)

-- The keep alive packet that `update_client` sends, and its time.
abbrev pub kept_alive_at : Session → Player → Timespec → Session
kept_alive_at s p now = record (record_sent s (State.play, Outgoing.keep_alive 0)) {
  player = some (record p { last_keepalive_sent = now });
}

-- The sessions that can come about, with the packets that were handled on the way, the last one
-- first: a new one; the connection received bytes, or was marked as closed; a packet was handled and
-- left the connection open; a keep alive packet was sent.
pub data Reach : List Asked → Session → Type 0 where
  accepted : (time : ℕ) → Reach [] (new_session time)
  received :
      {h : List Asked} {s : Session} (buf : Receiving)
      → Reach h s
      → Reach h (record s { conn = with_buffer s.conn buf })
  shut :
      {h : List Asked} {s : Session}
      → Reach h s
      → Reach h (record s { conn = marked_closed s.conn })
  handled :
      {h : List Asked} {s t : Session} {r : HpResult} (env : Environment) (type : PacketType)
      (fields : Serverbound)
      → Reach h s
      → IsDecodable fields
      → dispatch env type fields s ≡ Outcome.ok (t, r)
      → StaysOpen r.result
      → Reach (record { env = env; type = type; fields = fields } ∷ h) t
  kept_alive :
      {h : List Asked} {s : Session} {p : Player} (now : Timespec)
      → Reach h s
      → s.player ≡ some p
      → Reach h (kept_alive_at s p now)

-- A session that can come about behind some packets.
abbrev pub Reachable : Session → Type 0
Reachable s = (h : List Asked) × Reach h s

module _ (h : List Asked) where
  shut-ValidIn :
      (st : State) (s : Session)
      → ValidIn h st s
      → ValidIn h st (record s { conn = marked_closed s.conn })
  shut-ValidIn State.handshake s valid = valid
  shut-ValidIn State.status s valid = valid
  shut-ValidIn State.login s valid = valid
  shut-ValidIn State.play s valid = valid

  received-ValidIn :
      (st : State) (s : Session) (buf : Receiving)
      → ValidIn h st s
      → ValidIn h st (record s { conn = with_buffer s.conn buf })
  received-ValidIn State.handshake s buf valid = valid
  received-ValidIn State.status s buf valid = valid
  received-ValidIn State.login s buf valid = valid
  received-ValidIn State.play s buf valid = valid

  kept_alive-ValidIn :
      (st : State) (s : Session) (p : Player) (now : Timespec)
      → ValidIn h st s
      → s.player ≡ some p
      → ValidIn h st (kept_alive_at s p now)
  kept_alive-ValidIn State.handshake s p now valid e = absurd (none_ne_some (sym valid.0 ∙ e))
  kept_alive-ValidIn State.status s p now valid e = absurd (none_ne_some (sym valid.0 ∙ e))
  kept_alive-ValidIn State.login s p now valid e = absurd (none_ne_some (sym valid.0 ∙ e))
  kept_alive-ValidIn State.play s p now (settled, q, playing, authentic) e =
      let same : q ≡ p = cc in
      let moved = subst (IsAuthentic h s.ctx s.server_address_used) same authentic in
      (
        settled,
        record p { last_keepalive_sent = now },
        refl,
        record {
          env = moved.env;
          rsa = moved.rsa;
          encrypted = moved.encrypted;
          token = moved.token;
          secret = moved.secret;
          started = moved.started;
          asked = moved.asked;
          decrypted = moved.decrypted;
          kept = moved.kept;
          joined = moved.joined;
        },
      )

-- Every session that can come about is valid.
pub Reach-IsValid : {h : List Asked} {s : Session} → Reach h s → IsValid h s
unfolding new_session
Reach-IsValid (accepted time) = (refl, (refl, refl))
Reach-IsValid (received {h} {s} buf r) =
    let valid = Reach-IsValid r in (valid.0, received-ValidIn h s.conn.state s buf valid.1)
Reach-IsValid (shut {h} {s} r) =
    let valid = Reach-IsValid r in (valid.0, shut-ValidIn h s.conn.state s valid.1)
Reach-IsValid (handled env type fields r leads e stays) =
    (dispatch-refines _ env type fields _ _ _ (Reach-IsValid r) leads e stays).1
Reach-IsValid (kept_alive {h} {s} {p} now r e) =
    let valid = Reach-IsValid r in (valid.0, kept_alive-ValidIn h s.conn.state s p now valid.1 e)

-- Whatever happens, the connection never has encryption turned on: the contexts that the login sets
-- are not used.
pub use_encryption_never :
    {h : List Asked} {s : Session} → Reach h s → s.conn.use_encryption ≡ false
use_encryption_never r = (Reach-IsValid r).0

-- In the play state there is a player, and it is authentic: among the packets that were handled on
-- the way are a login start with its name and an encryption response; when that response was
-- handled, its secret was decrypted with the key pair that was generated for that name, the cipher
-- contexts were made with the secret, and the session server, asked with the name, the address
-- that the session keeps and the hash over the secret and the public key, gave the player's identifier.
pub play-IsAuthentic :
    {h : List Asked} {s : Session}
    → Reach h s
    → s.conn.state ≡ State.play
    → (p : Player) × (s.player ≡ some p) × IsAuthentic h s.ctx s.server_address_used p
play-IsAuthentic {h} {s} r here =
    let valid = subst (λ st. ValidIn h st s) here (Reach-IsValid r).1 in (valid.1, valid.2, valid.3)

-- Outside the play state there is no player.
pub player_none :
    {h : List Asked} {s : Session} → Reach h s → s.conn.state ≢ State.play → s.player ≡ none
player_none {h} {s} r away = without s.conn.state away (Reach-IsValid r).1
  where
    without : (st : State) → st ≢ State.play → ValidIn h st s → s.player ≡ none
    without State.handshake away valid = valid.0
    without State.status away valid = valid.0
    without State.login away valid = valid.0
    without State.play away valid = absurd (away refl)
