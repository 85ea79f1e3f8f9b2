-- ===== src/Session/Dispatch/Early.antt =====
-- The handlers of src/network/packethandlers/handshake.c and status.c, and
-- handle_lg_login_start of login.c, keep a session valid.
use stronk.Base.{Bool, true, false, ℕ, List, Option, none, some, ◌≡◌, refl}
use stronk.Base.{sym, ◌∙◌, not, ◌&&◌, ◌==◌, if◌then◌else◌, ltb, length, ◌^◌, ◌-◌}
use stronk.Ninerr.{Ninerr}
use stronk.Packet.Decode.Next.{LeadsOn}
use stronk.Packet.Types.{State, PacketType}
use stronk.Session.{Environment, Session, HpResult, HpResultType, Handled, Written, written}
use stronk.Session.{refused, broken, after_fwrite, closed_by, answer, plain}
use stronk.Session.Handshake.{handle_hs_handshake}
use stronk.Session.Status.{handle_st_request, handle_st_ping}
use stronk.Session.Login.{
  handle_lg_login_start, request_encryption, with_key, with_token, message_closed_by,
}
use mathlib.Core.List.{Memᴰ}
use stronk.Session.Dispatch.Facts.{Asked, login_start_in, Phase, phase_in, Step, ValidIn}
use stronk.Session.Dispatch.Facts.{Post, returns, faults, Follows, Follows-at, ends}

false_ne_true : false ≡ true → ⊥
false_ne_true e = cc

module _ {P : Session → HpResult → Type 0} where
  -- Both branches behind a write.
  pub Post-after_fwrite :
      {failed : Option Ninerr → Handled} {next : Handled} (w : Written)
      → ((e : Option Ninerr) → Post P (failed e))
      → Post P next
      → Post P (after_fwrite w failed next)
  Post-after_fwrite written hf hn = hn
  Post-after_fwrite (refused e) hf hn = hf e
  Post-after_fwrite (broken x) hf hn = faults

  pub Post-if :
      {x y : Handled} (b : Bool)
      → (b ≡ true → Post P x)
      → (b ≡ false → Post P y)
      → Post P (if b then x else y)
  Post-if true hx hy = hx refl
  Post-if false hx hy = hy refl

  -- A result whose type is chosen by a test.
  pub Post-either :
      {s : Session} (t u : HpResultType) (b : Bool)
      → P s (plain t)
      → P s (plain u)
      → Post P (answer s (plain (if b then t else u)))
  Post-either t u true ht hu = returns ht
  Post-either t u false ht hu = returns hu

module _ {h : List Asked} (s : Session) (plain_text : s.conn.use_encryption ≡ false) where
  pub handle_hs_handshake-Follows :
      (v : ℕ) (address : List ℕ) (port : ℕ) (next_state : State) (tmp : Bool)
      → ValidIn h State.handshake s
      → LeadsOn next_state
      → Post
          (Follows h (phase_in State.handshake tmp) PacketType.hs_sb_handshake)
          (handle_hs_handshake v address port next_state s)
  unfolding handle_hs_handshake
  handle_hs_handshake-Follows v address port State.status tmp valid leads =
      Post-if (not (v == 340) && false) (λ e. returns (ends (λ o. o)))
        (λ e. returns (record { step = λ o. Step.to_status; valid = λ o. (plain_text, valid) }))
  handle_hs_handshake-Follows v address port State.login tmp valid leads =
      Post-if (not (v == 340) && true) (λ e. returns (ends (λ o. o)))
        (λ e. returns (record {
          step = λ o. rw valid.1 Step.to_login;
          valid = λ o.
              (plain_text, (valid.0, address, refl, λ t. absurd (false_ne_true (sym valid.1 ∙ t))));
        }))
  handle_hs_handshake-Follows v address port State.handshake tmp valid leads = elim leads [ ]
  handle_hs_handshake-Follows v address port State.play tmp valid leads = elim leads [ ]

starts : (t : Bool) → Step (phase_in State.login t) PacketType.lg_sb_login_start Phase.challenged
starts true = Step.restart
starts false = Step.start

module _ {h : List Asked} (env : Environment) (s : Session)
    (plain_text : s.conn.use_encryption ≡ false) (tmp : Bool) where
  pub handle_st_request-Follows :
      s.conn.state ≡ State.status
      → ValidIn h State.status s
      → Post
          (Follows h (phase_in State.status tmp) PacketType.st_sb_request)
          (handle_st_request env s)
  unfolding handle_st_request
  handle_st_request-Follows here valid =
      Post-after_fwrite (env.fwrite s.sent _)
        (λ e.
          Post-either _ _ (closed_by e) (ends (λ o. o))
            (Follows-at State.status here plain_text Step.ask valid))
        (returns (Follows-at State.status here plain_text Step.ask valid))

  pub handle_st_ping-Follows :
      (payload : ℕ)
      → s.conn.state ≡ State.status
      → ValidIn h State.status s
      → Post
          (Follows h (phase_in State.status tmp) PacketType.st_sb_ping)
          (handle_st_ping env payload s)
  unfolding handle_st_ping
  handle_st_ping-Follows payload here valid =
      Post-after_fwrite (env.fwrite s.sent _)
        (λ e.
          Post-either _ _ (closed_by e) (ends (λ o. o))
            (Follows-at State.status here plain_text Step.ping valid))
        (returns (ends (λ o. o)))

  module _ (here : s.conn.state ≡ State.login) (alone : s.player ≡ none) {address : List ℕ}
      (used : s.server_address_used ≡ some address) (name : List ℕ)
      (asked : Memᴰ (login_start_in env name) h) where
    abbrev Started : Session → HpResult → Type 0
    Started = Follows h (phase_in State.login tmp) PacketType.lg_sb_login_start

    with_token-Follows :
        (key : List ℕ) (token : Option (List ℕ)) → Post Started (with_token env key name s token)
    unfolding with_token
    with_token-Follows key none = returns (ends (λ o. o))
    with_token-Follows key (some token) =
        Post-after_fwrite (env.fwrite s.sent _)
          (λ x.
            Post-if (message_closed_by x) (λ e. returns (ends (λ o. o)))
              (λ e. returns (ends (λ o. o))))
          (returns (
            Follows-at State.login here plain_text (starts tmp) (
              alone,
              address,
              used,
              λ t. (
                env.rsa_generate_key s.sent,
                name,
                refl,
                refl,
                record { env = env; sent = s.sent; asked = asked; generated = refl },
              ),
            )))

    with_key-Follows : (key : Option (List ℕ)) → Post Started (with_key env name s key)
    unfolding with_key
    with_key-Follows none = returns (ends (λ o. o))
    with_key-Follows (some key) =
        Post-if (ltb (2 ^ 31 - 1) (length key)) (λ e. returns (ends (λ o. o)))
          (λ e. with_token-Follows key (env.secure_random 16))

pub handle_lg_login_start-Follows :
    {h : List Asked} (env : Environment) (s : Session) (tmp : Bool) (name : List ℕ)
    → Memᴰ (login_start_in env name) h
    → s.conn.use_encryption ≡ false
    → s.conn.state ≡ State.login
    → ValidIn h State.login s
    → Post
        (Follows h (phase_in State.login tmp) PacketType.lg_sb_login_start)
        (handle_lg_login_start env name s)
unfolding handle_lg_login_start request_encryption
handle_lg_login_start-Follows env s tmp name asked plain_text here valid =
    let named = record s { tmp = record s.tmp { username = some name } } in
    with_key-Follows env named plain_text tmp here valid.0 valid.2 name asked
      (env.i2d_rsa_pubkey (env.rsa_generate_key s.sent))
