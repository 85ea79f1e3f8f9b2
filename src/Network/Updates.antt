-- ===== src/Network/Updates.antt =====
-- update_client of src/network/network.c as a whole.
use stronk.Base.{ℕ, Bool, true, false, List, Option, none, some, ◌≡◌, refl, subst}
use stronk.Base.{Outcome, ok, err, fault, ◌>>=◌, Error, Fault, if◌then◌else◌}
use stronk.Ninerr.{Ninerr, ninerr_is}
use stronk.Packet.Outgoing.{Outgoing}
use stronk.Packet.Types.{State}
use stronk.Timespec.{Timespec}
use stronk.Connection.{Receiving}
use stronk.Session.{Environment, Session, Player, Written, written, refused, broken}
use stronk.Session.Login.{closed_by_type}
use stronk.Session.Dispatch.Facts.{Asked, IsValid}
use stronk.Session.Dispatch.Invariant.{Reach, Reachable, Reach-IsValid}
use stronk.Network.{Fate, stays, leaves, kept_alive, keep_alive_for, send_keep_alive, passed}
use stronk.Network.{timed_out, last_received, check_timeout, waited_too_long, has_player, go_on}
use stronk.Network.{update_client}
use stronk.Network.Reaches.{Leaves, with, errs, faults, read_loop-Leaves}

-- The session that is left, or that is about to be closed, can come about.
data Fated : Outcome Fate → Type 0 where
  staying : {t : Session} → Reachable t → Fated (ok (stays t))
  leaving : {m : Option (List ℕ)} {t : Session} → Reachable t → Fated (ok (leaves m t))
  wrong : {e : Error} → Fated (err e)
  stuck : {x : Fault} → Fated (fault x)

closed_by_type-Fated :
    (e : Option Ninerr) {x y : Outcome Fate} → Fated x → Fated y → Fated (closed_by_type e x y)
unfolding closed_by_type
closed_by_type-Fated none hx hy = stuck
closed_by_type-Fated (some e) {x} {y} hx hy = either (ninerr_is e "ninerr_closed")
  where
    either : (b : Bool) → Fated (if b then x else y)
    either true = hx
    either false = hy

kept_alive-Fated :
    (w : Written) (s : Session) (p : Player) (now : Timespec)
    → Reachable s
    → s.player ≡ some p
    → Fated (kept_alive w s p now)
kept_alive-Fated written s p now r e = staying (r.0, Reach.kept_alive now r.1 e)
kept_alive-Fated (refused x) s p now r e = closed_by_type-Fated x (leaving r) (staying r)
kept_alive-Fated (broken x) s p now r e = stuck

keep_alive_for-Fated :
    (env : Environment) (s : Session) (o : Option Player)
    → Reachable s
    → s.player ≡ o
    → Fated (keep_alive_for env s o)
keep_alive_for-Fated env s none r e = staying r
keep_alive_for-Fated env s (some p) r e = either (passed env p.last_keepalive_sent 10)
  where
    either :
        (b : Bool)
        → Fated (
            if b
            then kept_alive
                (env.fwrite s.sent (State.play, Outgoing.keep_alive 0))
                s
                p
                env.internal_clock
            else ok (stays s))
    either true = kept_alive-Fated _ s p env.internal_clock r e
    either false = staying r

timed_out-Fated : (b : Bool) (s : Session) → Reachable s → Fated (ok (timed_out b s))
timed_out-Fated true s r = leaving r
timed_out-Fated false s r = staying r

check_timeout-Fated :
    (env : Environment) (time : ℕ) (had_player : Bool) (s : Session)
    → Reachable s
    → Fated (ok (check_timeout env time had_player s))
unfolding check_timeout
check_timeout-Fated env time true s r = timed_out-Fated (last_received env s.player) s r
check_timeout-Fated env time false s r = timed_out-Fated (waited_too_long time s.connected_at) s r

read-Fated :
    (env : Environment) (time : ℕ) (had_player : Bool) {o : Outcome Session}
    → Leaves Reachable o
    → Fated (o >>= λ s2. ok (check_timeout env time had_player s2))
read-Fated env time had (with r) = check_timeout-Fated env time had _ r
read-Fated env time had errs = wrong
read-Fated env time had faults = stuck

go_on-Fated :
    {o : Outcome Fate} {next : Session → Outcome Fate}
    → Fated o
    → ((t : Session) → Reachable t → Fated (next t))
    → Fated (o >>= λ fate. go_on fate next)
go_on-Fated (staying r) h = h _ r
go_on-Fated (leaving r) h = leaving r
go_on-Fated wrong h = wrong
go_on-Fated stuck h = stuck

update_client-Fated :
    (env : Environment) (time : ℕ) (bufs : List Receiving) (s : Session)
    → Reachable s
    → Fated (update_client env time bufs s)
unfolding update_client send_keep_alive
update_client-Fated env time bufs s r =
    go_on-Fated (keep_alive_for-Fated env s s.player r refl)
      (λ t rt. read-Fated env time (has_player s.player) (read_loop-Leaves env bufs t rt))

-- A session that can come about is valid when update_client leaves it, whatever bytes arrived, and
-- can come about itself.
pub update_client-IsValid :
    {h : List Asked} (env : Environment) (time : ℕ) (bufs : List Receiving) (s t : Session)
    → Reach h s
    → update_client env time bufs s ≡ ok (stays t)
    → (h' : List Asked) × Reach h' t × IsValid h' t
update_client-IsValid {h} env time bufs s t r e =
    let (h', rt) = reached (subst Fated e (update_client-Fated env time bufs s (h, r))) in
    (h', rt, Reach-IsValid rt)
  where
    reached : Fated (ok (stays t)) → Reachable t
    reached (staying x) = x
