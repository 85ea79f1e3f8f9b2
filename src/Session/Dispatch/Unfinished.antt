-- ===== src/Session/Dispatch/Unfinished.antt =====
-- The login of src/network/packethandlers/login.c over the packet stream of src/mcpr/connection.c.
use stronk.Base.{ℕ, List, Bool, true, false, Option, none, some, ◌≡◌, refl}
use stronk.Base.{Outcome, Fault, bad_shift, if◌then◌else◌}
use stronk.Codec.Fixed.{encode_float}
use stronk.Codec.Text.{encode_string}
use stronk.Packet.Types.{State, PacketType, Serverbound}
use stronk.Packet.Outgoing.{Outgoing}
use stronk.Packet.Ids.{packet_type_to_byte}
use stronk.Packet.Encode.{encode_id}
use stronk.Packet.Encode.Play.{encode_player_abilities}
use stronk.Packet.Encode.Main.{encode_case, encode_packet}
use stronk.Packet.Encode.Bounds.{bounds_case, encode_packet_bounds}
use stronk.Connection.{mcpr_connection_write_packet}
use stronk.Uuid.{Ninuuid}
use stronk.Ninerr.{Ninerr}
use stronk.Session.{Environment, Session, Player, HpResult, broken, answer}
use stronk.Session.{closed_by, HpResultType}
use stronk.Session.Login.{
  player_of, player_abilities, post, post_refused, send_each, send_brand, send_post_login_sequence,
}
use stronk.Session.Login.Response.{
  authenticate, decrypted_secret, finish_login, enter_play, joined, unsealed, respond, with_tmp,
  handle_lg_encryption_response,
}
use stronk.Session.Dispatch.{dispatch, dispatch_in, dispatch_login}
use stronk.Session.Dispatch.Facts.{StaysOpen, Post, returns, errs, faults}
use stronk.Session.Dispatch.Early.{Post-after_fwrite, Post-if}
use stronk.Session.Dispatch.Entering.{Post-closed_by_type, after_sequence-Post}

-- The packet stream hands each packet to mcpr_connection_write_packet: its buffer has the size of
-- one packet. What is undefined there is undefined in the write.
abbrev pub HandsOn : Environment → Type 0
HandsOn env =
    (sent : List (State × Outgoing)) (pkt : State × Outgoing) (x : Fault)
    → mcpr_connection_write_packet pkt.0 pkt.1 ≡ Outcome.fault x
    → env.fwrite sent pkt ≡ broken x

-- The result closes the connection.
abbrev pub Closes : Session → HpResult → Type 0
Closes s r = StaysOpen r.result → ⊥

-- Its floats are shifted by the width of their type.
pub write_player_abilities_never :
    (p : Player)
    → mcpr_connection_write_packet State.play (player_abilities p) ≡ Outcome.fault bad_shift
unfolding mcpr_connection_write_packet encode_packet_bounds bounds_case encode_packet encode_case
    encode_player_abilities encode_id packet_type_to_byte encode_float
write_player_abilities_never p = refl

module _ (env : Environment) (hands_on : HandsOn env) where
  abbrev Ended : Session → HpResult → Type 0
  Ended t r = Post Closes (finish_login r.result t)

  refused-Ended : (s : Session) (e : Option Ninerr) → Post Ended (post_refused s e)
  refused-Ended s e = by_test (closed_by e)
    where
      by_test :
          (b : Bool)
          → Post Ended (answer s (post (if b then HpResultType.closed else HpResultType.fatal)))
      by_test true = returns (returns (λ o. o))
      by_test false = returns (returns (λ o. o))

  sequence-Ended : (p : Player) (s : Session) → Post Ended (send_post_login_sequence env p s)
  unfolding send_post_login_sequence send_each send_brand encode_string
  sequence-Ended p s = Post-after_fwrite (env.fwrite s.sent _) (refused-Ended s) (
      Post-after_fwrite (env.fwrite _ _) (refused-Ended _) (
        Post-after_fwrite (env.fwrite _ _) (refused-Ended _) (
          rw
            (hands_on _ (State.play, player_abilities p) bad_shift (write_player_abilities_never p))
            faults)))

  enter_play-Closes :
      (uuid : Ninuuid) (name : List ℕ) (s : Session) → Post Closes (enter_play env uuid name s)
  unfolding enter_play
  enter_play-Closes uuid name s =
      Post-after_fwrite (env.fwrite s.sent _)
        (λ e. Post-closed_by_type e (returns (λ o. o)) (returns (λ o. o)))
        (after_sequence-Post Closes _ (sequence-Ended (player_of env uuid name) _))

  joined-Closes :
      (name : List ℕ) (s : Session) (o : Outcome (Option Ninuuid))
      → Post Closes (joined env name s o)
  unfolding joined
  joined-Closes name s (Outcome.ok none) = returns (λ o. o)
  joined-Closes name s (Outcome.ok (some uuid)) = enter_play-Closes uuid name s
  joined-Closes name s (Outcome.err e) = errs
  joined-Closes name s (Outcome.fault x) = faults

  unsealed-Closes :
      (rsa : ℕ) (name : List ℕ) (s : Session) (o : Option (List ℕ))
      → Post Closes (unsealed env rsa name s o)
  unfolding unsealed
  unsealed-Closes rsa name s none = returns (λ o. o)
  unsealed-Closes rsa name s (some secret) =
      joined-Closes name (record s { ctx = some secret })
        (authenticate env rsa secret name s.server_address_used)

  with_tmp-Closes :
      (rsa : Option ℕ) (name : Option (List ℕ)) (encrypted : List ℕ) (s : Session)
      → Post Closes (with_tmp rsa name (respond env encrypted s))
  unfolding respond
  with_tmp-Closes none name encrypted s = faults
  with_tmp-Closes (some rsa) none encrypted s = faults
  with_tmp-Closes (some rsa) (some name) encrypted s =
      unsealed-Closes rsa name s (decrypted_secret env rsa encrypted)

  response-Closes :
      (encrypted token : List ℕ) (s : Session)
      → Post Closes (handle_lg_encryption_response env encrypted token s)
  unfolding handle_lg_encryption_response
  response-Closes encrypted token s =
      Post-if s.tmp_present (λ e. with_tmp-Closes s.tmp.rsa s.tmp.username encrypted s)
        (λ e. returns (λ o. o))

-- Where the packet stream hands its packets to mcpr_connection_write_packet, no login gets into the
-- game: whatever OpenSSL and the session server answer, the handler of an encryption response in
-- the login state either closes the connection or ends in an error or a fault, at the latest where
-- it writes the player abilities, whose floats the encoder shifts by the width of their type.
pub login_never_completes :
    (env : Environment) (encrypted token : List ℕ) (s : Session)
    → HandsOn env
    → s.conn.state ≡ State.login
    → Post Closes (
        dispatch env PacketType.lg_sb_encryption_response
          (Serverbound.encryption_response encrypted token)
          s)
unfolding dispatch dispatch_in dispatch_login
login_never_completes env encrypted token s hands_on here =
    simp here (response-Closes env hands_on encrypted token s)
