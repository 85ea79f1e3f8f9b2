-- ===== src/Session/Dispatch/Tests.antt =====
-- The handlers of src/network/packethandlers on the packets of a login.
use stronk.Base.{some, ◌≡◌, refl, false}
use stronk.Packet.Types.{PacketType, Serverbound}
use stronk.Session.{Player, HpResultType, plain, new_session}
use stronk.Session.Examples.{
  steve, friendly, handshake_packet, greeted, challenged, response, playing,
}
use stronk.Session.Dispatch.{dispatch}
use stronk.Base.{List, [], ◌∷◌}
use stronk.Session.Dispatch.Facts.{Asked, phase_of, Step, IsAuthentic, IsValid}
use stronk.Base.{ℕ, none, ap, replicate, Outcome}
use stronk.Connection.{mcpr_connection_write_packet}
use stronk.Session.{Environment, Written, written, refused, broken}
use stronk.Session.Dispatch.Facts.{Post}
use stronk.Session.Dispatch.Unfinished.{HandsOn, Closes, login_never_completes}
use stronk.Session.Dispatch.Invariant.{
  Reach, Reach-IsValid, dispatch-refines, use_encryption_never, play-IsAuthentic,
}

abbrev asked : PacketType → Serverbound → Asked
asked type fields = record { env = friendly; type = type; fields = fields }

abbrev greeted_packets : List Asked
greeted_packets = asked PacketType.hs_sb_handshake handshake_packet ∷ []

abbrev challenged_packets : List Asked
challenged_packets =
    asked PacketType.lg_sb_login_start (Serverbound.login_start steve) ∷ greeted_packets

abbrev playing_packets : List Asked
playing_packets = asked PacketType.lg_sb_encryption_response response ∷ challenged_packets

greeted_Reach : Reach greeted_packets greeted
unfolding dispatch new_session
greeted_Reach =
    Reach.handled friendly PacketType.hs_sb_handshake handshake_packet (Reach.accepted 3) tt refl tt

challenged_Reach : Reach challenged_packets challenged
unfolding dispatch new_session
challenged_Reach =
    Reach.handled friendly PacketType.lg_sb_login_start (Serverbound.login_start steve)
      greeted_Reach tt refl tt

playing_Reach : Reach playing_packets playing
unfolding dispatch new_session
playing_Reach =
    Reach.handled friendly PacketType.lg_sb_encryption_response response challenged_Reach tt refl tt

dispatch-refines_example :
    Step (phase_of challenged) PacketType.lg_sb_encryption_response (phase_of playing)
    × IsValid playing_packets playing
unfolding dispatch new_session
dispatch-refines_example =
    dispatch-refines challenged_packets friendly PacketType.lg_sb_encryption_response response
      challenged playing (plain HpResultType.ok) (Reach-IsValid challenged_Reach) tt refl tt

use_encryption_never_example : playing.conn.use_encryption ≡ false
use_encryption_never_example = use_encryption_never playing_Reach

play-IsAuthentic_example :
    (p : Player) × (playing.player ≡ some p)
    × IsAuthentic playing_packets playing.ctx playing.server_address_used p
unfolding dispatch new_session
play-IsAuthentic_example = play-IsAuthentic playing_Reach refl

-- A system whose packet stream is that of src/mcpr/connection.c.
abbrev through : Outcome (List ℕ) → Written
through (Outcome.ok frame) = written
through (Outcome.err e) = refused none
through (Outcome.fault x) = broken x

abbrev streaming : Environment
streaming = record friendly {
  fwrite = λ sent pkt. through (mcpr_connection_write_packet pkt.0 pkt.1);
}

streaming-HandsOn : HandsOn streaming
streaming-HandsOn sent pkt x e = ap through e

login_never_completes_example :
    Post Closes (dispatch streaming PacketType.lg_sb_encryption_response response challenged)
unfolding dispatch new_session
login_never_completes_example =
    login_never_completes streaming (replicate 128 1) (replicate 128 2) challenged streaming-HandsOn
      refl
