-- ===== src/Session/Examples.antt =====
-- Sessions of src/network on concrete packets: the data of the tests.
use stronk.Base.{ℕ, true, none, some, List, [], ◌∷◌, replicate, Outcome}
use stronk.Uuid.{Ninuuid}
use stronk.Timespec.{Timespec}
use stronk.Packet.Json.{codes}
use stronk.Packet.Types.{State, PacketType, Dimension, Serverbound}
use stronk.Session.{Environment, Session, Handled, written, new_session}
use stronk.Session.Dispatch.{dispatch}

abbrev pub steve : List ℕ
steve = codes "steve"

abbrev pub host : List ℕ
host = codes "mc"

abbrev pub steve_uuid : Ninuuid
steve_uuid = record { bytes = replicate 16 9 }

-- A system where every call succeeds, at a time on the server's clock.
abbrev pub friendly_at : Timespec → Environment
friendly_at now = record {
  fwrite = λ sent pkt. written;
  rsa_generate_key = λ sent. 1;
  i2d_rsa_pubkey = λ rsa. some (1 ∷ 2 ∷ 3 ∷ []);
  rsa_size = λ rsa. 128;
  rsa_private_decrypt = λ rsa encrypted. some (replicate 16 5);
  encrypt_init = λ secret. true;
  decrypt_init = λ secret. true;
  sha1 = λ bytes. some (replicate 20 0x11);
  secure_random = λ n. some (replicate n 7);
  has_joined = λ name hash address. some steve_uuid;
  internal_clock = now;
  entity_id_counter = 4;
  chunk_of_double = λ x. 0;
  chunks = λ key. none;
  dimension = Dimension.overworld;
}

abbrev pub friendly : Environment
friendly = friendly_at (record { tv_sec = 100; tv_nsec = 0 })

abbrev pub behind : Handled → Session
behind (Outcome.ok (s, r)) = s
behind _ = new_session 0

abbrev pub handshake_packet : Serverbound
handshake_packet = Serverbound.handshake 340 host 25565 State.login

abbrev pub greeted : Session
greeted = behind (dispatch friendly PacketType.hs_sb_handshake handshake_packet (new_session 3))

abbrev pub challenged : Session
challenged =
    behind (dispatch friendly PacketType.lg_sb_login_start (Serverbound.login_start steve) greeted)

abbrev pub response : Serverbound
response = Serverbound.encryption_response (replicate 128 1) (replicate 128 2)

abbrev pub playing : Session
playing = behind (dispatch friendly PacketType.lg_sb_encryption_response response challenged)
