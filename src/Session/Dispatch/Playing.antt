-- ===== src/Session/Dispatch/Playing.antt =====
-- The handlers of src/network/packethandlers/play.c keep a session in the game, or end it.
use Prim.Native.String.{String}
use text.Mathlib.Text as Text
use stronk.Base.{false, ℕ, List, [], ◌∷◌, Option, none, some, ◌≡◌, refl}
use stronk.Base.{Outcome, Fault, ◌>>=◌, ◌==◌}
use stronk.Ninerr.{Ninerr}
use stronk.Packet.Json.{codes}
use stronk.Packet.Outgoing.{Outgoing}
use stronk.Packet.Types.{State, PacketType, ClientSettings}
use stronk.World.Chunks
use stronk.Session.{Environment, Session, Player, HpResult, Handled, Written, written}
use stronk.Session.{send, refused, broken, record_sent, closed_by}
use stronk.Base.Null.{same_string}
use stronk.Session.Play.{
  with_some, with_settings, send_chunks, chunk_packet, position_packet, settled_in, if_written,
  place,
}
use stronk.Session.Play.{stored_settings, settings_refused, by_message, with_last_id, teleported}
use stronk.Session.Play.{
  handle_pl_keep_alive, handle_pl_plugin_message, handle_pl_client_settings,
  handle_pl_teleport_confirm, handle_pl_chat_message, handle_pl_held_item_change, is_command,
}
use stronk.Session.Dispatch.Facts.{Asked, Phase, Step, IsAuthentic, Post, returns}
use stronk.Session.Dispatch.Facts.{faults, Follows, Follows-at}
use stronk.Session.Dispatch.Early.{Post-after_fwrite, Post-if, Post-either}

-- A session in the game, with its player.
pub record InPlay (h : List Asked) (s : Session) (p : Player) : Type 0 where
  pub plain_text : s.conn.use_encryption ≡ false
  pub here : s.conn.state ≡ State.play
  pub settled : s.tmp_present ≡ false
  pub playing : s.player ≡ some p
  pub authentic : IsAuthentic h s.ctx s.server_address_used p

-- The player changed, but not who it is.
renamed :
    {h : List Asked} (s : Session) (p q : Player)
    → InPlay h s p
    → q.username ≡ p.username
    → q.uuid ≡ p.uuid
    → InPlay h (with_settings s q) q
renamed s p q i name id = record {
  plain_text = i.plain_text;
  here = i.here;
  settled = i.settled;
  playing = refl;
  authentic = record {
    env = i.authentic.env;
    rsa = i.authentic.rsa;
    encrypted = i.authentic.encrypted;
    token = i.authentic.token;
    started = rw name i.authentic.started;
    asked = i.authentic.asked;
    secret = i.authentic.secret;
    decrypted = i.authentic.decrypted;
    kept = i.authentic.kept;
    joined = rw (name, id) i.authentic.joined;
  };
}

sent-InPlay :
    {h : List Asked} (s : Session) (p : Player) (pkt : State × Outgoing)
    → InPlay h s p
    → InPlay h (record_sent s pkt) p
sent-InPlay s p pkt i = record {
  plain_text = i.plain_text;
  here = i.here;
  settled = i.settled;
  playing = i.playing;
  authentic = i.authentic;
}

-- The session that the sending of chunks leaves is in the game.
data Sends (h : List Asked) (p : Player) : Outcome Session → Type 0 where
  sends : {t : Session} → InPlay h t p → Sends h p (Outcome.ok t)
  breaks : {x : Fault} → Sends h p (Outcome.fault x)

Sends-bind :
    {h : List Asked} {p : Player} {o : Outcome Session} {k : Session → Outcome Session}
    → Sends h p o
    → ((t : Session) → InPlay h t p → Sends h p (k t))
    → Sends h p (o >>= k)
Sends-bind (sends j) f = f _ j
Sends-bind breaks f = breaks

Post-bind :
    {P : Session → HpResult → Type 0} {h : List Asked} {p : Player} {o : Outcome Session}
    {k : Session → Handled}
    → Sends h p o
    → ((t : Session) → InPlay h t p → Post P (k t))
    → Post P (o >>= k)
Post-bind (sends j) f = f _ j
Post-bind breaks f = faults

module _ (h : List Asked) (type : PacketType) where
  abbrev Played : Session → HpResult → Type 0
  Played = Follows h Phase.playing type

  pub stays : (s : Session) (p : Player) (r : HpResult) → InPlay h s p → Played s r
  stays s p r i =
      Follows-at State.play i.here i.plain_text (Step.act type)
        (i.settled, p, i.playing, i.authentic)

  Post-with_some :
      {o : Option Player} (next : Player → Handled) (p : Player)
      → o ≡ some p
      → Post Played (next p)
      → Post Played (with_some o next)
  Post-with_some next p e h = rw e h

  module _ (env : Environment) (s : Session) (p : Player) (i : InPlay h s p) where
    pub handle_pl_keep_alive-Follows : Post Played (handle_pl_keep_alive env s)
    unfolding handle_pl_keep_alive
    handle_pl_keep_alive-Follows =
        Post-with_some _ p i.playing (returns (stays _ _ _ (renamed s p _ i refl refl)))

    pub handle_pl_held_item_change-Follows :
        (slot : ℕ) → Post Played (handle_pl_held_item_change slot s)
    unfolding handle_pl_held_item_change
    handle_pl_held_item_change-Follows slot =
        Post-with_some _ p i.playing (returns (stays _ _ _ (renamed s p _ i refl refl)))

    pub handle_pl_plugin_message-Follows :
        (channel content : List ℕ) → Post Played (handle_pl_plugin_message channel content s)
    unfolding handle_pl_plugin_message
    handle_pl_plugin_message-Follows channel content =
        Post-if (same_string channel (codes "MC|BRAND")) (λ e. faults)
          (λ e. returns (stays s p _ i))

    pub handle_pl_chat_message-Follows :
        (msg : List ℕ) → Post Played (handle_pl_chat_message env msg s)
    unfolding handle_pl_chat_message
    handle_pl_chat_message-Follows msg =
        Post-if (is_command msg) (λ e. returns (stays s p _ i)) (λ e. faults)

    if_written-Sends :
        (w : Written) (t : Session) (pkt : State × Outgoing)
        → InPlay h t p
        → Sends h p (if_written w t pkt)
    if_written-Sends written t pkt j = sends (sent-InPlay t p pkt j)
    if_written-Sends (refused e) t pkt j = sends j
    if_written-Sends (broken x) t pkt j = breaks

    send_chunks-Sends :
        (coords : List (ℕ × ℕ)) (t : Session) → InPlay h t p → Sends h p (send_chunks env coords t)
    unfolding send_chunks
    send_chunks-Sends [] t j = sends j
    send_chunks-Sends ((x, z) ∷ rest) t j =
        Sends-bind (if_written-Sends (env.fwrite t.sent (chunk_packet env x z)) t _ j)
          (send_chunks-Sends rest)

    settings_refused-Follows :
        (t : Session) (q : Player) (e : Option Ninerr)
        → InPlay h t q
        → Post Played (settings_refused t e)
    settings_refused-Follows t q none j = returns (stays t q _ j)
    settings_refused-Follows t q (some e) j = by_message-Follows e.message
      where
        by_message-Follows : (m : Option String) → Post Played (by_message t m)
        by_message-Follows none = faults
        by_message-Follows (some m) =
            Post-either _ _ (Text.◌==◌ m "ninerr_closed") (stays t q _ j) (stays t q _ j)

    teleported-Follows : (t : Session) (n : ℕ) → InPlay h t p → Post Played (teleported t p n)
    teleported-Follows t n j = returns (stays _ _ _ (renamed t p _ j refl refl))

    with_last_id-Follows :
        (o : Option ℕ) (next : ℕ → Handled)
        → ((n : ℕ) → Post Played (next n))
        → Post Played (with_last_id o next)
    with_last_id-Follows none next h = faults
    with_last_id-Follows (some n) next h = h n

    pub handle_pl_teleport_confirm-Follows : Post Played (handle_pl_teleport_confirm env s)
    unfolding handle_pl_teleport_confirm
    handle_pl_teleport_confirm-Follows = Post-with_some _ p i.playing (
        with_last_id-Follows p.last_teleport_id _ (λ n.
          Post-if (n == 0)
            (λ z.
              Post-after_fwrite (env.fwrite s.sent _)
                (λ e. Post-either _ _ (closed_by e) (stays s p _ i) (stays s p _ i))
                (teleported-Follows _ n (sent-InPlay s p _ i)))
            (λ z. teleported-Follows s n i)))

pub handle_pl_client_settings-Follows :
    {h : List Asked} (type : PacketType) (env : Environment) (settings : ClientSettings)
    (s : Session) (p : Player)
    → InPlay h s p
    → Post (Follows h Phase.playing type) (handle_pl_client_settings env settings s)
unfolding handle_pl_client_settings place
handle_pl_client_settings-Follows {h} type env settings s p i =
    let q = stored_settings settings p in
    let j = renamed s p q i refl refl in
    Post-with_some h type _ p i.playing (
      Post-bind
        {k = λ t. send env t (State.play, position_packet q) (settings_refused t) (settled_in q)}
        (send_chunks-Sends h type env (with_settings s q) q j
          (Chunks.world_send_chunk_data1 (env.chunk_of_double p.x) (env.chunk_of_double p.z))
          (with_settings s q) j)
        (λ t k.
          Post-after_fwrite (env.fwrite t.sent (State.play, position_packet q))
            (λ e. settings_refused-Follows h type env t q k t q e k)
            (returns (stays h type _ _ _ (renamed _ q _ (sent-InPlay t q _ k) refl refl)))))
