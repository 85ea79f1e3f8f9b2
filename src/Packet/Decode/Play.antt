-- ===== src/Packet/Decode/Play.antt =====
-- mcpr_decode_packet of src/mcpr/packet.c in the play state: text, settings and small packets.
use stronk.Base.{ℕ, ◌+◌, Bool, true, false, not, leb, ◌==◌, if◌then◌else◌, bit_and}
use stronk.Base.{use_after_free}
use stronk.Base.{Outcome, ok, err}
use stronk.Codec.Endian.{read_bytes}
use stronk.Codec.Varint.{decode_varint}
use stronk.Codec.Text.{decode_string}
use stronk.Codec.Fixed.{decode_bool, decode_byte, decode_ubyte, decode_short}
use stronk.Packet.Types.{Serverbound, SkinParts, ChatMode, SideBasedHand}
use stronk.Packet.Cursor.{Cursor, advance, Decoded, done, fault}
use stronk.Packet.Cursor.{◌>>=◌, ◌>>◌, or_free, need}

unfoldable pub decode_chat_message : Cursor → Decoded (Serverbound × ℕ)
decode_chat_message c = do
  (message, n) ← or_free (decode_string c.mem c.len_left)
  done (Serverbound.chat_message message, (advance c n).pos)

-- Behind the locale, an error frees the packet and then reads `locale` from it to free that.
abbrev pub or_dangling : Bool → Decoded (Unit {0})
or_dangling true = done tt
or_dangling false = fault use_after_free

abbrev pub no_error {ℓ} : {A : Type ℓ} → Outcome A → Decoded A
no_error (ok a) = done a
no_error (err e) = fault use_after_free
no_error (Outcome.fault x) = fault x

unfoldable pub chat_mode_of : ℕ → Decoded ChatMode
chat_mode_of chat_mode_int =
    if chat_mode_int == 0
    then done ChatMode.enabled
    else if chat_mode_int == 1
    then done ChatMode.commands_only
    else if chat_mode_int == 2
    then done ChatMode.hidden
    else fault use_after_free

unfoldable pub main_hand_of : ℕ → Decoded SideBasedHand
main_hand_of main_hand =
    if main_hand == 0
    then done SideBasedHand.left
    else if main_hand == 1
    then done SideBasedHand.right
    else fault use_after_free

abbrev has_bit : ℕ → ℕ → Bool
has_bit parts bit = not (bit_and parts bit == 0)

unfoldable pub skin_parts_of : ℕ → SkinParts
skin_parts_of parts = record {
  cape_enabled = has_bit parts 0x01;
  jacket_enabled = has_bit parts 0x02;
  left_sleeve_enabled = has_bit parts 0x04;
  right_sleeve_enabled = has_bit parts 0x08;
  left_pants_enabled = has_bit parts 0x10;
  right_pants_enabled = has_bit parts 0x20;
  hat_enabled = has_bit parts 0x40;
}

unfoldable pub decode_client_settings : Cursor → Decoded (Serverbound × ℕ)
unfolding chat_mode_of main_hand_of skin_parts_of
decode_client_settings c = do
  (locale, n) ← or_free (decode_string c.mem c.len_left)
  let c = advance c n
  or_dangling (leb 1 c.len_left)
  view_distance ← no_error (decode_byte c.mem)
  let c = advance c 1
  (chat_mode_int, n) ← no_error (decode_varint c.mem c.len_left)
  chat_mode ← chat_mode_of chat_mode_int
  let c = advance c n
  or_dangling (leb 1 c.len_left)
  chat_colors ← no_error (decode_bool c.mem)
  let c = advance c 1
  or_dangling (leb 1 c.len_left)
  displayed_skin_parts ← no_error (decode_ubyte c.mem)
  let c = advance c 1
  (main_hand_int, n) ← no_error (decode_varint c.mem c.len_left)
  main_hand ← main_hand_of main_hand_int
  done (
    Serverbound.client_settings (record {
      locale = locale;
      view_distance = view_distance;
      chat_mode = chat_mode;
      chat_colors = chat_colors;
      displayed_skin_parts = skin_parts_of displayed_skin_parts;
      main_hand = main_hand;
    }),
    (advance c n).pos,
  )

-- The data of the message is all that is left of the packet.
unfoldable pub decode_plugin_message : Cursor → Decoded (Serverbound × ℕ)
decode_plugin_message c = do
  (channel, n) ← or_free (decode_string c.mem c.len_left)
  let c = advance c n
  payload ← or_free (read_bytes c.len_left c.mem)
  done (Serverbound.plugin_message channel payload, c.pos + c.len_left)

unfoldable pub decode_keep_alive : Cursor → Decoded (Serverbound × ℕ)
decode_keep_alive c = do
  (keep_alive_id, n) ← or_free (decode_varint c.mem c.len_left)
  done (Serverbound.keep_alive keep_alive_id, (advance c n).pos)

unfoldable pub decode_teleport_confirm : Cursor → Decoded (Serverbound × ℕ)
decode_teleport_confirm c = do
  (teleport_id, n) ← or_free (decode_varint c.mem c.len_left)
  done (Serverbound.teleport_confirm teleport_id, (advance c n).pos)

unfoldable pub decode_held_item_change : Cursor → Decoded (Serverbound × ℕ)
decode_held_item_change c = do
  need c 2
  slot ← or_free (decode_short c.mem)
  done (Serverbound.held_item_change slot, (advance c 2).pos)
