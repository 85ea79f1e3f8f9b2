-- ===== src/Connection/Receive.antt =====
-- update_receiving_buffer of src/mcpr/connection.c. The calls of `fread` on the stream are a list
-- of what they give; behind its end they would block.
pub mod Laws
use stronk.Base.{
  ℕ, ◌+◌, ◌-◌, ◌*◌, Bool, true, false, List, [], ◌∷◌, ◌++◌, length, take, drop, replicate,
}
use stronk.Base.{Option, none, some, ltb, if◌then◌else◌, Fault, over_write}
use stronk.Connection.{
  Conn, Receiving, Closing, closed, stuck, store_at, with_buffer, mcpr_connection_close,
}

-- One call: bytes, at least one and no more than asked for; nothing, at the end of the stream or
-- because it would block; or an error for which the connection is closed.
pub data Event : Type 0 where
  got : List ℕ → Event
  quiet broken : Event

-- The return value, and the connection with its new buffer.
pub data Updated : Type 0 where
  updated : Bool → Conn → Updated
  stopped : Fault → Updated

-- `realloc` by 256 blocks of one byte, if there is not room for one more. The new bytes are
-- indeterminate, and 0 here.
abbrev pub with_room : Receiving → Receiving
with_room buf =
    if ltb buf.max_size (buf.size + 1)
    then record {
      content = buf.content ++ replicate 256 0;
      max_size = buf.max_size + 256;
      size = buf.size;
    }
    else buf

-- The return value behind a closing of the connection.
abbrev pub closed_with : Receiving → Closing → Updated
closed_with buf (closed conn) = updated false (with_buffer conn buf)
closed_with buf (stuck frames x) = stopped x

-- `fread` stores the bytes behind `size`, wherever the buffer ends.
abbrev pub stores : Receiving → List ℕ → ℕ → Receiving
stores buf bytes counted = record {
  content = store_at buf.content buf.size bytes;
  max_size = buf.max_size;
  size = buf.size + counted;
}

-- Without encryption: `fread(..., 1, 256, ...)`, and `size += result * 256`.
unfoldable pub plain_loop : List Event → Conn → Receiving → Updated
plain_loop [] conn buf = updated false (with_buffer conn (with_room buf))
plain_loop (quiet ∷ events) conn buf = updated false (with_buffer conn (with_room buf))
plain_loop (broken ∷ events) conn buf =
    closed_with (with_room buf) (mcpr_connection_close conn none)
plain_loop (got bytes ∷ events) conn buf =
    let room = with_room buf in
    let again = plain_loop events conn (stores room bytes (length bytes * 256)) in
    if ltb room.max_size (room.size + length bytes) then stopped over_write else again

-- With encryption: one block at a time, which `EVP_DecryptUpdate`, of a library outside, turns
-- into what is stored; the result is nothing if it fails, and its context is `C`.
module _ {C : Type 0} (decrypt : C → List ℕ → Option (List ℕ × C)) where
  unfoldable pub encrypted_loop : List Event → C → Conn → Receiving → Updated
  encrypted_loop [] ctx conn buf = updated true (with_buffer conn (with_room buf))
  encrypted_loop (quiet ∷ events) ctx conn buf = updated true (with_buffer conn (with_room buf))
  encrypted_loop (broken ∷ events) ctx conn buf =
      closed_with (with_room buf) (mcpr_connection_close conn none)
  encrypted_loop (got block ∷ events) ctx conn buf =
      let room = with_room buf in
      elim (decrypt ctx block) [
        | none ↦ updated false (with_buffer conn room)
        | some (bytes, ctx') ↦
            let again = encrypted_loop events ctx' conn (stores room bytes (length bytes)) in
            if ltb room.max_size (room.size + length bytes) then stopped over_write else again
      ]
