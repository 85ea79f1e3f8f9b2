-- ===== src/Ninerr.antt =====
-- src/ninerr/ninerr.c: error objects. The message is what `vsprintf` makes of the format, and the
-- stack trace is left out.
mod Tests
use Prim.Native.String.{String}
use text.Mathlib.Text.{◌==◌}
use stronk.Base.{Bool, true, false, Option, none, some}

pub record Ninerr : Type 0 where
  pub message : Option String
  pub type : String

-- `ninerr_vnew`: the message is NULL where the format is, or where it prints nothing.
unfoldable pub ninerr_new : Option String → Ninerr
ninerr_new none = record { message = none; type = "ninerr" }
ninerr_new (some fmt) = record {
  message = elim (fmt == "") [ true ↦ none | false ↦ some fmt ];
  type = "ninerr";
}

unfoldable pub ninerr_arithmetic_new : Ninerr
unfolding ninerr_new
ninerr_arithmetic_new = record {
  message = (ninerr_new (some "Arithmetic error")).message;
  type = "ninerr_artihmetic";
}

abbrev pub ninerr_out_of_memory_struct : Ninerr
ninerr_out_of_memory_struct = record {
  message = some "Out of memory";
  type = "ninerr_out_of_memory";
}

abbrev closed_message : Option String → String
closed_message none = "Connection closed."
closed_message (some message) = message

-- The flag `free_message` is handed on as an argument of the format.
unfoldable pub ninerr_closed_new : Option String → Ninerr
unfolding ninerr_new
ninerr_closed_new message = record {
  message = (ninerr_new (some (closed_message message))).message;
  type = "ninerr_closed";
}

unfoldable pub ninerr_wouldblock_new : Ninerr
unfolding ninerr_new
ninerr_wouldblock_new = record {
  message = (ninerr_new (some "Operation would block.")).message;
  type = "ninerr_wouldblock";
}

unfoldable pub ninerr_is : Ninerr → String → Bool
ninerr_is err t = err.type == t

-- The values of `errno` that the switch names, and another one with its text.
pub data Errno : Type 0 where
  enomem econnreset eagain : Errno
  other : String → Errno

unfoldable pub ninerr_from_errno : Errno → Ninerr
unfolding ninerr_new ninerr_closed_new ninerr_wouldblock_new
ninerr_from_errno Errno.enomem = ninerr_out_of_memory_struct
ninerr_from_errno Errno.econnreset = ninerr_closed_new none
ninerr_from_errno Errno.eagain = ninerr_wouldblock_new
ninerr_from_errno (Errno.other text) = ninerr_new (some text)

-- `ninerr_set_err`: the thread's error, with an empty one in place of NULL.
unfoldable pub ninerr_set_err : Option Ninerr → Option Ninerr
unfolding ninerr_new
ninerr_set_err none = some (ninerr_new none)
ninerr_set_err (some err) = some err
