-- ===== src/Ninerr/Tests.antt =====
-- Errors of src/ninerr/ninerr.c at fixed inputs.
use stronk.Base.{◌≡◌, refl, true, none, some}
use stronk.Ninerr.{ninerr_new, ninerr_is, ninerr_from_errno, Errno}

reset_is_closed : ninerr_is (ninerr_from_errno Errno.econnreset) "ninerr_closed" ≡ true
unfolding ninerr_is ninerr_from_errno
reset_is_closed = refl

empty_message : (ninerr_new (some "")).message ≡ none
unfolding ninerr_new
empty_message = refl
