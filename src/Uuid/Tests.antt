-- ===== src/Uuid/Tests.antt =====
-- Identifiers of src/ninuuid/ninuuid.c.
use stronk.Base.{◌+◌, ◌≡◌, ◌≢◌, ◌↔◌, refl, arith, true, false, ◌∷◌, length, replicate}
use stronk.Uuid.{Ninuuid, Ccase, equals, equals_loop, get_version, to_string, is_null}
use stronk.Uuid.Laws.{equals_iff, length-to_string, short_bytes, is_null_iff, get_version_never}

abbrev a_uuid : Ninuuid
a_uuid = record { bytes = 0xAB ∷ 0x05 ∷ replicate 14 0xFF }

abbrev null_uuid : Ninuuid
null_uuid = record { bytes = replicate 16 0 }

not_equal : equals a_uuid null_uuid ≡ false
unfolding equals equals_loop
not_equal = refl

equals_iff_example : (equals a_uuid null_uuid ≡ true) ↔ (a_uuid ≡ null_uuid)
equals_iff_example = equals_iff a_uuid null_uuid refl refl

is_null_iff_example : (is_null null_uuid ≡ true) ↔ (null_uuid.bytes ≡ replicate 16 0)
is_null_iff_example = is_null_iff null_uuid refl

get_version_never_example : get_version a_uuid ≢ 4
get_version_never_example = get_version_never a_uuid 4 (omega arith) (omega arith)

length-to_string_example :
    (length (to_string a_uuid Ccase.lowercase false) + short_bytes a_uuid.bytes ≡ 36)
    × (to_string a_uuid Ccase.lowercase false ≡ to_string a_uuid Ccase.lowercase false)
length-to_string_example = length-to_string a_uuid Ccase.lowercase false refl (omega arith)
