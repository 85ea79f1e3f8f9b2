-- ===== src/Mapi.antt =====
-- src/mapi/mapi.c: the client of Mojang's web services. libcurl and jansson are members of a record.
pub mod Strings
pub mod Token
pub mod Joined
pub mod Auth
pub mod Requests
pub mod Laws
mod Tests
use Prim.Native.String.{String}
use stronk.Base.{ℕ, Bool, Option, List}
use stronk.Uuid.{Ninuuid}

-- What the client takes from libcurl (`curl_easy_perform`: the status and the body, or none for a
-- failure), from jansson, from `sscanf` on the format with or without hyphens, and from `malloc`:
-- the bytes that a new block holds.
pub record Web (J : Type 0) : Type 0 where
  pub perform : List ℕ → Option (List ℕ) → Option (ℕ × List ℕ)
  pub json_loadb : List ℕ → Option J
  pub json_object_get : J → String → Option J
  pub json_string_value : J → Option (List ℕ)
  pub json_array : J → List J
  pub sscanf : Bool → List ℕ → Option Ninuuid
  pub malloc : ℕ → List ℕ
