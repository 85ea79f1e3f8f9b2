-- ===== src/Mapi/Joined.antt =====
-- mapi_minecraft_has_joined_response_from_json of src/mapi/mapi.c, and ninuuid_from_string.
use stronk.Base.{ℕ, ◌+◌, ◌≡◌, ◌≢◌, refl, false, not, ltb, ◌==◌, if◌then◌else◌}
use stronk.Base.{
  Option, none, some, List, [], ◌∷◌, ◌++◌, length, drop, get_or, arith, ap, sym, ◌∙◌, append_assoc,
  length-append, take-length_append, drop-length_append,
}
use stronk.Base.Null.{◌>>=◌, or_err, same_string, c_string}
use stronk.Uuid.{Ninuuid}
use stronk.Packet.Json.{codes}
use stronk.Connection.{store_at}
use stronk.Mapi.{Web}
use stronk.Mapi.Strings.{drop-front}

-- The strings are what is read behind their pointers.
pub record HasJoined : Type 0 where
  pub id : Ninuuid
  pub player_name : List ℕ
  pub skin_blob_base64 : List ℕ
  pub signature : List ℕ

-- The part of the block behind the struct: each string is stored behind the bytes of the one before
-- it, over its NUL.
unfoldable pub string_block : List ℕ → List ℕ → List ℕ → List ℕ → List ℕ
string_block block value signature name =
    store_at
      (store_at (store_at block 0 (value ++ (0 ∷ []))) (length value) (signature ++ (0 ∷ [])))
      (length value + length signature) (name ++ (0 ∷ []))

-- The three pointers into that block.
unfoldable pub strings_in : Ninuuid → ℕ → ℕ → List ℕ → HasJoined
strings_in uuid value_len signature_len block = record {
  id = uuid;
  player_name = c_string (drop (value_len + signature_len) block);
  skin_blob_base64 = c_string block;
  signature = c_string (drop value_len block);
}

module _ {J : Type 0} (web : Web J) where
  unfoldable pub ninuuid_from_string : List ℕ → Option Ninuuid
  ninuuid_from_string text = web.sscanf (not (get_or text 8 0 == b'-')) text

  -- The value and the signature of an entry.
  unfoldable pub textures_of : J → Option (List ℕ × List ℕ)
  textures_of entry = do
    value_json ← web.json_object_get entry "value"
    value ← web.json_string_value value_json
    signature_json ← web.json_object_get entry "signature"
    signature ← web.json_string_value signature_json
    some (value, signature)

  -- The loop over the properties; without an entry for textures the function gives NULL too.
  unfoldable pub find_textures : List J → Option (List ℕ × List ℕ)
  unfolding textures_of
  find_textures [] = none
  find_textures (entry ∷ rest) =
      let others = find_textures rest in
      web.json_object_get entry "name" >>= λ name_json. web.json_string_value name_json >>= λ name.
      if same_string name (codes "textures") then textures_of entry else others

  unfoldable pub has_joined_response_of : List ℕ → List ℕ → List ℕ → List ℕ → Option HasJoined
  unfolding ninuuid_from_string string_block strings_in
  has_joined_response_of id name value signature = ninuuid_from_string id >>= λ uuid. some (
      strings_in uuid (length value) (length signature) (
        string_block (web.malloc (length value + 1 + (length signature + 1) + (length name + 1)))
          value signature name))

  unfoldable pub mapi_minecraft_has_joined_response_from_json : J → Option HasJoined
  unfolding find_textures has_joined_response_of
  mapi_minecraft_has_joined_response_from_json json = do
    id_json ← web.json_object_get json "id"
    id ← web.json_string_value id_json
    _ ← or_err (not (ltb (length id) 32))
    name_json ← web.json_object_get json "name"
    name ← web.json_string_value name_json
    properties ← web.json_object_get json "properties"
    textures ← find_textures (web.json_array properties)
    has_joined_response_of id name textures.0 textures.1

-- No byte is the NUL.
abbrev pub IsText : List ℕ → Type 0
IsText [] = Unit
IsText (c ∷ cs) = (c ≢ 0) × IsText cs

append-IsText : (a b : List ℕ) → IsText a → IsText b → IsText (a ++ b)
append-IsText [] b ha hb = hb
append-IsText (c ∷ a) b ha hb = (ha.0, append-IsText a b ha.1 hb)

c_string-append : (a r : List ℕ) → IsText a → c_string (a ++ (0 ∷ r)) ≡ a
c_string-append [] r h = refl
c_string-append (c ∷ a) r h =
    let e : (c == 0) ≡ false = ground (arith, h.0) in rw (e, c_string-append a r h.1) refl

store_at-append :
    (a r bytes : List ℕ)
    → store_at (a ++ r) (length a) bytes ≡ a ++ (bytes ++ drop (length a + length bytes) (a ++ r))
store_at-append a r bytes = rw (take-length_append a r) refl

string_block_lem :
    (block value signature name : List ℕ)
    → (rest : List ℕ) × (string_block block value signature name
        ≡ value ++ (signature ++ (name ++ (0 ∷ rest))))
unfolding string_block
string_block_lem block value signature name =
    let nul : List ℕ = 0 ∷ [] in
    let d1 = drop (0 + length (value ++ nul)) block in
    let first : store_at block 0 (value ++ nul) ≡ value ++ (nul ++ d1) =
      append_assoc value nul d1 in
    let d2 = drop (length value + length (signature ++ nul)) (value ++ (nul ++ d1)) in
    let second : store_at (value ++ (nul ++ d1)) (length value) (signature ++ nul)
        ≡ (value ++ signature) ++ (nul ++ d2) =
      store_at-append value (nul ++ d1) (signature ++ nul)
      ∙ ap (λ l. value ++ l) (append_assoc signature nul d2)
      ∙ sym (append_assoc value signature (nul ++ d2)) in
    let d3 =
      drop (length (value ++ signature) + length (name ++ nul))
        ((value ++ signature) ++ (nul ++ d2)) in
    let third : store_at ((value ++ signature) ++ (nul ++ d2)) (length value + length signature)
          (name ++ nul)
        ≡ value ++ (signature ++ (name ++ (nul ++ d3))) =
      ap (λ n. store_at ((value ++ signature) ++ (nul ++ d2)) n (name ++ nul))
        (sym (length-append value signature))
      ∙ store_at-append (value ++ signature) (nul ++ d2) (name ++ nul)
      ∙ append_assoc value signature ((name ++ nul) ++ d3)
      ∙ ap (λ l. value ++ (signature ++ l)) (append_assoc name nul d3) in
    (
      d3,
      ap
            (λ l.
              store_at (store_at l (length value) (signature ++ nul))
                (length value + length signature) (name ++ nul))
            first
          ∙ ap (λ l. store_at l (length value + length signature) (name ++ nul)) second
          ∙ third,
    )

abbrev run_on : Ninuuid → List ℕ → List ℕ → List ℕ → HasJoined
run_on uuid name value signature = record {
  id = uuid;
  player_name = name;
  skin_blob_base64 = value ++ (signature ++ name);
  signature = signature ++ name;
}

strings_in_lem :
    (uuid : Ninuuid) (name value signature rest : List ℕ)
    → IsText value
    → IsText signature
    → IsText name
    → strings_in uuid
        (length value)
        (length signature)
        (value ++ (signature ++ (name ++ (0 ∷ rest))))
      ≡ run_on uuid name value signature
unfolding strings_in
strings_in_lem uuid name value signature rest hv hs hn =
    let tail = name ++ (0 ∷ rest) in
    let at_signature : drop (length value) (value ++ (signature ++ tail)) ≡ signature ++ tail =
      drop-length_append value (signature ++ tail) in
    let at_name : drop (length value + length signature) (value ++ (signature ++ tail)) ≡ tail =
      drop-front (length value) (length signature) value (signature ++ tail) refl
      ∙ drop-length_append signature tail in
    let name_read : c_string tail ≡ name = c_string-append name rest hn in
    let signature_read : c_string (signature ++ tail) ≡ signature ++ name =
      ap c_string (sym (append_assoc signature name (0 ∷ rest)))
      ∙ c_string-append (signature ++ name) rest (append-IsText signature name hs hn) in
    let value_read : c_string (value ++ (signature ++ tail)) ≡ value ++ (signature ++ name) =
      ap (λ l. c_string (value ++ l)) (sym (append_assoc signature name (0 ∷ rest)))
      ∙ ap c_string (sym (append_assoc value (signature ++ name) (0 ∷ rest)))
      ∙ c_string-append (value ++ (signature ++ name)) rest
          (append-IsText value (signature ++ name) hv (append-IsText signature name hs hn)) in
    rw (at_signature, at_name, name_read, signature_read, value_read) refl

module _ {J : Type 0} (web : Web J) where
  -- The strings of an answer run into each other: the skin is read with the signature and the name
  -- behind it, the signature with the name. The name and the identifier are right.
  pub has_joined_response_runs_on :
      (id name value signature : List ℕ) (uuid : Ninuuid)
      → ninuuid_from_string web id ≡ some uuid
      → IsText value
      → IsText signature
      → IsText name
      → has_joined_response_of web id name value signature
        ≡ some (record {
          id = uuid;
          player_name = name;
          skin_blob_base64 = value ++ (signature ++ name);
          signature = signature ++ name;
        })
  unfolding has_joined_response_of
  has_joined_response_runs_on id name value signature uuid e hv hs hn =
      let block = web.malloc (length value + 1 + (length signature + 1) + (length name + 1)) in
      let (rest, laid) = string_block_lem block value signature name in
      rw e (
        ap some (
          ap (strings_in uuid (length value) (length signature)) laid
          ∙ strings_in_lem uuid name value signature rest hv hs hn))
