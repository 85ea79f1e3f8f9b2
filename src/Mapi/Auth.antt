-- ===== src/Mapi/Auth.antt =====
-- json_to_auth_response of src/mapi/mapi.c.
use Prim.Native.String.{String}
use stronk.Base.{ℕ, Bool, false, ltb, if◌then◌else◌, Option, none, some, List, [], ◌∷◌, length}
use stronk.Base.{Outcome, ok, err, fault, over_read, null_read, uninitialised, use_after_free}
use stronk.Base.Null as Null
use stronk.Base.Null.{same_string}
use stronk.Uuid.{Ninuuid}
use stronk.Packet.Json.{codes}
use stronk.Mapi.{Web}
use stronk.Mapi.Joined.{ninuuid_from_string}

pub record Profile : Type 0 where
  pub uuid : Ninuuid
  pub name : List ℕ
  pub legacy : Bool

-- An option is none where the member is never set.
pub record User : Type 0 where
  pub id : List ℕ
  pub preferred_language : Option (List ℕ)
  pub twitch_access_token : Option (List ℕ)

-- The member `legacy` of the selected profile is never set. `user_present` is an option too.
pub record AuthResponse : Type 0 where
  pub access_token : List ℕ
  pub client_token : List ℕ
  pub available_profiles : List Profile
  pub selected_uuid : Ninuuid
  pub selected_name : List ℕ
  pub user_present : Option Bool
  pub user : Option User

-- NULL ends the function with NULL, a fault ends it.
infixl 5 ◌>>=◌
abbrev ◌>>=◌ {ℓ κ} :
    {X : Type ℓ} {Y : Type κ} → Outcome (Option X) → (X → Outcome (Option Y)) → Outcome (Option Y)
fault x >>= next = fault x
err e >>= next = err e
ok none >>= next = ok none
ok (some x) >>= next = next x

module _ {J : Type 0} (web : Web J) (json_is_true : J → Bool) where
  abbrev string_of : J → String → Outcome (Option (List ℕ))
  string_of json key = ok (Null.◌>>=◌ (web.json_object_get json key) web.json_string_value)

  -- Text shorter than eight bytes is read behind its NUL.
  abbrev uuid_of : List ℕ → Outcome (Option Ninuuid)
  uuid_of text = if ltb (length text) 8 then fault over_read else ok (ninuuid_from_string web text)

  -- Where the name is no string, the cleaning up frees the member `name` that is not set yet.
  abbrev name_of : Option (List ℕ) → Outcome (Option (List ℕ))
  name_of none = fault uninitialised
  name_of (some name) = ok (some name)

  -- Where there is no `legacy`, the cleaning up frees the name of the profile twice.
  abbrev legacy_of : Option J → Outcome (Option J)
  legacy_of none = fault use_after_free
  legacy_of (some legacy) = ok (some legacy)

  -- One turn of the loop over the profiles.
  unfoldable pub profile_of : J → Outcome (Option Profile)
  unfolding ninuuid_from_string
  profile_of json = do
    id ← string_of json "id"
    uuid ← uuid_of id
    name_json ← ok (web.json_object_get json "name")
    name ← name_of (web.json_string_value name_json)
    legacy ← legacy_of (web.json_object_get json "legacy")
    ok (some (record { uuid = uuid; name = name; legacy = json_is_true legacy }))

  unfoldable pub profiles_of : List J → Outcome (Option (List Profile))
  unfolding profile_of
  profiles_of [] = ok (some [])
  profiles_of (json ∷ rest) =
      let others = profiles_of rest in
      profile_of json >>= λ profile. others >>= λ profiles. ok (some (profile ∷ profiles))

  -- An array with no entries is an error.
  abbrev entries_of : J → String → Outcome (Option (List J))
  entries_of json key = elim (web.json_object_get json key) [
    | none ↦ ok none
    | some array ↦ elim (web.json_array array) [
      | [] ↦ ok none
      | entry ∷ entries ↦ ok (some (entry ∷ entries))
    ]
  ]

  -- `strcmp(name, ...)`: a name that is no string gets this far as NULL.
  abbrev set_property : User → Option (List ℕ) → List ℕ → Outcome (Option User)
  set_property user none value = fault null_read
  set_property user (some name) value =
      if same_string name (codes "preferredLanguage")
      then ok (some (record user { preferred_language = some value }))
      else if same_string name (codes "twitch_access_token")
      then ok (some (record user { twitch_access_token = some value }))
      else ok (some user)

  -- One turn of the loop over the properties: the flags for what was found start anew in each.
  unfoldable pub property_of : User → J → Outcome (Option User)
  unfolding same_string
  property_of user entry = ok (web.json_object_get entry "name") >>= λ name_json.
      string_of entry "value" >>= λ value. set_property user (web.json_string_value name_json) value

  unfoldable pub properties_of : List J → User → Outcome (Option User)
  unfolding property_of
  properties_of [] user = ok (some user)
  properties_of (entry ∷ rest) user = property_of user entry >>= properties_of rest

  -- The identifier is stored without its NUL. The properties are looked up beside the user.
  unfoldable pub user_of : J → J → Outcome (Option User)
  unfolding properties_of
  user_of json user_json = do
    id ← string_of user_json "id"
    entries ← entries_of json "properties"
    properties_of entries
        (record { id = id; preferred_language = none; twitch_access_token = none })

  abbrev with_user : AuthResponse → J → Option J → Outcome (Option AuthResponse)
  with_user response json none = ok (some (record response { user_present = some false }))
  with_user response json (some user_json) =
      user_of json user_json >>= λ user. ok (some (record response { user = some user }))

  unfoldable pub json_to_auth_response : J → Outcome (Option AuthResponse)
  unfolding profiles_of user_of
  json_to_auth_response json = do
    access_token ← string_of json "accessToken"
    client_token ← string_of json "clientToken"
    entries ← entries_of json "availableProfiles"
    profiles ← profiles_of entries
    selected ← ok (web.json_object_get json "selectedProfile")
    selected_id ← string_of selected "id"
    selected_uuid ← uuid_of selected_id
    selected_name ← string_of selected "name"
    with_user
        (record {
          access_token = access_token;
          client_token = client_token;
          available_profiles = profiles;
          selected_uuid = selected_uuid;
          selected_name = selected_name;
          user_present = none;
          user = none;
        })
        json (web.json_object_get json "user")
