-- ===== src/Tokens/Service.antt =====
-- access-token-service/src/service.rs: tokens as attributes of the user in Keycloak. Keycloak, its
-- JSON values and the encoding of the data are parameters.
pub mod Lifecycle
use mathlib.Core.Option
use Prim.Native.String.{◌++◌ as str_append, len, slice}
use text.Mathlib.Text.{starts_with}
use drogue_cloud.Base.{
  ℕ, String, ◌≡◌, Bool, List, [], ◌∷◌, Option, none, some, is_some, Result, ok, err, ◌>>=◌,
  if◌then◌else◌, string_eq, ◌==◌,
}
use drogue_cloud.HashMap.{HashMap, get, insert, remove}
use drogue_cloud.Tokens.{AccessTokenCreated, Digests, Panic, generate_access_token, is_valid}

pub record AccessTokenData : Type 0 where
  pub hashed_token : String
  pub created : ℕ
  pub description : Option String

pub record AccessToken : Type 0 where
  pub prefix : String
  pub created : ℕ
  pub description : Option String

-- A text is written, a list is read; an element of it is a text, or something else. Other values are
-- of the wrong type.
pub data Value : Type 0 where
  json_text : String → Value
  array : List (Option String) → Value
  other_value : Value

pub record User : Type 0 where
  pub id : Option String
  pub attributes : Option (HashMap String Value)

pub data TokenError : Type 0 where
  not_authorized : TokenError
  client_error json_error : String → TokenError

-- The administration of the realm. `World` is what Keycloak stores.
pub record Keycloak (World : Type 0) : Type 0 where
  pub admin : World → Result String (Unit {0})
  pub user_get : String → World → Result String User
  pub user_put : String → User → World → Result String World
  -- the last user of those with exactly this name
  pub user_named : String → World → Result String (Option User)

-- serde_json, for the data of a token
pub record Json : Type 0 where
  pub to_text : AccessTokenData → Result String String
  pub from_text : String → Result String AccessTokenData

abbrev pub attr_prefix : String
attr_prefix = "access_token_"

unfoldable pub make_key : String → String
make_key prefix = str_append attr_prefix prefix

abbrev pub client_failed : {A : Type 0} → Result String A → Result TokenError A
client_failed (ok a) = ok a
client_failed (err e) = err (client_error e)

abbrev pub json_failed : {A : Type 0} → Result String A → Result TokenError A
json_failed (ok a) = ok a
json_failed (err e) = err (json_error e)

abbrev pub identified : Option String → Result TokenError String
identified none = err not_authorized
identified (some user_id) = ok user_id

module _ {World : Type 0} (digests : Digests) (keycloak : Keycloak World) (json : Json) where
  unfoldable pub insert_entry :
      HashMap String Value → String → AccessTokenData → Result TokenError (HashMap String Value)
  unfolding make_key
  insert_entry attributes prefix entry = do
    encoded ← json_failed (json.to_text entry)
    ok (insert (make_key prefix) (json_text encoded) attributes)

  unfoldable pub decode_data : Value → Result TokenError AccessTokenData
  decode_data (array (some encoded ∷ values)) = json_failed (json.from_text encoded)
  decode_data value = err not_authorized

  abbrev pub attributes_of : User → HashMap String Value
  attributes_of user = elim user.attributes [ none ↦ [] | some attributes ↦ attributes ]

  -- `user_id` is that of the identity. The letters and the key are drawn, and the clock says `now`.
  unfoldable pub create :
      Option String
      → Option String
      → String
      → String
      → ℕ
      → World
      → Result TokenError (AccessTokenCreated × World)
  unfolding insert_entry
  create identity description letters key now w =
      let token = generate_access_token digests letters key in
      let entry : AccessTokenData = record {
        hashed_token = token.1;
        created = now;
        description = description;
      } in
      do
        user_id ← identified identity
        _ ← client_failed (keycloak.admin w)
        user ← client_failed (keycloak.user_get user_id w)
        attributes ← insert_entry (attributes_of user) token.0.prefix entry
        w' ←
            client_failed
              (keycloak.user_put user_id (record user { attributes = some attributes }) w)
        ok (token.0, w')

  unfoldable pub delete : Option String → String → World → Result TokenError World
  unfolding make_key
  delete identity prefix w = do
    user_id ← identified identity
    _ ← client_failed (keycloak.admin w)
    user ← client_failed (keycloak.user_get user_id w)
    elim user.attributes [
      | none ↦ ok w
      | some attributes ↦
          let rest = remove (make_key prefix) attributes in
          if is_some (get (make_key prefix) attributes)
          then client_failed (keycloak.user_put user_id (record user { attributes = some rest }) w)
          else ok w
    ]

  -- `strip_prefix`
  abbrev pub stripped : String → Option String
  stripped key =
      if starts_with key attr_prefix then some (slice key (len attr_prefix) (len key)) else none

  unfoldable pub tokens_of : HashMap String Value → List AccessToken
  unfolding decode_data
  tokens_of [] = []
  tokens_of ((key, value) ∷ attributes) =
      let rest = tokens_of attributes in
      elim (stripped key) [
        | none ↦ rest
        | some prefix ↦ elim (decode_data value) [
          | ok found ↦
              (record { prefix = prefix; created = found.created; description = found.description })
              ∷ rest
          | err e ↦ rest
        ]
      ]

  unfoldable pub list : Option String → World → Result TokenError (List AccessToken)
  unfolding tokens_of
  list identity w = do
    user_id ← identified identity
    _ ← client_failed (keycloak.admin w)
    user ← client_failed (keycloak.user_get user_id w)
    ok (tokens_of (attributes_of user))

  -- The hash that is stored for a token, if there is one that can be read.
  unfoldable pub expected_hash : User → String → Option String
  unfolding make_key decode_data
  expected_hash user prefix = elim (get (make_key prefix) (attributes_of user)) [
    | none ↦ none
    | some value ↦ elim (decode_data value) [ ok found ↦ some found.hashed_token | err e ↦ none ]
  ]

  -- The id of the user, if the hash of the password is the stored one.
  unfoldable pub verify : User → String → String → Option String
  unfolding expected_hash
  verify user prefix password = elim user.id [
    | none ↦ none
    | some user_id ↦ elim (expected_hash user prefix) [
      | none ↦ none
      | some hash ↦ if digests.hash_token password == hash then some user_id else none
    ]
  ]

  abbrev pub verify_found : Option User → String → String → Option String
  verify_found none prefix password = none
  verify_found (some user) prefix password = verify user prefix password

  unfoldable pub authenticate_with :
      Option String → String → String → World → Result TokenError (Option String)
  unfolding verify
  authenticate_with none username password w = ok none
  authenticate_with (some prefix) username password w = do
    _ ← client_failed (keycloak.admin w)
    user ← client_failed (keycloak.user_named username w)
    ok (verify_found user prefix password)

  -- `authenticate`. A password with a range that splits a character panics.
  unfoldable pub authenticate :
      String → String → World → Result Panic (Result TokenError (Option String))
  unfolding authenticate_with
  authenticate username password w = do
    prefix ← is_valid digests password
    ok (authenticate_with prefix username password w)
