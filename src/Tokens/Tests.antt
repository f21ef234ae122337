-- ===== src/Tokens/Tests.antt =====
-- Access tokens at concrete letters, and a Keycloak that has one user.

use drogue_cloud.Base.{String, ◌≡◌, refl, [], ◌∷◌, Option, none, some, ok, err, arith, string_eq}
use drogue_cloud.HashMap.{HashMap, get, insert, remove}
use drogue_cloud.Tokens.{
  Digests, not_a_boundary, AccessTokenCreated, is_valid, generate_access_token, serialize_token,
}
use drogue_cloud.Tokens.Service.{
  User, Value, Keycloak, Json, array, create, delete, insert_entry, make_key, authenticate,
}
use drogue_cloud.Tokens.Service.Lifecycle.{
  stored, IsUser, IsCodec, authenticate-create, authenticate-delete,
}

abbrev digests : Digests
digests = record {
  checksum = λ text. 0;
  base62 = λ n. "0";
  hash_token = λ token. token;
  len-base62 = λ text. omega arith;
}

abbrev Attributes : Type 0
Attributes = Option (HashMap String Value)

abbrev reader : Attributes → User
reader attributes = record { id = some "1"; attributes = attributes }

-- The attributes of the user are all that is stored.
abbrev keycloak : Keycloak Attributes
keycloak = record {
  admin = λ w. ok tt;
  user_get = λ id w. ok (reader w);
  user_put = λ id u w. ok (stored u).attributes;
  user_named = λ name w. ok (some (reader w));
}

kept_lem :
    (w w' : Attributes) (u : User)
    → u.id ≡ some "1"
    → keycloak.user_put "1" u w ≡ ok w'
    → keycloak.user_get "1" w' ≡ ok (stored u)
kept_lem w w' u is h = ground (arith, is, h)

abbrev is_user : IsUser keycloak "1" "reader"
is_user = record {
  same_id = λ w u h. ground (arith, h);
  named = λ w u h. ground (arith, h);
  kept = kept_lem;
}

abbrev json : Json
json = record {
  to_text = λ d. ok d.hashed_token;
  from_text = λ text. ok (record { hashed_token = text; created = 0; description = none });
}

abbrev is_codec : IsCodec json
is_codec = record {
  reads = λ d s h.
      (record { hashed_token = s; created = 0; description = none }, refl, ground (arith, h));
}

abbrev key : String
key = "012345678901234567890123456789"

abbrev made : AccessTokenCreated
made = record { prefix = "drg_abcdef"; token = "drg_abcdef_0123456789012345678901234567890" }

abbrev after_create : Attributes
after_create =
    some
      ((make_key "drg_abcdef", array (some "drg_abcdef_0123456789012345678901234567890" ∷ [])) ∷ [])

created : create digests keycloak json (some "1") none "abcdef" key 5 none ≡ ok (made, after_create)
unfolding create generate_access_token serialize_token insert_entry insert remove
created = refl

authenticate-create_example :
    authenticate digests keycloak json "reader" "drg_abcdef_0123456789012345678901234567890"
      after_create
    ≡ ok (ok (some "1"))
authenticate-create_example =
    authenticate-create digests keycloak json "1" "reader" is_user is_codec none "abcdef" key 5 none
      after_create made refl refl created refl

valid : is_valid digests "drg_abcdef_0123456789012345678901234567890" ≡ ok (some "drg_abcdef")
unfolding is_valid
valid = refl

deleted : delete digests keycloak json (some "1") "drg_abcdef" after_create ≡ ok (some [])
unfolding delete make_key remove get
deleted = refl

authenticate-delete_example :
    authenticate digests keycloak json "reader" "drg_abcdef_0123456789012345678901234567890"
      (some [])
    ≡ ok (ok none)
authenticate-delete_example =
    authenticate-delete digests keycloak json "1" "reader" is_user is_codec "drg_abcdef"
      "drg_abcdef_0123456789012345678901234567890" after_create (some []) deleted valid refl

-- A password of 42 bytes whose first four are two characters is no token.
two_bytes_each : is_valid digests "ééééééééééééééééééééé" ≡ ok none
unfolding is_valid
two_bytes_each = refl

-- In this one the fourth byte is the first of a character, which the range of four bytes splits: the
-- call panics.
splits_a_character : is_valid digests "drgééééééééééééééééééé0" ≡ err not_a_boundary
unfolding is_valid
splits_a_character = refl
