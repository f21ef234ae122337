-- ===== src/Tokens/Service/Lifecycle.antt =====
-- access-token-service/src/service.rs: which tokens authenticate a user. What is assumed of Keycloak is
-- that a user is found by id and by name, and that what is put is what is there afterwards, with texts
-- as lists of one text.
use mathlib.Core.Option
use Prim.Native.String.{len}
use drogue_cloud.Base.{
  ℕ, String, ◌≡◌, refl, ◌∙◌, true, [], ◌∷◌, Option, none, some, Result, ok, err, arith,
  Result-cases, Option-cases, Bool-cases, inl, inr, string_eq, ◌==◌, beq_refl,
}
use drogue_cloud.HashMap.{HashMap, get, insert, remove, get-insert, get-remove}
use drogue_cloud.Tokens.{
  Digests, AccessTokenCreated, prefix_length, key_length, generate_access_token, serialize_token,
  is_valid,
}
use drogue_cloud.Tokens.Validity.{is_valid-generate_access_token}
use drogue_cloud.Tokens.Service.{
  AccessTokenData, Value, json_text, array, other_value, User, Keycloak, Json, make_key,
  client_failed, insert_entry, decode_data, attributes_of, create, delete, expected_hash, verify,
  authenticate_with, authenticate,
}

-- A text is given back as a list.
abbrev pub stored_value : Value → Value
stored_value (json_text s) = array (some s ∷ [])
stored_value (array values) = array values
stored_value other_value = other_value

abbrev pub stored_attributes : HashMap String Value → HashMap String Value
stored_attributes [] = []
stored_attributes ((key, value) ∷ attributes) =
    (key, stored_value value) ∷ stored_attributes attributes

abbrev pub stored : User → User
stored user = record user { attributes = Option.map stored_attributes user.attributes }

get-stored_attributes :
    (key : String) (m : HashMap String Value)
    → get key (stored_attributes m) ≡ Option.map stored_value (get key m)
unfolding get
get-stored_attributes key [] = refl
get-stored_attributes key ((k, v) ∷ m) = elim (Bool-cases (k == key)) [
  | inl p ↦ ground (arith, p)
  | inr p ↦ ground (arith, p, get-stored_attributes key m)
]

-- The behaviour of Keycloak for one user.
pub record IsUser {World : Type 0} (keycloak : Keycloak World) (user_id username : String)
    : Type 0 where
  pub same_id : (w : World) (u : User) → keycloak.user_get user_id w ≡ ok u → u.id ≡ some user_id
  pub named :
      (w : World) (u : User)
      → keycloak.user_get user_id w ≡ ok u
      → keycloak.user_named username w ≡ ok (some u)
  pub kept :
      (w w' : World) (u : User)
      → u.id ≡ some user_id
      → keycloak.user_put user_id u w ≡ ok w'
      → keycloak.user_get user_id w' ≡ ok (stored u)

-- The data that is written is read with its hash.
pub record IsCodec (json : Json) : Type 0 where
  pub reads :
      (d : AccessTokenData) (s : String)
      → json.to_text d ≡ ok s
      → (read : AccessTokenData) × (json.from_text s ≡ ok read)
        × (read.hashed_token ≡ d.hashed_token)

client_failed_lem : {A : Type 0} {a : A} → (r : Result String A) → client_failed r ≡ ok a → r ≡ ok a
client_failed_lem (ok b) h = ground (arith, h)
client_failed_lem (err e) h = absurd (ground (arith, h))

module _ {World : Type 0} (digests : Digests) (keycloak : Keycloak World) (json : Json) where
  -- What a call of `create` did.
  create_inv :
      (user_id : String) (description : Option String) (letters key : String) (now : ℕ)
      (w w' : World) (token : AccessTokenCreated)
      → create digests keycloak json (some user_id) description letters key now w ≡ ok (token, w')
      → let made = generate_access_token digests letters key in
        let entry : AccessTokenData = record {
          hashed_token = made.1;
          created = now;
          description = description;
        } in
        (user : User) × (encoded : String) × (token ≡ made.0)
        × (keycloak.user_get user_id w ≡ ok user)
        × (json.to_text entry ≡ ok encoded)
        × (keycloak.user_put user_id
              (record user {
                attributes = some (
                    insert
                      (make_key token.prefix)
                      (json_text encoded)
                      (attributes_of digests keycloak json user));
              })
              w
            ≡ ok w')
  unfolding create insert_entry
  create_inv user_id description letters key now w w' token h =
      let made = generate_access_token digests letters key in
      let entry : AccessTokenData = record {
        hashed_token = made.1;
        created = now;
        description = description;
      } in
      elim (Result-cases (keycloak.admin w)) [
        | inr (_, a) ↦ absurd (ground (arith, a, h))
        | inl (_, a) ↦ elim (Result-cases (keycloak.user_get user_id w)) [
          | inr (_, b) ↦ absurd (ground (arith, a, b, h))
          | inl (user, b) ↦ elim (Result-cases (json.to_text entry)) [
            | inr (_, c) ↦ absurd (ground (arith, a, b, c, h))
            | inl (encoded, c) ↦
                elim (Result-cases (
                  keycloak.user_put user_id
                    (record user {
                      attributes = some (
                          insert (make_key made.0.prefix) (json_text encoded)
                            (attributes_of digests keycloak json user));
                    })
                    w)) [
                      | inr (_, d) ↦ absurd (ground (arith, a, b, c, d, h))
                      | inl (end, d) ↦
                          let is : token ≡ made.0 = ground (arith, a, b, c, d, h) in
                          let last : end ≡ w' = ground (arith, a, b, c, d, h) in
                          (user, encoded, is, b, c, rw (is, ← last) d)
                    ]
          ]
        ]
      ]

  authenticate_lem :
      (username prefix password : String) (w : World) (u : User)
      → is_valid digests password ≡ ok (some prefix)
      → keycloak.admin w ≡ ok tt
      → keycloak.user_named username w ≡ ok (some u)
      → authenticate digests keycloak json username password w
        ≡ ok (ok (verify digests keycloak json u prefix password))
  unfolding authenticate authenticate_with
  authenticate_lem username prefix password w u valid up named =
      rw (authenticate, valid, authenticate_with, up, named) refl

  -- A stored entry that decodes.
  expected_hash-insert :
      (id : Option String) (prefix encoded : String) (m : HashMap String Value)
      (d : AccessTokenData)
      → json.from_text encoded ≡ ok d
      → expected_hash digests keycloak json
          (stored (record {
            id = id;
            attributes = some (insert (make_key prefix) (json_text encoded) m);
          }))
          prefix
        ≡ some d.hashed_token
  unfolding expected_hash decode_data
  expected_hash-insert id prefix encoded m d reads =
      let k = make_key prefix in
      let at : get k (insert k (json_text encoded) m) ≡ some (json_text encoded) =
        get-insert k k (json_text encoded) m ∙ rw beq_refl refl in
      rw
        (
          expected_hash,
          get-stored_attributes k (insert k (json_text encoded) m),
          at,
          decode_data,
          reads,
        )
        refl

  expected_hash-absent :
      (user : User) (prefix : String)
      → get (make_key prefix) (attributes_of digests keycloak json user) ≡ none
      → expected_hash digests keycloak json (stored user) prefix ≡ none
  unfolding expected_hash get
  expected_hash-absent user prefix gone = elim (Option-cases user.attributes) [
    | inl e ↦ rw (expected_hash, e) refl
    | inr (m, e) ↦
        let absent : get (make_key prefix) m ≡ none = rw e at gone in
        rw (expected_hash, e, get-stored_attributes (make_key prefix) m, absent) refl
  ]

  module _ (user_id username : String) (laws : IsUser keycloak user_id username)
      (codec : IsCodec json) where
    -- Right after a token was created it authenticates its user.
    pub authenticate-create :
        (description : Option String) (letters key : String) (now : ℕ) (w w' : World)
        (token : AccessTokenCreated)
        → len letters ≡ prefix_length
        → len key ≡ key_length
        → create digests keycloak json (some user_id) description letters key now w ≡ ok (token, w')
        → keycloak.admin w' ≡ ok tt
        → authenticate digests keycloak json username token.token w' ≡ ok (ok (some user_id))
    unfolding authenticate authenticate_with verify expected_hash decode_data generate_access_token
        serialize_token
    authenticate-create description letters key now w w' token six thirty h up =
        let (user, encoded, is, found, text, put) =
          create_inv user_id description letters key now w w' token h in
        let made = generate_access_token digests letters key in
        let valid = is_valid-generate_access_token digests letters key six thirty in
        let there = laws.kept w w' _ (laws.same_id w user found) put in
        let id = laws.same_id w' _ there in
        let same : (digests.hash_token made.0.token == made.1) ≡ true = beq_refl made.1 in
        let (back, reads, hashed) = codec.reads _ encoded text in
        let hash =
          expected_hash-insert user.id token.prefix encoded
            (attributes_of digests keycloak json user) back reads in
        authenticate_lem username token.prefix token.token w' _ (rw is valid) up
          (laws.named w' _ there)
        ∙ rw (verify, id, hash, hashed, is, same) refl

    -- The user after a call of `delete` has no hash for the prefix.
    delete_inv :
        (prefix : String) (w w' : World)
        → delete digests keycloak json (some user_id) prefix w ≡ ok w'
        → (u : User) × (keycloak.user_get user_id w' ≡ ok u)
          × (expected_hash digests keycloak json u prefix ≡ none)
    unfolding delete expected_hash get
    delete_inv prefix w w' h =
        let k = make_key prefix in
        elim (Result-cases (keycloak.admin w)) [
          | inr (_, a) ↦ absurd (ground (arith, a, h))
          | inl (_, a) ↦ elim (Result-cases (keycloak.user_get user_id w)) [
            | inr (_, b) ↦ absurd (ground (arith, a, b, h))
            | inl (user, b) ↦ elim (Option-cases user.attributes) [
              | inl c ↦
                  let last : w ≡ w' = ground (arith, a, b, c, h) in
                  (user, rw (← last) b, rw (expected_hash, c) refl)
              | inr (m, c) ↦ elim (Option-cases (get k m)) [
                | inl d ↦
                    let last : w ≡ w' = ground (arith, a, b, c, d, h) in
                    (user, rw (← last) b, rw (expected_hash, c, d) refl)
                | inr (v, d) ↦
                    let left : User = record user { attributes = some (remove k m) } in
                    let put : keycloak.user_put user_id left w ≡ ok w' =
                      client_failed_lem _ (ground (arith, a, b, c, d, h)) in
                    (
                      stored left,
                      laws.kept w w' left (laws.same_id w user b) put,
                      expected_hash-absent left prefix (get-remove k k m ∙ rw beq_refl refl),
                    )
              ]
            ]
          ]
        ]

    -- After a token was deleted, no password with its prefix authenticates the user.
    pub authenticate-delete :
        (prefix password : String) (w w' : World)
        → delete digests keycloak json (some user_id) prefix w ≡ ok w'
        → is_valid digests password ≡ ok (some prefix)
        → keycloak.admin w' ≡ ok tt
        → authenticate digests keycloak json username password w' ≡ ok (ok none)
    unfolding delete authenticate authenticate_with verify expected_hash
    authenticate-delete prefix password w w' h valid up =
        let (u, found, none_left) = delete_inv prefix w w' h in
        authenticate_lem username prefix password w' u valid up (laws.named w' u found)
        ∙ rw (verify, laws.same_id w' u found, none_left) refl
