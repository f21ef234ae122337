-- ===== src/Authentication.antt =====
-- authentication-service/src/service.rs: the data of the device authentication, and the tests of
-- credentials. What the crates drogue-client, bcrypt, sha-crypt and rustls do are parameters.
pub mod Credentials
pub mod Keys
pub mod KeyChoice
pub mod Service
pub mod Access
pub mod Gateways
pub mod Secrets
pub mod Tests
use drogue_cloud.Base.{
  ℕ, String, ◌≡◌, Bool, true, false, ◌&&◌, not, List, [], ◌∷◌, Option, none, some, Result, ok, err,
  ltb, any, is_some, is_empty, if◌then◌else◌, string_eq, ◌==◌,
}
use drogue_cloud.HashMap.{HashMap, remove}

pub data Password : Type 0 where
  plain bcrypt sha512 : String → Password

pub record PreSharedKey (Validity : Type 0) : Type 0 where
  pub key : List ℕ
  pub validity : Option Validity

pub data Credential (Validity : Type 0) : Type 0 where
  password : Password → Credential Validity
  username_password : String → Password → Bool → Credential Validity
  pre_shared_key : PreSharedKey Validity → Credential Validity

abbrev pub Certificate : Type 0
Certificate = List ℕ

-- What a client presents.
pub data Presented : Type 0 where
  presented_password : String → Presented
  presented_username_password : String → String → Presented
  presented_certificate : List Certificate → Presented

pub data TrustAnchor : Type 0 where
  valid_anchor : List ℕ → ℕ → ℕ → TrustAnchor
  invalid_anchor : TrustAnchor

-- The answers of `rustls_pemfile::read_one`.
pub data PemItem : Type 0 where
  x509 : Certificate → PemItem
  other_item no_item bad_item : PemItem

-- The metadata that the service reads, and the sections.
pub record Application (Json : Type 0) : Type 0 where
  pub name : String
  pub deletion_timestamp : Option ℕ
  pub status : HashMap String Json
  pub spec : HashMap String Json

pub record Device (Json : Type 0) : Type 0 where
  pub name : String
  pub deletion_timestamp : Option ℕ
  pub spec : HashMap String Json

abbrev pub Decoded : Type 0 → Type 0
Decoded A = Option (Result (Unit {0}) A)

-- The functions of other crates: the typed sections of a resource, the keys of two of them, the
-- checks of hashes, and the checks of certificates.
pub record Crates (Json Validity : Type 0) : Type 0 where
  pub core_disabled : Application Json → Decoded Bool
  pub trust_anchors : Application Json → Decoded (List TrustAnchor)
  pub authentication : Device Json → Decoded (List (Credential Validity))
  pub gateway_selector : Device Json → Decoded (List String)
  pub authentication_key : String
  pub credentials_key : String
  pub bcrypt_verify : String → String → Bool
  pub sha512_check : String → String → Bool
  pub is_valid : Validity → ℕ → Bool
  pub key_leb : PreSharedKey Validity → PreSharedKey Validity → Bool
  pub read_one : List ℕ → PemItem
  pub add_root : Certificate → Bool
  pub verify_client_cert : Certificate → Certificate → List Certificate → ℕ → Bool

module _ {Json Validity : Type 0} (crates : Crates Json Validity) where
  unfoldable pub password_matches : Password → String → Bool
  password_matches (plain text) provided = text == provided
  password_matches (bcrypt hashed) provided = crates.bcrypt_verify provided hashed
  password_matches (sha512 hashed) provided = crates.sha512_check provided hashed

  -- One credential of the device against a password that comes without a user name.
  unfoldable pub password_credential : Device Json → String → String → Credential Validity → Bool
  password_credential device provided_device provided (password stored) =
      password_matches stored provided
  password_credential device provided_device provided (username_password user stored true) =
      user == provided_device && password_matches stored provided
  password_credential device provided_device provided (username_password user stored false) =
      user == device.name && password_matches stored provided
  password_credential device provided_device provided (pre_shared_key key) = false

  unfoldable pub validate_password :
      Device Json → List (Credential Validity) → String → String → Bool
  validate_password device credentials provided_device provided =
      any (password_credential device provided_device provided) credentials

  -- One credential of the device against a user name and a password.
  unfoldable pub username_credential : Device Json → String → String → Credential Validity → Bool
  username_credential device user provided (password stored) =
      user == device.name && password_matches stored provided
  username_credential device user provided (username_password stored_user stored unique) =
      stored_user == user && password_matches stored provided
  username_credential device user provided (pre_shared_key key) = false

  unfoldable pub validate_username_password :
      Device Json → List (Credential Validity) → String → String → Bool
  validate_username_password device credentials user provided =
      any (username_credential device user provided) credentials

  -- The last certificate, and those before it.
  unfoldable pub end_of_chain : List Certificate → Option (List Certificate × Certificate)
  end_of_chain [] = none
  end_of_chain (cert ∷ chain) = elim (end_of_chain chain) [
    | none ↦ some ([], cert)
    | some (intermediates, end) ↦ some (cert ∷ intermediates, end)
  ]

  unfoldable pub validate_trust_anchor : TrustAnchor → ℕ → List Certificate → Bool
  validate_trust_anchor invalid_anchor now presented = false
  validate_trust_anchor (valid_anchor certificate not_before not_after) now presented =
      elim (end_of_chain presented) [
        | none ↦ false
        | some (intermediates, end) ↦
            if ltb now not_before
            then false
            else if ltb not_after now
            then false
            else elim (crates.read_one certificate) [
              | x509 root ↦
                  if crates.add_root root
                  then crates.verify_client_cert root end intermediates now
                  else false
              | _ ↦ false
            ]
      ]

  unfoldable pub validate_certificate : Application Json → List Certificate → ℕ → Bool
  validate_certificate app chain now =
      if is_empty chain then false else elim (crates.trust_anchors app) [
        | some (ok anchors) ↦ any (λ anchor. validate_trust_anchor anchor now chain) anchors
        | some (err _) ↦ false
        | none ↦ false
      ]

  -- The credentials of a device; a device without the section has none.
  unfoldable pub validate_credential :
      Application Json → Device Json → String → Presented → ℕ → Bool
  validate_credential app device provided_device presented now =
      if is_some device.deletion_timestamp
      then false
      else let check : List (Credential Validity) → Bool = λ credentials. elim presented [
        | presented_password provided ↦
            validate_password device credentials provided_device provided
        | presented_username_password user provided ↦
            validate_username_password device credentials user provided
        | presented_certificate chain ↦ validate_certificate app chain now
      ] in
        elim (crates.authentication device) [
          | none ↦ check []
          | some (ok credentials) ↦ check credentials
          | some (err _) ↦ false
        ]

  unfoldable pub strip_credentials : Device Json → Device Json
  strip_credentials device = record device {
    spec = remove crates.credentials_key (remove crates.authentication_key device.spec);
  }

  unfoldable pub validate_app : Application Json → Bool
  validate_app app =
      if is_some app.deletion_timestamp then false else elim (crates.core_disabled app) [
        | none ↦ true
        | some (ok disabled) ↦ not disabled
        | some (err _) ↦ false
      ]
