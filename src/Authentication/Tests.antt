-- ===== src/Authentication/Tests.antt =====
-- The device authentication at concrete inputs.

use drogue_cloud.Base.{
  ℕ, String, ◌≡◌, refl, true, false, List, [], ◌∷◌, Option, none, some, Result, ok, arith, leb,
  Bool-cases, inl, inr, ◌⊎◌, string_eq, ◌==◌, if◌then◌else◌,
}
use drogue_cloud.HashMap.{remove}
use drogue_cloud.Authentication.{
  plain, PreSharedKey, Credential, password, username_password, pre_shared_key, TrustAnchor,
  valid_anchor, x509, presented_password, Application, Device, Crates, password_matches,
  password_credential, validate_password, validate_certificate, end_of_chain, validate_trust_anchor,
  validate_credential, strip_credentials, validate_app,
}
use drogue_cloud.Authentication.Keys.{sort, candidates, insert_key, locate_psk}
use drogue_cloud.Authentication.KeyChoice.{IsOrder}
use drogue_cloud.Authentication.Service.{
  Accessor, pass, fail, gateway_pass, AuthenticationRequest, pass_stripped, validate_gateway,
  authenticate_device, authenticate, authorize_gateway,
}
use drogue_cloud.Authentication.Access.{IsAdmitted, authenticate-IsAdmitted}
use drogue_cloud.Authentication.Secrets.{HasNoSecrets, authenticate-IsClean}
use drogue_cloud.Authentication.Gateways.{authorize_gateway-authenticate}

abbrev app : Application String
app = record { name = "app"; deletion_timestamp = none; status = []; spec = [] }

abbrev gateway : Device String
gateway = record {
  name = "gw";
  deletion_timestamp = none;
  spec = ("authentication", "secret") ∷ ("core", "{}") ∷ [];
}

abbrev sensor : Device String
sensor = record { name = "sensor"; deletion_timestamp = none; spec = [] }

abbrev old_key : PreSharedKey ℕ
old_key = record { key = 1 ∷ []; validity = some 5 }

abbrev new_key : PreSharedKey ℕ
new_key = record { key = 2 ∷ []; validity = none }

abbrev stored : List (Credential ℕ)
stored =
    username_password "alias" (plain "p1") true
    ∷ password (plain "p2")
    ∷ pre_shared_key old_key
    ∷ pre_shared_key new_key
    ∷ []

abbrev anchor : TrustAnchor
anchor = valid_anchor (7 ∷ []) 3 9

-- A key is valid up to a time; all keys are of the same rank.
abbrev crates : Crates String ℕ
crates = record {
  core_disabled = λ a. none;
  trust_anchors = λ a. some (ok (anchor ∷ []));
  authentication = λ d. some (ok stored);
  gateway_selector = λ d. some (ok ("gw" ∷ []));
  authentication_key = "authentication";
  credentials_key = "credentials";
  bcrypt_verify = λ provided hashed. false;
  sha512_check = λ provided hashed. false;
  is_valid = λ validity now. leb now validity;
  key_leb = λ a b. true;
  read_one = λ text. x509 text;
  add_root = λ root. true;
  verify_client_cert = λ root end intermediates now. true;
}

-- The gateway is also found by an alias.
abbrev lookup : String → Result String (Option (Device String))
lookup id =
    if id == "sensor"
    then ok (some sensor)
    else if id == "gw"
    then ok (some gateway)
    else if id == "alias"
    then ok (some gateway)
    else ok none

abbrev accessor : Accessor String String
accessor = record {
  lookup_app = λ id. ok (some app);
  lookup_device = λ a id. lookup id;
  get_device = λ a id. lookup id;
}

abbrev request : AuthenticationRequest
request = record {
  application = "app";
  device = "alias";
  credential = presented_password "p1";
  as_id = some "sensor";
}

abbrev stripped : Device String
stripped = record gateway { spec = ("core", "{}") ∷ [] }

authenticated_as_sensor :
    authenticate crates accessor request 4 ≡ ok (pass app stripped (some sensor))
unfolding authenticate authenticate_device validate_gateway pass_stripped validate_app
    validate_credential validate_password password_credential password_matches strip_credentials
    remove
authenticated_as_sensor = refl

authenticate-IsAdmitted_example :
    (pass app stripped (some sensor) ≡ fail)
    ⊎ IsAdmitted crates accessor request 4 (pass app stripped (some sensor))
authenticate-IsAdmitted_example =
    authenticate-IsAdmitted crates accessor request 4 (pass app stripped (some sensor))
      authenticated_as_sensor

authenticate-IsClean_example :
    HasNoSecrets crates accessor stripped × HasNoSecrets crates accessor sensor
authenticate-IsClean_example =
    authenticate-IsClean crates accessor request 4 (pass app stripped (some sensor))
      authenticated_as_sensor

found_by_name :
    (a id : String) (found : Device String)
    → accessor.lookup_device a id ≡ ok (some found)
    → accessor.get_device a found.name ≡ ok (some found)
found_by_name a id found h = elim (Bool-cases (id == "sensor")) [
  | inl e ↦ let same : found ≡ sensor = ground (arith, h, e) in rw same refl
  | inr n ↦ elim (Bool-cases (id == "gw")) [
    | inl e ↦ let same : found ≡ gateway = ground (arith, h, n, e) in rw same refl
    | inr m ↦ elim (Bool-cases (id == "alias")) [
      | inl e ↦ let same : found ≡ gateway = ground (arith, h, n, m, e) in rw same refl
      | inr k ↦
          let missing : ◌≡◌ {A = Result String (Option (Device String))} (ok none)
              (ok (some found)) =
            ground (arith, h, n, m, k) in
          cc
    ]
  ]
]

authorize_gateway-authenticate_example :
    (as_id : String) × (request.as_id ≡ some as_id)
    × (authorize_gateway crates accessor "app" "gw" as_id ≡ ok (gateway_pass sensor))
authorize_gateway-authenticate_example =
    authorize_gateway-authenticate crates accessor found_by_name request 4 app stripped sensor
      authenticated_as_sensor

-- The alias has a password of its own, which the name does not accept.
accepted_by_name : validate_password crates gateway stored "gw" "p1" ≡ false
unfolding validate_password password_credential password_matches
accepted_by_name = refl

chain_accepted : validate_certificate crates app ((1 ∷ []) ∷ (2 ∷ []) ∷ []) 4 ≡ true
unfolding validate_certificate validate_trust_anchor end_of_chain
chain_accepted = refl

crates-IsOrder : IsOrder crates
crates-IsOrder = record { total = λ a b h. refl; trans = λ a b c h k. refl }

located : locate_psk crates gateway 7 ≡ some new_key
unfolding locate_psk sort candidates insert_key
located = refl
