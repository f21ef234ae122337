-- ===== src/Mqtt/Authenticator.antt =====
-- endpoint-common/src/auth.rs: how a connection of MQTT is authenticated. The authentication service,
-- the decoding of texts, and the reading of certificates are an interface. A connection is never
-- authenticated as another device, so that what passes is an application and a device.
use Prim.Native.String.{[] as str_nil, ◌∷◌ as str_cons}
use drogue_cloud.Base.{String, Option, none, some, Result, ok, err, if◌then◌else◌, string_eq, ◌==◌}
use drogue_cloud.Mqtt.Topics.{push_pair}

pub record VerifiedIdentity (A T : Type 0) : Type 0 where
  pub application : A
  pub device : T

pub data AuthOutcome (A T : Type 0) : Type 0 where
  auth_pass : A → T → AuthOutcome A T
  auth_fail : AuthOutcome A T

pub data Username : Type 0 where
  scoped : (scope : String) → (device : String) → Username
  non_scoped : String → Username

pub data Credential (Certs : Type 0) : Type 0 where
  password : String → Credential Certs
  username_password : String → String → Credential Certs
  certificate : Certs → Credential Certs

-- `request_authenticate` is the call of the service with an application, a device and a credential;
-- `ids_from_cert` gives the names that a certificate has of them.
pub record Service (World A T Certs : Type 0) : Type 0 where
  pub percent_decode : String → String
  pub ids_from_cert : Certs → Result String (String × String)
  pub request_authenticate :
      String → String → Credential Certs → World → Result String (AuthOutcome A T) × World

-- `splitn(2, '@')`, where there is an '@'.
unfoldable pub split_scope : String → Option (String × String)
unfolding push_pair
split_scope String.[] = none
split_scope (String.◌∷◌ c s) =
    let rest = split_scope s in if str_cons c str_nil == "@" then some ("", s) else push_pair c rest

module _ {World A T Certs : Type 0} (service : Service World A T Certs) where
  unfoldable pub username_from : String → Username
  unfolding split_scope
  username_from s = elim (split_scope s) [
    | some (device, scope) ↦ scoped scope (service.percent_decode device)
    | none ↦ non_scoped s
  ]

  unfoldable pub authenticate_cert : Certs → World → Result String (AuthOutcome A T) × World
  authenticate_cert certs w = elim (service.ids_from_cert certs) [
    | err e ↦ (err e, w)
    | ok ids ↦ service.request_authenticate ids.0 ids.1 (certificate certs) w
  ]

  abbrev pub authenticate_verified_identity : VerifiedIdentity A T → Result String (AuthOutcome A T)
  authenticate_verified_identity identity = ok (auth_pass identity.application identity.device)

  -- The user name and the password, with the client id where the user name has no scope.
  abbrev pub authenticate_password :
      Username → String → Username → World → Result String (AuthOutcome A T) × World
  authenticate_password (scoped scope device) secret client_id w =
      service.request_authenticate scope device (password secret) w
  authenticate_password (non_scoped username) secret (scoped scope device) w =
      service.request_authenticate scope device (username_password username secret) w
  authenticate_password (non_scoped username) secret (non_scoped client_id) w = (ok auth_fail, w)

  unfoldable pub authenticate_mqtt :
      Option String
      → Option String
      → String
      → Option Certs
      → Option (VerifiedIdentity A T)
      → World
      → Result String (AuthOutcome A T) × World
  unfolding username_from authenticate_cert
  authenticate_mqtt (some username) (some secret) client_id none none w =
      authenticate_password (username_from username) secret (username_from client_id) w
  authenticate_mqtt none none client_id (some certs) none w = authenticate_cert certs w
  authenticate_mqtt none none client_id none (some identity) w =
      (authenticate_verified_identity identity, w)
  authenticate_mqtt username secret client_id certs identity w = (ok auth_fail, w)
