-- ===== src/Authentication/Service.antt =====
-- authentication-service/src/service.rs: the operations of `PostgresAuthenticationService`. The
-- lookups of applications and devices in the database are the interface `Accessor`.
use drogue_cloud.Base.{
  ℕ, String, not, Option, none, some, Result, ok, err, any, is_some, if◌then◌else◌, string_eq, ◌==◌,
  ◌>>=◌,
}
use drogue_cloud.Authentication.{
  Application, Device, Presented, PreSharedKey, Crates, validate_app, validate_credential,
  strip_credentials,
}
use drogue_cloud.Authentication.Keys.{locate_psk}

-- A lookup finds a device by its name or an alias, `get_device` by its name.
pub record Accessor (Error Json : Type 0) : Type 0 where
  pub lookup_app : String → Result Error (Option (Application Json))
  pub lookup_device : String → String → Result Error (Option (Device Json))
  pub get_device : String → String → Result Error (Option (Device Json))

pub data Outcome (Json : Type 0) : Type 0 where
  pass : Application Json → Device Json → Option (Device Json) → Outcome Json
  fail : Outcome Json

pub data GatewayOutcome (Json : Type 0) : Type 0 where
  gateway_pass : Device Json → GatewayOutcome Json
  gateway_fail : GatewayOutcome Json

pub data PreSharedKeyOutcome (Json Validity : Type 0) : Type 0 where
  found_key :
      Application Json → Device Json → PreSharedKey Validity → PreSharedKeyOutcome Json Validity
  no_key : PreSharedKeyOutcome Json Validity

pub record AuthenticationRequest : Type 0 where
  pub application : String
  pub device : String
  pub credential : Presented
  pub as_id : Option String

module _ {Error Json Validity : Type 0} (crates : Crates Json Validity)
    (accessor : Accessor Error Json) where
  -- The macro `pass!`
  unfoldable pub pass_stripped :
      Application Json → Device Json → Option (Device Json) → Outcome Json
  pass_stripped application device none = pass application (strip_credentials crates device) none
  pass_stripped application device (some other) =
      pass application (strip_credentials crates device) (some (strip_credentials crates other))

  unfoldable pub validate_gateway :
      String → Application Json → Device Json → Result Error (Outcome Json)
  validate_gateway as_id application device = do
    found ← accessor.lookup_device application.name as_id
    elim found [
      | none ↦ ok fail
      | some other ↦
          if is_some other.deletion_timestamp
          then ok fail
          else elim (crates.gateway_selector other) [
            | none ↦ ok fail
            | some (err _) ↦ ok fail
            | some (ok names) ↦
                if any (λ name. name == device.name) names
                then ok (pass_stripped application device (some other))
                else ok fail
          ]
    ]

  unfoldable pub request_key :
      String → String → ℕ → Result Error (PreSharedKeyOutcome Json Validity)
  request_key application device now = do
    found_app ← accessor.lookup_app application
    elim found_app [
      | none ↦ ok no_key
      | some app ↦ if not (validate_app crates app) then ok no_key else do
        found_device ← accessor.lookup_device app.name device
        elim found_device [
          | none ↦ ok no_key
          | some dev ↦ elim (locate_psk crates dev now) [
            | none ↦ ok no_key
            | some key ↦ ok (found_key app (strip_credentials crates dev) key)
          ]
        ]
    ]

  -- The checks of `authenticate` once application and device are found.
  unfoldable pub authenticate_device :
      AuthenticationRequest → Application Json → Device Json → ℕ → Result Error (Outcome Json)
  unfolding validate_gateway
  authenticate_device request app device now =
      if validate_credential crates app device request.device request.credential now
      then elim request.as_id [
        | none ↦ ok (pass_stripped app device none)
        | some as_id ↦
            if as_id == request.device
            then ok (pass_stripped app device none)
            else validate_gateway as_id app device
      ]
      else ok fail

  unfoldable pub authenticate : AuthenticationRequest → ℕ → Result Error (Outcome Json)
  unfolding authenticate_device
  authenticate request now = do
    found_app ← accessor.lookup_app request.application
    elim found_app [
      | none ↦ ok fail
      | some app ↦ if not (validate_app crates app) then ok fail else do
        found_device ← accessor.lookup_device app.name request.device
        elim found_device [
          | none ↦ ok fail
          | some device ↦ authenticate_device request app device now
        ]
    ]

  abbrev pub gateway_outcome : Outcome Json → GatewayOutcome Json
  gateway_outcome fail = gateway_fail
  gateway_outcome (pass app device none) = gateway_fail
  gateway_outcome (pass app device (some other)) = gateway_pass other

  unfoldable pub authorize_gateway : String → String → String → Result Error (GatewayOutcome Json)
  unfolding validate_gateway
  authorize_gateway application device as_id = do
    found_app ← accessor.lookup_app application
    elim found_app [
      | none ↦ ok gateway_fail
      | some app ↦ if not (validate_app crates app) then ok gateway_fail else do
        found_device ← accessor.get_device app.name device
        elim found_device [
          | none ↦ ok gateway_fail
          | some dev ↦ do outcome ← validate_gateway as_id app dev; ok (gateway_outcome outcome)
        ]
    ]
