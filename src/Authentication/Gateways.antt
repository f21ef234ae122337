-- ===== src/Authentication/Gateways.antt =====
-- authentication-service/src/service.rs: `authenticate` with another device to act as, and
-- `authorize_gateway`, decide alike.
use drogue_cloud.Base.{
  ℕ, String, ◌≡◌, some, ok, arith, inl, inr, mem-any, string_eq, ◌==◌, beq_refl,
}
use drogue_cloud.Authentication.{Application, Device, Crates, strip_credentials}
use drogue_cloud.Authentication.Service.{
  Accessor, pass, gateway_pass, AuthenticationRequest, pass_stripped, validate_gateway,
  authenticate, authorize_gateway,
}
use drogue_cloud.Authentication.Access.{IsServedBy, authenticate-IsAdmitted}

module _ {Error Json Validity : Type 0} (crates : Crates Json Validity)
    (accessor : Accessor Error Json) where
  served-validate_gateway :
      (as_id : String) (app : Application Json) (device other : Device Json)
      → IsServedBy crates accessor app.name device.name as_id other
      → validate_gateway crates accessor as_id app device
        ≡ ok (pass_stripped crates accessor app device (some other))
  unfolding validate_gateway
  served-validate_gateway as_id app device other served = ground (
    arith,
    served.stored,
    served.alive,
    served.selector,
    mem-any (λ n. n == device.name) served.names device.name served.listed (beq_refl device.name),
  )

  -- If a device is found by its name wherever it is found at all: a gateway that was authenticated
  -- to act as another device is also authorized to, under its own name, and for the same device.
  pub authorize_gateway-authenticate :
      ((app id : String) (found : Device Json)
        → accessor.lookup_device app id ≡ ok (some found)
        → accessor.get_device app found.name ≡ ok (some found))
      → (request : AuthenticationRequest) (now : ℕ) (app : Application Json)
        (device other : Device Json)
      → authenticate crates accessor request now ≡ ok (pass app device (some other))
      → (as_id : String) × (request.as_id ≡ some as_id)
        × (authorize_gateway crates accessor request.application device.name as_id
            ≡ ok (gateway_pass other))
  unfolding authorize_gateway pass_stripped strip_credentials
  authorize_gateway-authenticate by_name request now app device other h =
      elim (authenticate-IsAdmitted crates accessor request now (pass app device (some other)) h) [
        | inl failed ↦ cc
        | inr admitted ↦ elim admitted.acts [
          | inl (e, itself) ↦ cc
          | inr (as_id, named, differs, (target, served, e)) ↦ (
            as_id,
            named,
            ground (
              arith,
              e,
              admitted.app_stored,
              admitted.app_valid,
              by_name admitted.app.name request.device admitted.device admitted.device_stored,
              served-validate_gateway as_id admitted.app admitted.device target served,
            ),
          )
        ]
      ]
