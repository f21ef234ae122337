-- ===== src/Authentication/Secrets.antt =====
-- authentication-service/src/service.rs: no operation hands out the credentials of a device.
use drogue_cloud.Base.{ℕ, ◌≡◌, Option, none, some, ok, arith, inl, inr, string_eq, beq_refl}
use drogue_cloud.HashMap.{get, remove, get-remove}
use drogue_cloud.Authentication.{Application, Device, Crates, strip_credentials}
use drogue_cloud.Authentication.Service.{
  Accessor, Outcome, pass, fail, AuthenticationRequest, pass_stripped, authenticate,
}
use drogue_cloud.Authentication.Access.{authenticate-IsAdmitted}

module _ {Error Json Validity : Type 0} (crates : Crates Json Validity)
    (accessor : Accessor Error Json) where
  -- A device without the two sections that hold credentials.
  abbrev pub HasNoSecrets : Device Json → Type 0
  HasNoSecrets device =
      (get crates.authentication_key device.spec ≡ none)
      × (get crates.credentials_key device.spec ≡ none)

  abbrev NoSecretsIn : Option (Device Json) → Type 0
  NoSecretsIn none = Unit
  NoSecretsIn (some device) = HasNoSecrets device

  -- Nothing that an outcome shows of a device is a secret.
  abbrev pub IsClean : Outcome Json → Type 0
  IsClean fail = Unit
  IsClean (pass app device other) = HasNoSecrets device × NoSecretsIn other

  strip_credentials-HasNoSecrets :
      (device : Device Json) → HasNoSecrets (strip_credentials crates device)
  unfolding strip_credentials
  strip_credentials-HasNoSecrets device =
      let a = crates.authentication_key in
      let c = crates.credentials_key in
      (
        ground
            (arith, get-remove c a (remove a device.spec), get-remove a a device.spec, beq_refl a),
        ground (arith, get-remove c c (remove a device.spec), beq_refl c),
      )

  pass_stripped-IsClean :
      (app : Application Json) (device : Device Json) (other : Option (Device Json))
      → IsClean (pass_stripped crates accessor app device other)
  unfolding pass_stripped
  pass_stripped-IsClean app device none = (strip_credentials-HasNoSecrets device, tt)
  pass_stripped-IsClean app device (some other) =
      (strip_credentials-HasNoSecrets device, strip_credentials-HasNoSecrets other)

  -- The outcome of an authentication shows no credentials, of the device and of the one it acts for.
  pub authenticate-IsClean :
      (request : AuthenticationRequest) (now : ℕ) (outcome : Outcome Json)
      → authenticate crates accessor request now ≡ ok outcome
      → IsClean outcome
  authenticate-IsClean request now outcome h =
      elim (authenticate-IsAdmitted crates accessor request now outcome h) [
        | inl failed ↦ rw failed tt
        | inr admitted ↦ elim admitted.acts [
          | inl (e, itself) ↦ rw e (pass_stripped-IsClean admitted.app admitted.device none)
          | inr (as_id, named, differs, (other, served, e)) ↦
              rw e (pass_stripped-IsClean admitted.app admitted.device (some other))
        ]
      ]
