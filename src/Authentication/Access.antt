-- ===== src/Authentication/Access.antt =====
-- authentication-service/src/service.rs: whom the operations let in, and what they hand out.
use mathlib.Core.List.{Memᴰ}
use mathlib.Core.List.Memᴰ
use drogue_cloud.Base.{
  ℕ, String, ◌≡◌, ◌≢◌, ◌⊎◌, sym, ap, ◌∙◌, true, false≢true, List, none, some, Result, ok, err,
  arith, inl, inr, any, any-mem, Option-cases, Result-cases, Bool-cases, string_eq, ◌==◌,
  string_beq_iff,
}
use drogue_cloud.Authentication.{Application, Device, Crates, validate_app, validate_credential}
use drogue_cloud.Authentication.Service.{
  Accessor, Outcome, fail, AuthenticationRequest, pass_stripped, validate_gateway,
  authenticate_device, authenticate,
}

module _ {Error Json Validity : Type 0} (crates : Crates Json Validity)
    (accessor : Accessor Error Json) where
  -- The device to act as: it exists, is not being deleted, and lists the gateway.
  pub record IsServedBy (app gateway : String) (as_id : String) (other : Device Json) : Type 0 where
    pub stored : accessor.lookup_device app as_id ≡ ok (some other)
    pub alive : other.deletion_timestamp ≡ none
    pub names : List String
    pub selector : crates.gateway_selector other ≡ some (ok names)
    pub listed : Memᴰ gateway names

  abbrev Served : Application Json → Device Json → String → Outcome Json → Type 0
  Served app device as_id outcome =
      (outcome ≡ fail)
      ⊎ ((other : Device Json) × IsServedBy app.name device.name as_id other
          × (outcome ≡ pass_stripped crates accessor app device (some other)))

  pub validate_gateway-Served :
      (as_id : String) (app : Application Json) (device : Device Json) (outcome : Outcome Json)
      → validate_gateway crates accessor as_id app device ≡ ok outcome
      → Served app device as_id outcome
  unfolding validate_gateway
  validate_gateway-Served as_id app device outcome h =
      elim (Result-cases (accessor.lookup_device app.name as_id)) [
        | inr (failure, e) ↦ cc (rw e at h)
        | inl (found, e) ↦ elim (Option-cases found) [
          | inl f ↦ inl (ground (arith, h, e, f))
          | inr (other, f) ↦ elim (Option-cases other.deletion_timestamp) [
            | inr (time, t) ↦ inl (ground (arith, h, e, f, t))
            | inl alive ↦ elim (Option-cases (crates.gateway_selector other)) [
              | inl g ↦ inl (ground (arith, h, e, f, alive, g))
              | inr (decoded, g) ↦ elim (Result-cases decoded) [
                | inr (failure, d) ↦ inl (ground (arith, h, e, f, alive, g, d))
                | inl (names, d) ↦ elim (Bool-cases (any (λ name. name == device.name) names)) [
                  | inr miss ↦ inl (ground (arith, h, e, f, alive, g, d, miss))
                  | inl hit ↦
                      let (name, there, same) = any-mem (λ n. n == device.name) names hit in
                      inr (
                        other,
                        record {
                          stored = e ∙ ap ok f;
                          alive = alive;
                          names = names;
                          selector = g ∙ ap some d;
                          listed = Memᴰ.cast (sym ((string_beq_iff name device.name).0 same)) there;
                        },
                        ground (arith, h, e, f, alive, g, d, hit),
                      )
                ]
              ]
            ]
          ]
        ]
      ]

  -- As which device: as itself, or as another that lists it.
  abbrev pub Acts : AuthenticationRequest → Application Json → Device Json → Outcome Json → Type 0
  Acts request app device outcome =
      ((outcome ≡ pass_stripped crates accessor app device none)
        × ((as_id : String) → request.as_id ≡ some as_id → as_id ≡ request.device))
      ⊎ ((as_id : String) × (request.as_id ≡ some as_id)
          × (as_id ≢ request.device)
          × ((other : Device Json) × IsServedBy app.name device.name as_id other
              × (outcome ≡ pass_stripped crates accessor app device (some other))))

  -- What it takes to be let in: the application and the device exist and are in use, the credential
  -- is one of the device, and another device is acted for only by a gateway that it lists. What is
  -- handed out are the stored devices, without their credentials.
  pub record IsAdmitted (request : AuthenticationRequest) (now : ℕ) (outcome : Outcome Json)
      : Type 0 where
    pub app : Application Json
    pub device : Device Json
    pub app_stored : accessor.lookup_app request.application ≡ ok (some app)
    pub app_valid : validate_app crates app ≡ true
    pub device_stored : accessor.lookup_device app.name request.device ≡ ok (some device)
    pub credential_valid :
        validate_credential crates app device request.device request.credential now ≡ true
    pub acts : Acts request app device outcome

  authenticate_device-Admitted :
      (request : AuthenticationRequest) (app : Application Json) (device : Device Json) (now : ℕ)
      (outcome : Outcome Json)
      → authenticate_device crates accessor request app device now ≡ ok outcome
      → (outcome ≡ fail)
        ⊎ ((validate_credential crates app device request.device request.credential now ≡ true)
            × Acts request app device outcome)
  unfolding authenticate_device
  authenticate_device-Admitted request app device now outcome h =
      elim (Bool-cases
        (validate_credential crates app device request.device request.credential now)) [
          | inr refused ↦ inl (ground (arith, h, refused))
          | inl valid ↦ elim (Option-cases request.as_id) [
            | inl e ↦ inr (valid, inl (ground (arith, h, valid, e), λ as_id named. cc))
            | inr (as_id, e) ↦ elim (Bool-cases (as_id == request.device)) [
              | inl same ↦
                  let equal : as_id ≡ request.device =
                    (string_beq_iff as_id request.device).0 same in
                  inr (valid, inl (ground (arith, h, valid, e, same), λ id named. cc))
              | inr differs ↦
                  elim (validate_gateway-Served as_id app device outcome
                    (ground (arith, h, valid, e, differs))) [
                      | inl failed ↦ inl failed
                      | inr served ↦ inr (
                        valid,
                        inr (
                          as_id,
                          e,
                          (λ p.
                              false≢true (sym differs ∙ (string_beq_iff as_id request.device).1 p)),
                          served,
                        ),
                      )
                    ]
            ]
          ]
        ]

  -- An outcome of `authenticate` is a failure, or all this holds of the request: application and
  -- device are stored and in use, the credential is valid, and a device other than the
  -- authenticated one is acted for only if it exists, is not being deleted and lists the gateway.
  pub authenticate-IsAdmitted :
      (request : AuthenticationRequest) (now : ℕ) (outcome : Outcome Json)
      → authenticate crates accessor request now ≡ ok outcome
      → (outcome ≡ fail) ⊎ IsAdmitted request now outcome
  unfolding authenticate
  authenticate-IsAdmitted request now outcome h =
      elim (Result-cases (accessor.lookup_app request.application)) [
        | inr (failure, e) ↦ cc (rw e at h)
        | inl (found_app, e) ↦ elim (Option-cases found_app) [
          | inl f ↦ inl (ground (arith, h, e, f))
          | inr (app, f) ↦ elim (Bool-cases (validate_app crates app)) [
            | inr unused ↦ inl (ground (arith, h, e, f, unused))
            | inl used ↦ elim (Result-cases (accessor.lookup_device app.name request.device)) [
              | inr (failure, g) ↦
                  let refused : ◌≡◌ {A = Result Error (Outcome Json)} (err failure) (ok outcome) =
                    ground (arith, h, e, f, used, g) in
                  cc
              | inl (found, g) ↦ elim (Option-cases found) [
                | inl d ↦ inl (ground (arith, h, e, f, used, g, d))
                | inr (device, d) ↦
                    elim (authenticate_device-Admitted request app device now outcome
                      (ground (arith, h, e, f, used, g, d))) [
                        | inl failed ↦ inl failed
                        | inr (valid, acting) ↦ inr (record {
                          app = app;
                          device = device;
                          app_stored = e ∙ ap ok f;
                          app_valid = used;
                          device_stored = g ∙ ap ok d;
                          credential_valid = valid;
                          acts = acting;
                        })
                      ]
              ]
            ]
          ]
        ]
      ]
