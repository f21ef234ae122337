-- ===== src/Mqtt/App/Connecting.antt =====
-- mqtt-endpoint/src/service/app.rs: which clients get a session.
use drogue_cloud.Base.{
  ◌≡◌, refl, inl, inr, ◌↔◌, ◌⊎◌, Bool, true, false, Option, none, some, ok, arith, ℕ, String, List,
  Bool-cases, Option-cases, Result-cases,
}
use drogue_cloud.Mqtt.App.{
  Packet, Version, psk_found, lookup_identity, make_lwt, LastWillTestament, StateOutcome,
  state_created, state_occupied, state_failed, Services, Created, verified_identity, authenticate,
  dialect_of, create_session, connect,
}
use drogue_cloud.Mqtt.Authenticator.{VerifiedIdentity, auth_pass, auth_fail, authenticate_mqtt}

StateOutcome-cases :
    (o : StateOutcome) → (o ≡ state_created) ⊎ (o ≡ state_occupied) ⊎ (o ≡ state_failed)
StateOutcome-cases state_created = inl refl
StateOutcome-cases state_occupied = inr (inl refl)
StateOutcome-cases state_failed = inr (inr refl)

module _ {World A T Certs : Type 0} (services : Services World A T Certs) where
  -- What a session needs, once the client is known.
  abbrev IsCreated : A → T → Option LastWillTestament → World → Created A T → World → Type 0
  IsCreated application device lwt w created w' =
      (application ≡ created.application)
      × (device ≡ created.device)
      × (dialect_of services application device ≡ ok created.dialect)
      × (services.create_state application device lwt w ≡ (state_created, w'))

  create_session_iff :
      (application : A) (device : T) (lwt : Option LastWillTestament) (w w' : World)
      (created : Created A T)
      → (create_session services application device lwt w ≡ (ok created, w'))
        ↔ IsCreated application device lwt w created w'
  unfolding create_session
  create_session_iff application device lwt w w' created =
      elim (Result-cases (dialect_of services application device)) [
        | inr (_, e) ↦
            (λ h. absurd (ground (arith, e, h)), λ (_, _, d, _). absurd (ground (arith, e, d)))
        | inl (dialect, e) ↦
            elim (StateOutcome-cases (services.create_state application device lwt w).0) [
              | inl f ↦ (
                λ h. ground (arith, e, f, rw (create_session, e, f) at h),
                λ (a, d, is, made). ground (arith, a, d, is, made, e, f),
              )
              | inr (inl f) ↦ (
                λ h. absurd (ground (arith, e, f, h)),
                λ (_, _, _, made). absurd (ground (arith, f, made)),
              )
              | inr (inr f) ↦ (
                λ h. absurd (ground (arith, e, f, h)),
                λ (_, _, _, made). absurd (ground (arith, f, made)),
              )
            ]
      ]

  -- The calls of a connection that gets a session, in a row.
  connect_iff :
      (disable_psk : Bool) (version : Version) (packet : Packet Certs) (w w' : World)
      (created : Created A T)
      → (connect services disable_psk version packet w ≡ (ok created, w')) ↔ (
          let identity = verified_identity services disable_psk packet w in
          let r = authenticate services packet identity.0 identity.1 in
          (packet.clean ≡ true)
          × (r.0 ≡ ok (auth_pass created.application created.device))
          × (dialect_of services created.application created.device ≡ ok created.dialect)
          × (services.create_state created.application created.device (make_lwt version packet) r.1
              ≡ (state_created, w')))
  unfolding connect
  connect_iff disable_psk version packet w w' created =
      let identity = verified_identity services disable_psk packet w in
      let r = authenticate services packet identity.0 identity.1 in
      elim (Bool-cases packet.clean) [
        | inr p ↦ (
          λ h. absurd (ground (arith, p, h)),
          λ (clean, _, _, _). absurd (ground (arith, p, clean)),
        )
        | inl p ↦ elim (Result-cases r.0) [
          | inr (_, e) ↦ (
            λ h. absurd (ground (arith, p, e, h)),
            λ (_, passed, _, _). absurd (ground (arith, e, passed)),
          )
          | inl (auth_fail, e) ↦ (
            λ h. absurd (ground (arith, p, e, h)),
            λ (_, passed, _, _). absurd (ground (arith, e, passed)),
          )
          | inl (auth_pass application device, e) ↦ (
            λ h.
                let (a, d, is, made) =
                  (create_session_iff application device (make_lwt version packet) r.1 w' created).0
                    (rw (connect, p, e) at h) in
                (p, rw (← a, ← d) e, rw (← a, ← d) is, rw (← a, ← d) made),
            λ (clean, passed, is, made).
                let same : auth_pass application device
                    ≡ auth_pass created.application created.device =
                  ground (arith, e, passed) in
                let a : application ≡ created.application = ground (arith, same) in
                let d : device ≡ created.device = ground (arith, same) in
                rw (connect, p, e)
                  ((create_session_iff application device (make_lwt version packet) r.1 w'
                      created).1
                    (a, d, rw (a, d) is, rw (a, d) made)),
          )
        ]
      ]

  -- An identity of a pre-shared key is passed only if it is all that the client has.
  authenticate-identity :
      (packet : Packet Certs) (identity : VerifiedIdentity A T) (application : A) (device : T)
      (w : World)
      → ((authenticate services packet (some identity) w).0 ≡ ok (auth_pass application device)) ↔ (
          (packet.username ≡ none)
          × (packet.password ≡ none)
          × (packet.certs ≡ none)
          × (application ≡ identity.application)
          × (device ≡ identity.device))
  unfolding authenticate authenticate_mqtt
  authenticate-identity packet identity application device w = elim (Option-cases packet.password) [
    | inr (bytes, p) ↦ (
      λ h. absurd (elim (Option-cases (services.from_utf8 bytes)) [
        | inl f ↦ ground (arith, p, f, h)
        | inr (text, f) ↦ elim (Option-cases packet.username) [
          | inl u ↦ ground (arith, p, f, u, h)
          | inr (name, u) ↦ ground (arith, p, f, u, h)
        ]
      ]),
      λ (_, bare, _, _, _). absurd (ground (arith, p, bare)),
    )
    | inl p ↦ elim (Option-cases packet.username) [
      | inr (name, u) ↦ (
        λ h. absurd (ground (arith, p, u, h)),
        λ (bare, _, _, _, _). absurd (ground (arith, u, bare)),
      )
      | inl u ↦ elim (Option-cases packet.certs) [
        | inr (certs, c) ↦ (
          λ h. absurd (ground (arith, p, u, c, h)),
          λ (_, _, bare, _, _). absurd (ground (arith, c, bare)),
        )
        | inl c ↦ (
          λ h. (u, p, c, ground (arith, p, u, c, h), ground (arith, p, u, c, h)),
          λ (_, _, _, a, d). rw (authenticate, p, u, c, a, d) refl,
        )
      ]
    ]
  ]

  -- It needs no call.
  authenticate_world :
      (packet : Packet Certs) (identity : VerifiedIdentity A T) (w : World)
      → (packet.username ≡ none) × (packet.password ≡ none) × (packet.certs ≡ none)
      → (authenticate services packet (some identity) w).1 ≡ w
  unfolding authenticate authenticate_mqtt
  authenticate_world packet identity w (u, p, c) = rw (authenticate, p, u, c) refl

  -- A client with a pre-shared key, whose identity the authentication service knows, gets a session
  -- exactly if it asks for a clean one, has no user name, password and certificate as well, the
  -- dialect can be read, and the state of the device is created. The session is for the application
  -- and the device of the key.
  pub connect_psk :
      (version : Version) (packet : Packet Certs) (w found w' : World) (bytes : List ℕ)
      (text : String) (identity : String × String) (application : A) (device : T)
      (created : Created A T)
      → packet.psk_identity ≡ some bytes
      → services.from_utf8 bytes ≡ some text
      → services.parse_identity text ≡ some identity
      → services.request_psk identity.0 identity.1 w ≡ (ok (psk_found application device), found)
      → (connect services false version packet w ≡ (ok created, w')) ↔ (
          (packet.clean ≡ true)
          × (packet.username ≡ none)
          × (packet.password ≡ none)
          × (packet.certs ≡ none)
          × (created.application ≡ application)
          × (created.device ≡ device)
          × (dialect_of services application device ≡ ok created.dialect)
          × (services.create_state application device (make_lwt version packet) found
              ≡ (state_created, w')))
  unfolding verified_identity lookup_identity
  connect_psk version packet w found w' bytes text identity application device created psk utf8
        parsed known =
      let key : VerifiedIdentity A T = record { application = application; device = device } in
      let is : verified_identity services false packet w ≡ (some key, found) =
        ground (arith, psk, utf8, parsed, known) in
      let all = rw is at (connect_iff false version packet w w' created) in
      let passes = authenticate-identity packet key created.application created.device found in
      (
        λ h.
            let (clean, passed, dialect, made) = all.0 h in
            let (u, p, c, a, d) = passes.0 passed in
            (
              clean,
              u,
              p,
              c,
              a,
              d,
              rw (← a, ← d) dialect,
              rw (← a, ← d, ← authenticate_world packet key found (u, p, c)) made,
            ),
        λ (clean, u, p, c, a, d, dialect, made). all.1 (
          clean,
          passes.1 (u, p, c, a, d),
          rw (a, d) dialect,
          rw (a, d, authenticate_world packet key found (u, p, c)) made,
        ),
      )
