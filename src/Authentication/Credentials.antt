-- ===== src/Authentication/Credentials.antt =====
-- authentication-service/src/service.rs: what the checks of passwords and certificates accept.
use mathlib.Core.List.{Memᴰ}
use drogue_cloud.Base.{
  ℕ, ◌≤◌, String, ◌≡◌, refl, Bool, true, false, List, [], ◌∷◌, some, ok, arith, any-mem,
  Result-cases, ◌⊎◌, false≢true, Option-cases, inl, inr, string_eq, string_beq_iff,
}
use drogue_cloud.Authentication.{
  Credential, password, username_password, pre_shared_key, Certificate, TrustAnchor, valid_anchor,
  invalid_anchor, x509, PemItem, other_item, no_item, bad_item, Application, Device, Crates,
  password_credential, username_credential, validate_password, validate_username_password,
  end_of_chain, validate_trust_anchor, validate_certificate,
}

module _ {Json Validity : Type 0} (crates : Crates Json Validity) where
  credential_by_name :
      (device : Device Json) (provided : String) (c : Credential Validity)
      → password_credential crates device device.name provided c
        ≡ username_credential crates device device.name provided c
  unfolding password_credential username_credential
  credential_by_name device provided (password stored) =
      ground (arith, string_beq_iff device.name device.name)
  credential_by_name device provided (username_password user stored true) = refl
  credential_by_name device provided (username_password user stored false) = refl
  credential_by_name device provided (pre_shared_key key) = refl

  -- A device that presents its name as the user name, and the same password, is accepted exactly
  -- if it is accepted with the password alone under that name.
  validate_password-validate_username_password :
      (device : Device Json) (credentials : List (Credential Validity)) (provided : String)
      → validate_password crates device credentials device.name provided
        ≡ validate_username_password crates device credentials device.name provided
  unfolding validate_password validate_username_password
  validate_password-validate_username_password device [] provided = refl
  validate_password-validate_username_password device (c ∷ cs) provided = rw (
    credential_by_name device provided c,
    validate_password-validate_username_password device cs provided,
  )

  abbrev by_root : (Certificate → Bool) → PemItem → Bool
  by_root f (x509 root) = f root
  by_root f _ = false

  -- The certificate chain that an anchor accepts, and the time.
  abbrev pub Accepts : List Certificate → ℕ → TrustAnchor → Type 0
  Accepts chain now invalid_anchor = ⊥
  Accepts chain now (valid_anchor text not_before not_after) =
      (not_before ≤ now)
      × (now ≤ not_after)
      × ((root : Certificate) × (crates.read_one text ≡ x509 root)
          × (crates.add_root root ≡ true)
          × ((intermediates : List Certificate) × (end : Certificate) × (end_of_chain crates chain
                ≡ some (intermediates, end))
              × (crates.verify_client_cert root end intermediates now ≡ true)))

  pem_cases :
      (item : PemItem)
      → ((root : Certificate) × (item ≡ x509 root))
        ⊎ ((f : Certificate → Bool) → by_root f item ≡ false)
  pem_cases (x509 root) = inl (root, refl)
  pem_cases other_item = inr (λ f. refl)
  pem_cases no_item = inr (λ f. refl)
  pem_cases bad_item = inr (λ f. refl)

  validate_trust_anchor-Accepts :
      (anchor : TrustAnchor) (chain : List Certificate) (now : ℕ)
      → validate_trust_anchor crates anchor now chain ≡ true
      → Accepts chain now anchor
  unfolding validate_trust_anchor
  validate_trust_anchor-Accepts invalid_anchor chain now h = cc
  validate_trust_anchor-Accepts (valid_anchor text not_before not_after) chain now h =
      elim (Option-cases (end_of_chain crates chain)) [
        | inl e ↦ absurd (false≢true (ground (arith, h, e)))
        | inr (parts, e) ↦ elim (pem_cases (crates.read_one text)) [
          | inl (root, r) ↦ (
            ground (arith, h, e),
            ground (arith, h, e),
            (root, r, ground (arith, h, e, r), (parts.0, parts.1, e, ground (arith, h, e, r))),
          )
          | inr bad ↦ absurd (false≢true (ground (arith, h, e, bad (λ root. true))))
        ]
      ]

  -- A chain that is accepted for a device is verified against the root certificate of a trust
  -- anchor of its application, at a time in the anchor's validity period.
  validate_certificate-Accepts :
      (app : Application Json) (chain : List Certificate) (now : ℕ)
      → validate_certificate crates app chain now ≡ true
      → (anchors : List TrustAnchor) × (crates.trust_anchors app ≡ some (ok anchors))
        × ((anchor : TrustAnchor) × Memᴰ anchor anchors × Accepts chain now anchor)
  unfolding validate_certificate
  validate_certificate-Accepts app chain now h = elim (Option-cases (crates.trust_anchors app)) [
    | inl e ↦ absurd (false≢true (ground (arith, h, e)))
    | inr (decoded, e) ↦ elim (Result-cases decoded) [
      | inr (failure, f) ↦ absurd (false≢true (ground (arith, h, e, f)))
      | inl (anchors, f) ↦
          let (anchor, member, holds) =
            any-mem (λ a. validate_trust_anchor crates a now chain) anchors
              (ground (arith, h, e, f)) in
          (
            anchors,
            ground (arith, e, f),
            (anchor, member, validate_trust_anchor-Accepts anchor chain now holds),
          )
    ]
  ]
