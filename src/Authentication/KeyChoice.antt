-- ===== src/Authentication/KeyChoice.antt =====
-- authentication-service/src/service.rs: the pre-shared key that `locate_psk` chooses.
use mathlib.Core.List.{Memᴰ}
use mathlib.Core.List.Memᴰ
use drogue_cloud.Base.{
  ℕ, ◌≡◌, refl, sym, ap, ◌∙◌, ◌⊎◌, true, false, List, [], ◌∷◌, none, some, ok, arith, Bool-cases,
  inl, inr,
}
use drogue_cloud.Authentication.{
  PreSharedKey, Credential, Device, Crates, password, username_password, pre_shared_key,
}
use drogue_cloud.Authentication.Keys.{is_valid_key, candidates, insert_key, sort, first, locate_psk}

module _ {Json Validity : Type 0} (crates : Crates Json Validity) where
  -- The order of keys is a total preorder.
  pub record IsOrder : Type 0 where
    pub total :
        (a b : PreSharedKey Validity) → crates.key_leb a b ≡ false → crates.key_leb b a ≡ true
    pub trans :
        (a b c : PreSharedKey Validity)
        → crates.key_leb a b ≡ true
        → crates.key_leb b c ≡ true
        → crates.key_leb a c ≡ true

  abbrev LowerBound : PreSharedKey Validity → List (PreSharedKey Validity) → Type 0
  LowerBound key keys =
      (other : PreSharedKey Validity) → Memᴰ other keys → crates.key_leb key other ≡ true

  -- The first element is a least one.
  abbrev Leads : List (PreSharedKey Validity) → List (PreSharedKey Validity) → Type 0
  Leads [] keys = (other : PreSharedKey Validity) → Memᴰ other keys → ⊥
  Leads (key ∷ rest) keys = Memᴰ key keys × LowerBound key keys

  key_leb_refl : IsOrder → (key : PreSharedKey Validity) → crates.key_leb key key ≡ true
  key_leb_refl order key = elim (Bool-cases (crates.key_leb key key)) [
    | inl le ↦ le
    | inr gt ↦ order.total key key gt
  ]

  bound_cons :
      (key other : PreSharedKey Validity) (keys : List (PreSharedKey Validity))
      → crates.key_leb key other ≡ true
      → LowerBound key keys
      → LowerBound key (other ∷ keys)
  bound_cons key other keys le bound third there = elim (Memᴰ.cases_cons there) [
    | inl e ↦ rw e le
    | inr behind ↦ bound third behind
  ]

  insert_key-Leads :
      IsOrder
      → (key : PreSharedKey Validity) (sorted keys : List (PreSharedKey Validity))
      → Leads sorted keys
      → Leads (insert_key crates key sorted) (key ∷ keys)
  unfolding insert_key
  insert_key-Leads order key [] keys leads = (
    Memᴰ.head refl,
    bound_cons key key keys (key_leb_refl order key) (λ other there. absurd (leads other there)),
  )
  insert_key-Leads order key (least ∷ rest) keys leads =
      elim (Bool-cases (crates.key_leb key least)) [
        | inl le ↦ rw le (
          Memᴰ.head refl,
          bound_cons key key keys (key_leb_refl order key)
              (λ other there. order.trans key least other le (leads.1 other there)),
        )
        | inr gt ↦
            rw gt (Memᴰ.tail leads.0, bound_cons least key keys (order.total key least gt) leads.1)
      ]

  sort-Leads : IsOrder → (keys : List (PreSharedKey Validity)) → Leads (sort crates keys) keys
  unfolding sort
  sort-Leads order [] = λ other there. Memᴰ.not-nil there
  sort-Leads order (key ∷ keys) =
      insert_key-Leads order key (sort crates keys) keys (sort-Leads order keys)

  mem-candidates :
      (now : ℕ) (cs : List (Credential Validity)) (key : PreSharedKey Validity)
      → Memᴰ key (candidates crates now cs)
      → Memᴰ (pre_shared_key key) cs × (is_valid_key crates now key ≡ true)
  unfolding candidates
  mem-candidates now [] key there = absurd (Memᴰ.not-nil there)
  mem-candidates now (password p ∷ cs) key there =
      let r = mem-candidates now cs key there in (Memᴰ.tail r.0, r.1)
  mem-candidates now (username_password u p q ∷ cs) key there =
      let r = mem-candidates now cs key there in (Memᴰ.tail r.0, r.1)
  mem-candidates now (pre_shared_key k ∷ cs) key there =
      elim (Bool-cases (is_valid_key crates now k)) [
        | inr invalid ↦
            let r = mem-candidates now cs key (rw invalid at there) in (Memᴰ.tail r.0, r.1)
        | inl valid ↦ elim (Memᴰ.cases_cons (rw valid at there)) [
          | inl e ↦ (Memᴰ.head (ap pre_shared_key e), rw e valid)
          | inr behind ↦ let r = mem-candidates now cs key behind in (Memᴰ.tail r.0, r.1)
        ]
      ]

  candidates-mem :
      (now : ℕ) (cs : List (Credential Validity)) (key : PreSharedKey Validity)
      → Memᴰ (pre_shared_key key) cs
      → is_valid_key crates now key ≡ true
      → Memᴰ key (candidates crates now cs)
  unfolding candidates
  candidates-mem now [] key there valid = absurd (Memᴰ.not-nil there)
  candidates-mem now (password p ∷ cs) key there valid = elim (Memᴰ.cases_cons there) [
    | inl e ↦ cc
    | inr behind ↦ candidates-mem now cs key behind valid
  ]
  candidates-mem now (username_password u p q ∷ cs) key there valid = elim (Memᴰ.cases_cons there) [
    | inl e ↦ cc
    | inr behind ↦ candidates-mem now cs key behind valid
  ]
  candidates-mem now (pre_shared_key k ∷ cs) key there valid = elim (Memᴰ.cases_cons there) [
    | inl e ↦
        let same : key ≡ k = cc in
        rw (ap (is_valid_key crates now) (sym same) ∙ valid) (Memᴰ.head same)
    | inr behind ↦
        let r = candidates-mem now cs key behind valid in
        elim (Bool-cases (is_valid_key crates now k)) [
          | inl fits ↦ rw fits (Memᴰ.tail r)
          | inr unfit ↦ rw unfit r
        ]
  ]

  -- For a device that is not being deleted, with its credentials decoded: the key that is located
  -- is a stored key, valid now, and no other such key comes before it. None is located only if
  -- there is none.
  locate_psk-first :
      IsOrder
      → (device : Device Json) (now : ℕ) (cs : List (Credential Validity))
      → device.deletion_timestamp ≡ none
      → crates.authentication device ≡ some (ok cs)
      → ((key : PreSharedKey Validity) × (locate_psk crates device now ≡ some key)
          × Memᴰ (pre_shared_key key) cs
          × (is_valid_key crates now key ≡ true)
          × ((other : PreSharedKey Validity)
              → Memᴰ (pre_shared_key other) cs
              → is_valid_key crates now other ≡ true
              → crates.key_leb key other ≡ true))
        ⊎ ((locate_psk crates device now ≡ none)
            × ((other : PreSharedKey Validity)
                → Memᴰ (pre_shared_key other) cs
                → is_valid_key crates now other ≡ false))
  unfolding locate_psk
  locate_psk-first order device now cs alive is =
      let keys = candidates crates now cs in
      let computed : locate_psk crates device now ≡ first crates (sort crates keys) =
        ground (arith, alive, is) in
      rw computed (
        chosen (sort crates (candidates crates now cs))
          (sort-Leads order (candidates crates now cs)))
    where
      chosen :
          (sorted : List (PreSharedKey Validity))
          → Leads sorted (candidates crates now cs)
          → ((key : PreSharedKey Validity) × (first crates sorted ≡ some key)
              × Memᴰ (pre_shared_key key) cs
              × (is_valid_key crates now key ≡ true)
              × ((other : PreSharedKey Validity)
                  → Memᴰ (pre_shared_key other) cs
                  → is_valid_key crates now other ≡ true
                  → crates.key_leb key other ≡ true))
            ⊎ ((first crates sorted ≡ none)
                × ((other : PreSharedKey Validity)
                    → Memᴰ (pre_shared_key other) cs
                    → is_valid_key crates now other ≡ false))
      chosen [] leads = inr (
        refl,
        λ other there. elim (Bool-cases (is_valid_key crates now other)) [
          | inl valid ↦ absurd (leads other (candidates-mem now cs other there valid))
          | inr invalid ↦ invalid
        ],
      )
      chosen (key ∷ rest) leads =
          let r = mem-candidates now cs key leads.0 in
          inl (
            key,
            refl,
            r.0,
            r.1,
            λ other there valid. leads.1 other (candidates-mem now cs other there valid),
          )
