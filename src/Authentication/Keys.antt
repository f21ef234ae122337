-- ===== src/Authentication/Keys.antt =====
-- authentication-service/src/service.rs, `locate_psk`: which pre-shared key of a device is used.
use drogue_cloud.Base.{
  ℕ, Bool, true, List, [], ◌∷◌, Option, none, some, ok, err, is_some, if◌then◌else◌,
}
use drogue_cloud.Authentication.{PreSharedKey, Credential, Device, Crates, pre_shared_key}

module _ {Json Validity : Type 0} (crates : Crates Json Validity) where
  abbrev pub is_valid_key : ℕ → PreSharedKey Validity → Bool
  is_valid_key now key = elim key.validity [ none ↦ true | some v ↦ crates.is_valid v now ]

  -- The keys among the credentials that are valid now.
  unfoldable pub candidates : ℕ → List (Credential Validity) → List (PreSharedKey Validity)
  candidates now [] = []
  candidates now (pre_shared_key key ∷ cs) =
      let rest = candidates now cs in if is_valid_key now key then key ∷ rest else rest
  candidates now (_ ∷ cs) = candidates now cs

  -- `sort`, which is stable.
  unfoldable pub insert_key :
      PreSharedKey Validity → List (PreSharedKey Validity) → List (PreSharedKey Validity)
  insert_key key [] = key ∷ []
  insert_key key (other ∷ keys) =
      let rest = insert_key key keys in
      if crates.key_leb key other then key ∷ other ∷ keys else other ∷ rest

  unfoldable pub sort : List (PreSharedKey Validity) → List (PreSharedKey Validity)
  sort [] = []
  sort (key ∷ keys) = insert_key key (sort keys)

  abbrev pub first : List (PreSharedKey Validity) → Option (PreSharedKey Validity)
  first [] = none
  first (key ∷ keys) = some key

  unfoldable pub locate_psk : Device Json → ℕ → Option (PreSharedKey Validity)
  locate_psk device now =
      if is_some device.deletion_timestamp then none else elim (crates.authentication device) [
        | none ↦ none
        | some (err _) ↦ none
        | some (ok credentials) ↦ first (sort (candidates now credentials))
      ]
