-- ===== src/HashMap/Retain.antt =====
-- The entries of a map that a deletion by a condition leaves.
use drogue_cloud.Base.{◌≡◌, refl, Bool, [], ◌∷◌, none, arith, if◌then◌else◌, PartialEq}
use drogue_cloud.HashMap.{HashMap, get, remove}

module _ {ℓ κ} {K : Type ℓ} {V : Type κ} where
  unfoldable pub retain : (K → V → Bool) → HashMap K V → HashMap K V
  retain keeps [] = []
  retain keeps ((k, v) ∷ m) = let rest = retain keeps m in if keeps k v then (k, v) ∷ rest else rest

module _ {ℓ κ} {K : Type ℓ} {V : Type κ} ⦃e : PartialEq K⦄ where
  -- A condition on keys keeps all entries of a key, or none.
  pub get-retain :
      (keeps : K → Bool) (k : K) (m : HashMap K V)
      → get k (retain (λ j v. keeps j) m) ≡ (if keeps k then get k m else none)
  unfolding get retain
  get-retain keeps k [] = ground arith
  get-retain keeps k ((j, v) ∷ m) = ground (arith, get-retain keeps k m, e.equals_iff j k)

  pub retain-remove :
      (keeps : K → V → Bool) (k : K) (m : HashMap K V)
      → retain keeps (remove k m) ≡ remove k (retain keeps m)
  unfolding remove retain
  retain-remove keeps k [] = refl
  retain-remove keeps k ((j, v) ∷ m) = ground (arith, retain-remove keeps k m)
