-- ===== src/HashMap/Size.antt =====
-- The number of entries of a map after a removal.
use drogue_cloud.Base.{◌≡◌, ◌≤◌, ◌<◌, [], ◌∷◌, some, arith, length, PartialEq}
use drogue_cloud.HashMap.{HashMap, get, remove}

module _ {ℓ κ} {K : Type ℓ} {V : Type κ} ⦃e : PartialEq K⦄ where
  pub length-remove-le : (k : K) (m : HashMap K V) → length (remove k m) ≤ length m
  unfolding remove
  length-remove-le k [] = omega arith
  length-remove-le k ((j, v) ∷ m) = ground (arith, length-remove-le k m)

  pub length-remove-lt :
      (k : K) (m : HashMap K V) (v : V) → get k m ≡ some v → length (remove k m) < length m
  unfolding get remove
  length-remove-lt k [] v h = cc
  length-remove-lt k ((j, w) ∷ m) v h = ground (arith, length-remove-lt k m v, length-remove-le k m)
