-- ===== src/HashMap/Unique.antt =====
-- Maps that hold each key once, as hash maps do. A map is then, up to order, a bound entry and
-- the rest.
use mathlib.Core.List.{Perm}
use mathlib.Core.List.Perm
use drogue_cloud.Base.{
  ◌≡◌, [], ◌∷◌, none, some, arith, inl, inr, Bool-cases, PartialEq, ◌==◌, beq_refl,
}
use drogue_cloud.HashMap.{HashMap, get, insert, remove, get-remove, remove_absent}

module _ {ℓ κ} {K : Type ℓ} {V : Type κ} ⦃e : PartialEq K⦄ where
  abbrev pub IsUnique : HashMap K V → Type κ
  IsUnique [] = Unit
  IsUnique ((k, v) ∷ m) = (get k m ≡ none) × IsUnique m

  pub remove-IsUnique : (k : K) (m : HashMap K V) → IsUnique m → IsUnique (remove k m)
  unfolding remove
  remove-IsUnique k [] u = tt
  remove-IsUnique k ((j, v) ∷ m) u = ground (arith, remove-IsUnique k m u.1, get-remove k j m)

  pub insert-IsUnique : (k : K) (v : V) (m : HashMap K V) → IsUnique m → IsUnique (insert k v m)
  unfolding insert
  insert-IsUnique k v m u = (rw (get-remove k k m, beq_refl k), remove-IsUnique k m u)

  pub remove-perm :
      (k : K) (m : HashMap K V) (v : V)
      → IsUnique m
      → get k m ≡ some v
      → Perm m ((k, v) ∷ remove k m)
  unfolding get remove
  remove-perm k [] v u h = cc
  remove-perm k ((j, w) ∷ m) v u h = elim (Bool-cases (j == k)) [
    | inl hit ↦
        let same : j ≡ k = (e.equals_iff j k).0 hit in
        rw hit (
          rw (remove_absent k m (ground (arith, same)))
            (Perm.cons' (ground (arith, hit, same)) Perm.rfl))
    | inr miss ↦ rw miss (
        Perm.trans (Perm.cons (j, w) (remove-perm k m v u.1 (ground (arith, miss))))
          (Perm.swap (k, v) (j, w) (remove k m)))
  ]
