-- ===== src/HashMap.antt =====
-- std::collections::HashMap and IndexMap as association lists. The order of iteration of a hash map
-- is not specified, so nothing that is proved of a client may depend on the order of the entries.
pub mod Unique
pub mod Size
pub mod Retain
use drogue_cloud.Base.{
  ◌≡◌, refl, ◌∙◌, Bool, false, ◌||◌, List, [], ◌∷◌, Option, none, some, arith, if◌then◌else◌,
  PartialEq, ◌==◌, beq_refl,
}

abbrev pub HashMap {ℓ κ} : Type ℓ → Type κ → Type (ℓ ⊔ κ)
HashMap K V = List (K × V)

module _ {ℓ κ} {K : Type ℓ} {V : Type κ} ⦃e : PartialEq K⦄ where
  unfoldable pub get : K → HashMap K V → Option V
  get k [] = none
  get k ((j, v) ∷ m) = if j == k then some v else get k m

  unfoldable pub remove : K → HashMap K V → HashMap K V
  remove k [] = []
  remove k ((j, v) ∷ m) = let rest = remove k m in if j == k then rest else (j, v) ∷ rest

  unfoldable pub insert : K → V → HashMap K V → HashMap K V
  insert k v m = (k, v) ∷ remove k m

  pub contains_key : K → HashMap K V → Bool
  contains_key k [] = false
  contains_key k ((j, v) ∷ m) = j == k || contains_key k m

  pub get-remove :
      (k j : K) (m : HashMap K V) → get j (remove k m) ≡ (if k == j then none else get j m)
  unfolding get remove
  get-remove k j [] = ground arith
  get-remove k j ((i, v) ∷ m) =
      ground (arith, get-remove k j m, e.equals_iff i k, e.equals_iff i j, e.equals_iff k j)

  pub get-insert :
      (k j : K) (v : V) (m : HashMap K V)
      → get j (insert k v m) ≡ (if k == j then some v else get j m)
  unfolding get insert
  get-insert k j v m = ground (arith, get-remove k j m)

  -- Removing a key that is not there changes nothing.
  pub remove_absent : (k : K) (m : HashMap K V) → get k m ≡ none → remove k m ≡ m
  unfolding get remove
  remove_absent k [] h = refl
  remove_absent k ((j, v) ∷ m) h = ground (arith, remove_absent k m)

  pub remove_twice : (k : K) (m : HashMap K V) → remove k (remove k m) ≡ remove k m
  unfolding get remove
  remove_twice k m = remove_absent k (remove k m) (get-remove k k m ∙ collapse)
    where
      collapse : (if k == k then none else get k m) ≡ none
      collapse = rw beq_refl

  pub remove-insert : (k : K) (v : V) (m : HashMap K V) → remove k (insert k v m) ≡ remove k m
  unfolding insert remove
  remove-insert k v m = rw beq_refl (remove_twice k m)

pub ruleset map_laws = (get-insert, get-remove)
