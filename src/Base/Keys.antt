-- ===== src/Base/Keys.antt =====
-- Boolean equality as an interface, as `PartialEq` and `Eq` are for the keys of hash maps.
use Prim.Native.Nat.{ℕ, compare, Ordering}
use Prim.Native.String.{String}
use mathlib.Core.Path.{◌≡◌, refl}
use mathlib.Core.Logic.{◌↔◌, inl, inr}
use mathlib.Core.Bool.{Bool, true, false, ◌&&◌}
use mathlib.Core.List.{List, [], ◌∷◌}
use native.Mathlib.Omega.{arith}
use text.Mathlib.Text.{◌==◌ as str_eq}
use text.Mathlib.TextEquality.{eq_iff}
use drogue_cloud.Base.Tests.{Bool-cases}

-- The test that a key type derives, and that it decides equality.
pub record PartialEq {ℓ} (Key : Type ℓ) : Type ℓ where
  pub equals : Key → Key → Bool
  pub equals_iff : (k j : Key) → (equals k j ≡ true) ↔ (k ≡ j)

pub string_beq_iff : (s t : String) → (str_eq s t ≡ true) ↔ (s ≡ t)
string_beq_iff = eq_iff

instance abbrev pub string_eq : PartialEq String
string_eq = record { equals_iff = string_beq_iff; equals = str_eq }

abbrev pub nat_beq : ℕ → ℕ → Bool
nat_beq m n = elim (compare m n) [ Ordering.eq ↦ true | _ ↦ false ]

pub nat_beq_iff : (m n : ℕ) → (nat_beq m n ≡ true) ↔ (m ≡ n)
nat_beq_iff m n = ground arith

instance abbrev pub nat_eq : PartialEq ℕ
nat_eq = record { equals_iff = nat_beq_iff; equals = nat_beq }

infix 50 ◌==◌
abbrev pub ◌==◌ {ℓ} : {Key : Type ℓ} ⦃keys : PartialEq Key⦄ → Key → Key → Bool
◌==◌ ⦃keys⦄ k j = keys.equals k j

module _ {ℓ} {A : Type ℓ} ⦃e : PartialEq A⦄ where
  pub beq_refl : (a : A) → (a == a) ≡ true
  beq_refl a = (e.equals_iff a a).1 refl

  pub beq_ne : (a b : A) → (a ≡ b → ⊥) → (a == b) ≡ false
  beq_ne a b h = elim (Bool-cases (a == b)) [
    | inl p ↦ absurd (h ((e.equals_iff a b).0 p))
    | inr p ↦ p
  ]

  -- Lists of keys are compared element by element.
  abbrev pub list_beq : List A → List A → Bool
  list_beq [] [] = true
  list_beq [] (y ∷ ys) = false
  list_beq (x ∷ xs) [] = false
  list_beq (x ∷ xs) (y ∷ ys) = x == y && list_beq xs ys

  pub list_beq_iff : (xs ys : List A) → (list_beq xs ys ≡ true) ↔ (xs ≡ ys)
  list_beq_iff [] [] = ground arith
  list_beq_iff [] (y ∷ ys) = ground arith
  list_beq_iff (x ∷ xs) [] = ground arith
  list_beq_iff (x ∷ xs) (y ∷ ys) = ground (arith, e.equals_iff x y, list_beq_iff xs ys)
