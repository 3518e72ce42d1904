-- ===== src/Base/Lists.antt =====
-- Lists measured by native numbers, and predicates on lists by recursion.
use Prim.Native.Nat.{ℕ, suc, ◌+◌}
use mathlib.Core.Path.{◌≡◌, refl}
use mathlib.Core.Bool.{Bool, true, false}
use mathlib.Core.List.{List, [], ◌∷◌, ◌++◌}
use native.Mathlib.Omega.{arith}
use Prim.Native.String.{String}
use managed_gitops.Base.Tests.{◌==◌}

module _ {ℓ} {A : Type ℓ} where
  abbrev pub length : List A → ℕ
  length [] = 0
  length (x ∷ xs) = suc (length xs)

  pub length-append : (xs ys : List A) → length (xs ++ ys) ≡ length xs + length ys
  length-append [] ys = omega arith
  length-append (x ∷ xs) ys = omega (arith, length-append xs ys)

  abbrev pub is_nil : List A → Bool
  is_nil [] = true
  is_nil (x ∷ xs) = false

abbrev pub All {ℓ κ} : {A : Type ℓ} → (A → Type κ) → List A → Type κ
All P [] = Unit
All P (x ∷ xs) = P x × All P xs

pub All-append {ℓ κ} :
    {A : Type ℓ} (P : A → Type κ) (before after : List A)
    → All P before
    → All P after
    → All P (before ++ after)
All-append P [] after b a = a
All-append P (x ∷ before) after b a = (b.0, All-append P before after b.1 a)

-- How often a string stands in a list of names.
abbrev pub bit : Bool → ℕ
bit true = 1
bit false = 0

unfoldable pub occurs : String → List String → ℕ
occurs k [] = 0
occurs k (x ∷ xs) = bit (x == k) + occurs k xs

pub occurs-append :
    (k : String) (xs ys : List String) → occurs k (xs ++ ys) ≡ occurs k xs + occurs k ys
unfolding occurs
occurs-append k [] ys = omega arith
occurs-append k (x ∷ xs) ys = omega (arith, occurs-append k xs ys)

-- `Merge xs ys zs`: zs holds the entries of xs and of ys, each in their order.
pub data Merge {ℓ} {A : Type ℓ} : List A → List A → List A → Type ℓ where
  done : Merge [] [] []
  left : {xs ys zs : List A} (a : A) → Merge xs ys zs → Merge (a ∷ xs) ys (a ∷ zs)
  right : {xs ys zs : List A} (a : A) → Merge xs ys zs → Merge xs (a ∷ ys) (a ∷ zs)

pub occurs-Merge :
    (k : String) {xs ys zs : List String} → Merge xs ys zs → occurs k xs + occurs k ys ≡ occurs k zs
unfolding occurs
occurs-Merge k done = refl
occurs-Merge k (left a m) = omega (arith, occurs-Merge k m)
occurs-Merge k (right a m) = omega (arith, occurs-Merge k m)

pub Merge-left {ℓ} : {A : Type ℓ} (xs : List A) → Merge xs [] xs
Merge-left [] = done
Merge-left (x ∷ xs) = left x (Merge-left xs)
