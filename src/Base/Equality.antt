-- ===== src/Base/Equality.antt =====
-- Lists of values with a Boolean equality: membership, and lists with the same members.
use managed_gitops.Base.Lists.{length}
use managed_gitops.Base.Tests.{if◌then◌else◌, Bool-cases, ◌==◌ as str_eq, eq_iff as str_eq_iff}
use Prim.Native.Nat.{suc}
use Prim.Native.String.{String}
use mathlib.Core.Path.{◌≡◌, refl, sym, ap, ◌∙◌}
use mathlib.Core.Logic.{◌↔◌, inl, inr}
use mathlib.Core.Bool.{Bool, true, false, ◌&&◌, ◌||◌}
use mathlib.Core.List.{List, [], ◌∷◌}
use native.Mathlib.Omega.{arith}

pub record Eq (A : Type 0) : Type 0 where
  pub beq : A → A → Bool
  pub beq_iff : (a b : A) → (beq a b ≡ true) ↔ (a ≡ b)

instance abbrev pub string_eq : Eq String
string_eq = record { beq = str_eq; beq_iff = str_eq_iff }

-- Two lists of texts, one after the other.
unfoldable pub same_texts : List String → List String → Bool
same_texts [] [] = true
same_texts (x ∷ xs) (y ∷ ys) = str_eq x y && same_texts xs ys
same_texts _ _ = false

pub same_texts_iff : (xs ys : List String) → (same_texts xs ys ≡ true) ↔ (xs ≡ ys)
unfolding same_texts
same_texts_iff [] [] = (λ h. refl, λ e. refl)
same_texts_iff [] (y ∷ ys) = (λ h. cc h, λ e. cc e)
same_texts_iff (x ∷ xs) [] = (λ h. cc h, λ e. cc e)
same_texts_iff (x ∷ xs) (y ∷ ys) = (
  λ h. ground (arith, str_eq_iff x y, same_texts_iff xs ys),
  λ e. ground (arith, str_eq_iff x y, same_texts_iff xs ys),
)

module _ {A : Type 0} ⦃e : Eq A⦄ where
  unfoldable pub contains : List A → A → Bool
  contains [] a = false
  contains (x ∷ xs) a = e.beq x a || contains xs a

  -- Each value of the second list stands in the first.
  unfoldable pub covers : List A → List A → Bool
  covers xs [] = true
  covers xs (y ∷ ys) = contains xs y && covers xs ys

  abbrev pub IsNodup : List A → Type 0
  IsNodup [] = Unit {0}
  IsNodup (x ∷ xs) = (contains xs x ≡ false) × IsNodup xs

  abbrev pub SameMembers : List A → List A → Type 0
  SameMembers xs ys = (a : A) → contains xs a ≡ contains ys a

  -- The first occurrence is taken out.
  remove : A → List A → List A
  remove a [] = []
  remove a (x ∷ xs) = if e.beq x a then xs else x ∷ remove a xs

  length-remove :
      (a : A) (xs : List A) → contains xs a ≡ true → suc (length (remove a xs)) ≡ length xs
  unfolding contains remove
  length-remove a [] h = cc h
  length-remove a (x ∷ xs) h = ground (arith, length-remove a xs)

  contains-remove :
      (a b : A) (xs : List A)
      → contains xs b ≡ true
      → e.beq a b ≡ false
      → contains (remove a xs) b ≡ true
  unfolding contains remove
  contains-remove a b [] h n = cc h
  contains-remove a b (x ∷ xs) h n =
      ground (arith, contains-remove a b xs, e.beq_iff x a, e.beq_iff x b, e.beq_iff a b)

  contains_of_remove :
      (a b : A) (xs : List A) → contains (remove a xs) b ≡ true → contains xs b ≡ true
  unfolding contains remove
  contains_of_remove a b [] h = cc h
  contains_of_remove a b (x ∷ xs) h = ground (arith, contains_of_remove a b xs)

  covers-remove :
      (y : A) (xs ys : List A)
      → covers xs ys ≡ true
      → contains ys y ≡ false
      → covers (remove y xs) ys ≡ true
  unfolding covers contains
  covers-remove y xs [] c n = refl
  covers-remove y xs (z ∷ ys) c n =
      ground (arith, covers-remove y xs ys, contains-remove y z xs, e.beq_iff y z, e.beq_iff z y)

  contains_of_covers :
      (xs ys : List A) (a : A) → covers xs ys ≡ true → contains ys a ≡ true → contains xs a ≡ true
  unfolding covers contains
  contains_of_covers xs [] a c h = cc h
  contains_of_covers xs (y ∷ ys) a c h = elim (Bool-cases (e.beq y a)) [
    | inl b ↦
        let p : contains xs y ≡ true = ground arith in
        ap (contains xs) (sym ((e.beq_iff y a).0 b)) ∙ p
    | inr b ↦ contains_of_covers xs ys a (ground arith) (ground (arith, b))
  ]

  -- The members of a list that covers another without repetition, and is not longer, are its own.
  covered :
      (xs ys : List A)
      → covers xs ys ≡ true
      → IsNodup ys
      → length xs ≡ length ys
      → (a : A) → contains xs a ≡ true
      → contains ys a ≡ true
  unfolding covers contains
  covered [] [] c n l a h = cc h
  covered (x ∷ xs) [] c n l a h = absurd (omega arith)
  covered xs (y ∷ ys) c n l a h = elim (Bool-cases (e.beq y a)) [
    | inl b ↦ ground (arith, b)
    | inr b ↦
        let p : contains xs y ≡ true = ground arith in
        let q =
          covered (remove y xs) ys (covers-remove y xs ys (ground arith) n.0) n.1
            (omega (arith, length-remove y xs p)) a (contains-remove y a xs h b) in
        ground (arith, b, q)
  ]

  -- A list of the same length that covers one without repetition has its members.
  pub covers-SameMembers :
      (xs ys : List A)
      → covers xs ys ≡ true
      → IsNodup ys
      → length xs ≡ length ys
      → SameMembers xs ys
  covers-SameMembers xs ys c n l a = elim (Bool-cases (contains xs a)) [
    | inl p ↦ p ∙ sym (covered xs ys c n l a p)
    | inr p ↦ elim (Bool-cases (contains ys a)) [
      | inl q ↦ cc (contains_of_covers xs ys a c q)
      | inr q ↦ p ∙ sym q
    ]
  ]
