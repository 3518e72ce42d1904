-- ===== src/Base/MapEquality.antt =====
-- Maps of texts with the same entries, as reflect.DeepEqual compares them.
use Prim.Native.String.{String}
use mathlib.Core.Path.{◌≡◌, refl, sym, ap, ◌∙◌}
use mathlib.Core.Logic.{◌≢◌, inl, inr}
use mathlib.Core.Bool.{Bool, true, false, ◌&&◌}
use mathlib.Core.Option.{Option, none, some}
use mathlib.Core.List.{[], ◌∷◌}
use native.Mathlib.Omega.{arith}
use managed_gitops.Base.Tests.{◌==◌, eq_iff, Option-cases}
use managed_gitops.Base.Map.{Map, lookup}

abbrev pub same_option : Option String → Option String → Bool
same_option none none = true
same_option (some a) (some b) = a == b
same_option _ _ = false

same_option_lem : (o p : Option String) → same_option o p ≡ true → o ≡ p
same_option_lem none none h = refl
same_option_lem (some a) (some b) h = ap some ((eq_iff a b).0 h)
same_option_lem none (some b) h = cc h
same_option_lem (some a) none h = cc h

-- The two maps agree at each key of the first list.
unfoldable pub keys_agree : Map String → Map String → Map String → Bool
unfolding lookup
keys_agree [] m n = true
keys_agree ((key, value) ∷ rest) m n =
    same_option (lookup key m) (lookup key n) && keys_agree rest m n

unfoldable pub same_map : Map String → Map String → Bool
unfolding keys_agree
same_map m n = keys_agree m m n && keys_agree n m n

agree_at :
    (r m n : Map String) (k : String)
    → keys_agree r m n ≡ true
    → lookup k r ≢ none
    → lookup k m ≡ lookup k n
unfolding keys_agree lookup
agree_at [] m n k h there = absurd (there refl)
agree_at ((key, value) ∷ rest) m n k h there =
    ground (arith, agree_at rest m n k, eq_iff key k, same_option_lem (lookup key m) (lookup key n))

pub same_map-lookup :
    (m n : Map String) (k : String) → same_map m n ≡ true → lookup k m ≡ lookup k n
unfolding same_map
same_map-lookup m n k h = elim (Option-cases (lookup k m)) [
  | inl missing ↦ elim (Option-cases (lookup k n)) [
    | inl gone ↦ missing ∙ sym gone
    | inr (v, found) ↦ agree_at n m n k (ground arith) (λ e. cc (e, found))
  ]
  | inr (v, found) ↦ agree_at m m n k (ground arith) (λ e. cc (e, found))
]
