-- ===== src/Util/Varchar/Bounds.antt =====
-- The length of a truncated text.
use Prim.Native.String.{count}
use Prim.Native.String.count.{cons}
use text.Mathlib.TextLemmas.{length-append}
use managed_gitops.Base.{ℕ, zero, suc, ◌-◌, ◌≤◌, ◌≡◌, ◌∙◌, refl, String, arith}
use managed_gitops.Util.Varchar.{take_chars, dots, truncate_varchar}

count-take_chars-le : (n : ℕ) (s : String) → count (take_chars n s) ≤ n
unfolding take_chars
count-take_chars-le zero s = omega arith
count-take_chars-le (suc n) String.[] = omega arith
count-take_chars-le (suc n) (String.◌∷◌ c s) =
    omega (arith, count-take_chars-le n s, cons c (take_chars n s))

count-dots : (n : ℕ) → count (dots n) ≡ n
unfolding dots
count-dots zero = refl
count-dots (suc n) = length-append "." (dots n) ∙ omega (arith, count-dots n)

-- The text fits in the column.
pub truncate_varchar-le : (s : String) (n : ℕ) → count (truncate_varchar s n) ≤ n
unfolding truncate_varchar
truncate_varchar-le s n =
    ground (
      arith,
      count-dots n,
      length-append (take_chars (n - 3) s) "...",
      count-take_chars-le (n - 3) s,
    )
