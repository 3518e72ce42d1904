-- ===== src/Base/Client.antt =====
-- What a call of the Kubernetes client gives: an object or a list of objects, or an error.
use Prim.Native.String.{String}
use mathlib.Core.Path.{◌≡◌, refl}
use mathlib.Core.Logic.{◌⊎◌, inl, inr}

pub data Result (A : Type 0) : Type 0 where
  ok : A → Result A
  not_found : Result A
  err : String → Result A

pub Result-cases :
    {A : Type 0} (r : Result A)
    → ((x : A) × (r ≡ ok x)) ⊎ ((r ≡ not_found) ⊎ ((e : String) × (r ≡ err e)))
Result-cases (ok x) = inl (x, refl)
Result-cases not_found = inr (inl refl)
Result-cases (err e) = inr (inr (e, refl))
