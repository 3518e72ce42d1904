-- ===== src/Base/Map.antt =====
-- A Go map with string keys, as an association list.
use Prim.Native.Nat.{suc, ◌≤◌}
use Prim.Native.String.{String}
use mathlib.Core.Path.{◌≡◌, refl}
use mathlib.Core.Logic.{◌≢◌}
use mathlib.Core.Bool.{Bool, true}
use mathlib.Core.Option.{Option, none, some}
use mathlib.Core.List.{List, [], ◌∷◌}
use native.Mathlib.Omega.{arith}
use managed_gitops.Base.Tests.{◌==◌, eq_iff, eq_refl, if◌then◌else◌, is_some}
use managed_gitops.Base.Lists.{length, All}

abbrev pub Map {ℓ} : Type ℓ → Type ℓ
Map V = List (String × V)

module _ {ℓ} {V : Type ℓ} where
  unfoldable pub lookup : String → Map V → Option V
  lookup key [] = none
  lookup key ((stored, value) ∷ rest) = if stored == key then some value else lookup key rest

  unfoldable pub delete : String → Map V → Map V
  delete k [] = []
  delete k ((j, w) ∷ m) = if j == k then delete k m else (j, w) ∷ delete k m

  -- `_, exists := m[k]`
  abbrev pub has : String → Map V → Bool
  has k m = is_some (lookup k m)

  unfoldable pub insert : String → V → Map V → Map V
  insert key new [] = (key, new) ∷ []
  insert key new ((stored, old) ∷ rest) =
      if stored == key then (key, new) ∷ rest else (stored, old) ∷ insert key new rest

  pub lookup-delete :
      (k j : String) (m : Map V) → lookup j (delete k m) ≡ (if k == j then none else lookup j m)
  unfolding lookup delete
  lookup-delete k j [] = ground arith
  lookup-delete k j ((i, w) ∷ m) =
      ground (arith, lookup-delete k j m, eq_iff k j, eq_iff i k, eq_iff i j)

  pub lookup-insert :
      (key other : String) (new : V) (table : Map V)
      → lookup other (insert key new table)
        ≡ (if key == other then some new else lookup other table)
  unfolding insert lookup
  lookup-insert key other new [] = refl
  lookup-insert key other new ((stored, old) ∷ rest) = ground (
    arith,
    lookup-insert key other new rest,
    eq_iff stored other,
    eq_iff stored key,
    eq_iff key other,
  )

  pub lookup-insert_self : (k : String) (v : V) (m : Map V) → lookup k (insert k v m) ≡ some v
  lookup-insert_self k v m = ground (arith, lookup-insert k k v m, eq_refl k)

  pub lookup-delete_self : (k : String) (m : Map V) → lookup k (delete k m) ≡ none
  lookup-delete_self k m = ground (arith, lookup-delete k k m, eq_refl k)

  pub length-delete-le : (k : String) (m : Map V) → length (delete k m) ≤ length m
  unfolding delete
  length-delete-le k [] = omega arith
  length-delete-le k ((j, w) ∷ m) = ground (arith, length-delete-le k m)

  -- A new key grows the map by one.
  pub length-insert_new :
      (k : String) (v : V) (m : Map V) → lookup k m ≡ none → length (insert k v m) ≡ suc (length m)
  unfolding lookup insert
  length-insert_new k v [] h = refl
  length-insert_new k v ((j, w) ∷ m) h = ground (arith, length-insert_new k v m)

  pub length-insert-le : (k : String) (v : V) (m : Map V) → length (insert k v m) ≤ suc (length m)
  unfolding insert
  length-insert-le k v [] = omega arith
  length-insert-le k v ((j, w) ∷ m) = ground (arith, length-insert-le k v m)

  -- A predicate of every value of a map.
  pub All-insert {κ} :
      (P : String × V → Type κ) (k : String) (v : V) (m : Map V)
      → P (k, v)
      → All P m
      → All P (insert k v m)
  unfolding insert
  All-insert P k v [] p h = (p, tt)
  All-insert P k v ((j, w) ∷ m) p h = ground (arith, All-insert P k v m p)

  pub All-delete {κ} :
      (P : String × V → Type κ) (k : String) (m : Map V) → All P m → All P (delete k m)
  unfolding delete
  All-delete P k [] h = tt
  All-delete P k ((j, w) ∷ m) h = ground (arith, All-delete P k m)

  -- No key stands twice, as in a map of Go.
  abbrev pub HasKeys : Map V → Type ℓ
  HasKeys [] = Unit
  HasKeys ((j, w) ∷ m) = (lookup j m ≡ none) × HasKeys m

  pub insert-HasKeys : (k : String) (v : V) (m : Map V) → HasKeys m → HasKeys (insert k v m)
  unfolding insert lookup
  insert-HasKeys k v [] h = (refl, tt)
  insert-HasKeys k v ((j, w) ∷ m) h =
      ground (arith, eq_iff j k, eq_iff k j, lookup-insert k j v m, insert-HasKeys k v m h.1)

  pub delete-HasKeys : (k : String) (m : Map V) → HasKeys m → HasKeys (delete k m)
  unfolding delete
  delete-HasKeys k [] h = tt
  delete-HasKeys k ((j, w) ∷ m) h =
      ground (arith, eq_iff j k, eq_iff k j, lookup-delete k j m, delete-HasKeys k m h.1)

  delete_missing : (k : String) (m : Map V) → lookup k m ≡ none → delete k m ≡ m
  unfolding delete lookup
  delete_missing k [] h = refl
  delete_missing k ((j, w) ∷ m) h = ground (arith, delete_missing k m)

  pub length-delete :
      (k : String) (m : Map V) → HasKeys m → has k m ≡ true → suc (length (delete k m)) ≡ length m
  unfolding delete lookup
  length-delete k [] h e = cc
  length-delete k ((j, w) ∷ m) h e =
      ground (arith, eq_iff j k, delete_missing k m, length-delete k m h.1)

  pub lookup-insert_other :
      (key other : String) (new : V) (table : Map V)
      → key ≢ other
      → lookup other (insert key new table) ≡ lookup other table
  lookup-insert_other key other new table n =
      ground (arith, lookup-insert key other new table, eq_iff key other)

  pub lookup-delete_other :
      (key other : String) (table : Map V)
      → key ≢ other
      → lookup other (delete key table) ≡ lookup other table
  lookup-delete_other key other table n =
      ground (arith, lookup-delete key other table, eq_iff key other)
