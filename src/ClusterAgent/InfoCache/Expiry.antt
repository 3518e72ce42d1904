-- ===== src/ClusterAgent/InfoCache/Expiry.antt =====
-- Expired entries of the caches of application_info_cache.go.
use managed_gitops.Base.{
  ◌≡◌, refl, Option, none, some, [], ◌∷◌, String, eq_iff, if◌then◌else◌, arith,
}
use managed_gitops.Base.Int.{ℤ, lt_ℤ}
use managed_gitops.Base.Map.{Map, lookup, HasKeys}
use managed_gitops.ClusterAgent.InfoCache.{Entry, expire}

-- An entry, unless its time has passed.
abbrev pub unexpired : {A : Type 0} → ℤ → Option (Entry A) → Option (Entry A)
unexpired now none = none
unexpired now (some e) = if lt_ℤ e.cache_expire_time now then none else some e

expire_missing :
    {A : Type 0} (clock : String → ℤ) (k : String) (m : Map (Entry A))
    → lookup k m ≡ none
    → lookup k (expire clock m) ≡ none
unfolding lookup expire
expire_missing clock k [] h = refl
expire_missing clock k ((j, e) ∷ m) h = ground (arith, expire_missing clock k m)

-- After the expiry loop has run over a cache, a key is found exactly if it was found before and
-- its entry's time has not passed when the loop is at the key, and it has the entry it had.
pub lookup-expire :
    {A : Type 0} (clock : String → ℤ) (k : String) (m : Map (Entry A))
    → HasKeys m
    → lookup k (expire clock m) ≡ unexpired (clock k) (lookup k m)
unfolding lookup expire
lookup-expire clock k [] h = refl
lookup-expire clock k ((j, e) ∷ m) h =
    ground (arith, eq_iff j k, expire_missing clock j m h.0, lookup-expire clock k m h.1)

pub expire-HasKeys :
    {A : Type 0} (clock : String → ℤ) (m : Map (Entry A)) → HasKeys m → HasKeys (expire clock m)
unfolding expire
expire-HasKeys clock [] h = tt
expire-HasKeys clock ((j, e) ∷ m) h =
    ground (arith, expire_missing clock j m, expire-HasKeys clock m h.1)
