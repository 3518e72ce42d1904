-- ===== src/ClusterAgent/Projects/Clusters.antt =====
-- The destinations that buildAppProject makes of the environments of a user.
use Prim.Native.String.{◌++◌ as concat}
use mathlib.Core.Path.{subst}
use mathlib.Core.List.{Memᴰ}
use managed_gitops.Base.{
  ◌≡◌, refl, sym, ap, true, List, [], ◌∷◌, String, Bool-cases, inl, inr, arith, ◌↔◌, ◌==◌,
}
use managed_gitops.Base.Equality.{contains}
use managed_gitops.Util.ArgoNames.{cluster_secret_name}
use managed_gitops.ClusterAgent.Resources.{Destination}
use managed_gitops.ClusterAgent.Projects.{
  destination_eq, same_destination, same_destination_iff, anywhere, destinations_of,
}

-- Every namespace of the local cluster, and of the cluster of each environment.
pub data IsReached (ids : List String) : Destination → Type 0 where
  here : IsReached ids (record { server = ""; name = "in-cluster"; namespace = "*" })
  of_environment :
      (id : String)
      → Memᴰ id ids
      → IsReached ids (record { server = ""; name = concat "managed-env-" id; namespace = "*" })

further :
    (x : String) (ids : List String) (d : Destination) → IsReached ids d → IsReached (x ∷ ids) d
further x ids _ here = here
further x ids _ (of_environment id m) = of_environment id (Memᴰ.tail m)

local_contained :
    (ids : List String) → contains (destinations_of ids) (anywhere "in-cluster") ≡ true
unfolding contains destinations_of ◌==◌
local_contained [] = refl
local_contained (x ∷ ids) = ground (arith, local_contained ids)

environment_contained :
    (id : String) (ids : List String)
    → Memᴰ id ids
    → contains (destinations_of ids) (anywhere (cluster_secret_name id)) ≡ true
unfolding contains destinations_of
environment_contained id [] m = elim m [ ]
environment_contained id (x ∷ ids) (Memᴰ.head q) =
    let e : same_destination (anywhere (cluster_secret_name x)) (anywhere (cluster_secret_name id))
        ≡ true =
      (same_destination_iff (anywhere (cluster_secret_name x))
          (anywhere (cluster_secret_name id))).1
        (ap (λ i. anywhere (cluster_secret_name i)) (sym q)) in
    ground (arith, e)
environment_contained id (x ∷ ids) (Memᴰ.tail m) = ground (arith, environment_contained id ids m)

reached_contained :
    (ids : List String) (d : Destination)
    → IsReached ids d
    → contains (destinations_of ids) d ≡ true
unfolding cluster_secret_name
reached_contained ids _ here = local_contained ids
reached_contained ids _ (of_environment id m) = environment_contained id ids m

contained-IsReached :
    (ids : List String) (d : Destination)
    → contains (destinations_of ids) d ≡ true
    → IsReached ids d
unfolding contains destinations_of cluster_secret_name
contained-IsReached [] d h =
    subst (IsReached []) ((same_destination_iff (anywhere "in-cluster") d).0 (ground (arith, h)))
      here
contained-IsReached (x ∷ ids) d h =
    elim (Bool-cases (same_destination (anywhere (cluster_secret_name x)) d)) [
      | inl b ↦
          subst (IsReached (x ∷ ids))
            ((same_destination_iff (anywhere (cluster_secret_name x)) d).0 b)
            (of_environment x (Memᴰ.head refl))
      | inr b ↦ further x ids d (contained-IsReached ids d (ground (arith, h, b)))
    ]

pub destinations_iff :
    (ids : List String) (d : Destination)
    → (contains (destinations_of ids) d ≡ true) ↔ IsReached ids d
destinations_iff ids d = (contained-IsReached ids d, reached_contained ids d)
