-- ===== src/ClusterAgent/ClusterSecrets/Placement.antt =====
-- Which secret is written for a managed environment.
use managed_gitops.Base.{
  ◌≡◌, refl, sym, ap, Option, none, some, String, ◌==◌, Bool-cases, inl, inr, All,
}
use managed_gitops.Base.Client.{Result, ok, not_found, err}
use managed_gitops.Util.ArgoNames.{cluster_secret_name}
use managed_gitops.ClusterAgent.Resources.{
  Secret, Effect, create_secret, update_secret, delete_secret,
}
use managed_gitops.ClusterAgent.ClusterSecrets.{
  ManagedEnvironment, ClusterCredentials, Answers, is_unsupported, secret_of, Expected, expected,
  to_delete, failed, with_config, with_credentials, with_env, generate_expected_cluster_secret,
  same_data, with_existing, with_expected, ensure_managed_environment_exists,
}

-- A write of the secret with this name in this namespace.
abbrev pub IsAt : String → String → Effect → Type 0
IsAt name ns (create_secret s) = (s.name ≡ name) × (s.namespace ≡ ns)
IsAt name ns (update_secret s) = (s.name ≡ name) × (s.namespace ≡ ns)
IsAt name ns (delete_secret s) = (s.name ≡ name) × (s.namespace ≡ ns)
IsAt name ns _ = ⊥

-- A query by the id gives the row with that id; and the server gives the secret that it has stored,
-- which has the name and the namespace that it is asked for by.
pub record Faithful (a : Answers) (ns id : String) (stored : Option Secret) : Type 0 where
  pub row_has_id :
      (env : ManagedEnvironment) → a.get_managed_env id ≡ ok env → env.managedenvironment_id ≡ id
  pub secret_is_stored :
      (s : Secret) → a.get_secret (cluster_secret_name id) ns ≡ ok s → stored ≡ some s
  pub secret_is_named :
      (s : Secret)
      → a.get_secret (cluster_secret_name id) ns ≡ ok s
      → (s.name ≡ cluster_secret_name id) × (s.namespace ≡ ns)

module _ (a : Answers) (ns id : String) (before : Option Secret) (f : Faithful a ns id before) where
  abbrev IsPlaced : Secret → Type 0
  IsPlaced s = (s.name ≡ cluster_secret_name id) × (s.namespace ≡ ns)

  abbrev AllAt : Expected → Type 0
  AllAt e = All (IsAt (cluster_secret_name id) ns) (with_expected a ns id e).0

  existing-IsAt :
      (s : Secret) (r : Result Secret)
      → IsPlaced s
      → a.get_secret (cluster_secret_name id) ns ≡ r
      → All (IsAt (cluster_secret_name id) ns) (with_existing a s r).0
  unfolding with_existing
  existing-IsAt s (ok old) p q = elim (Bool-cases (same_data old.values s.values)) [
    | inl b ↦ rw b tt
    | inr b ↦ rw b (f.secret_is_named old q, tt)
  ]
  existing-IsAt s not_found p q = (p, tt)
  existing-IsAt s (err e) p q = tt

  expected-IsAt :
      (env : ManagedEnvironment) (c : ClusterCredentials) (config : String)
      → env.managedenvironment_id ≡ id
      → AllAt (expected (secret_of ns env c config))
  unfolding with_expected
  expected-IsAt env c config i =
      let s = secret_of ns env c config in
      elim (Bool-cases (s.name == "")) [
        | inl b ↦ rw b tt
        | inr b ↦ rw b (
            existing-IsAt s (a.get_secret s.name ns) (ap cluster_secret_name i, refl)
              (ap (λ n. a.get_secret (cluster_secret_name n) ns) (sym i)))
      ]

  failed-IsAt : (e : String) → AllAt (failed e)
  unfolding with_expected
  failed-IsAt e = tt

  deleted-IsAt : AllAt to_delete
  unfolding with_expected
  deleted-IsAt = ((refl, refl), tt)

  config-IsAt :
      (env : ManagedEnvironment) (c : ClusterCredentials) (r : Option String)
      → env.managedenvironment_id ≡ id
      → AllAt (with_config ns env c r)
  unfolding with_config
  config-IsAt env c none i = failed-IsAt _
  config-IsAt env c (some config) i = elim (Bool-cases (env.managedenvironment_id == "")) [
    | inl b ↦ rw b (failed-IsAt _)
    | inr b ↦ rw b (expected-IsAt env c config i)
  ]

  credentials-IsAt :
      (env : ManagedEnvironment) (r : Result ClusterCredentials)
      → env.managedenvironment_id ≡ id
      → AllAt (with_credentials a ns env r)
  unfolding with_credentials
  credentials-IsAt env (ok c) i = elim (Bool-cases (is_unsupported c.host)) [
    | inl b ↦ rw b (failed-IsAt _)
    | inr b ↦ rw b (config-IsAt env c _ i)
  ]
  credentials-IsAt env not_found i = deleted-IsAt
  credentials-IsAt env (err e) i = failed-IsAt _

  row-IsAt : (r : Result ManagedEnvironment) → a.get_managed_env id ≡ r → AllAt (with_env a ns id r)
  unfolding with_env
  row-IsAt (ok env) q =
      credentials-IsAt env (a.get_cluster_credentials env.clustercredentials_id)
        (f.row_has_id env q)
  row-IsAt not_found q = deleted-IsAt
  row-IsAt (err e) q = failed-IsAt _

-- Only the secret of the environment is written.
pub ensure-IsAt :
    (a : Answers) (ns id : String) (before : Option Secret)
    → Faithful a ns id before
    → All (IsAt (cluster_secret_name id) ns) (ensure_managed_environment_exists a ns id).0
unfolding ensure_managed_environment_exists generate_expected_cluster_secret
ensure-IsAt a ns id before f = elim (Bool-cases (id == "")) [
  | inl b ↦ rw b tt
  | inr b ↦ rw b (row-IsAt a ns id before f (a.get_managed_env id) refl)
]
