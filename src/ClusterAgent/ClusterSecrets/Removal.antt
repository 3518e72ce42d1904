-- ===== src/ClusterAgent/ClusterSecrets/Removal.antt =====
-- An environment whose Operation has ended has no secret.
use managed_gitops.Base.{◌≡◌, refl, Option, none, String, ◌==◌, Bool-cases, inl, inr}
use managed_gitops.Base.Client.{Result, ok, not_found, err}
use managed_gitops.Util.ArgoNames.{cluster_secret_name}
use managed_gitops.ClusterAgent.Resources.{Secret}
use managed_gitops.ClusterAgent.ClusterSecrets.{
  ManagedEnvironment, Answers, with_env, with_expected, generate_expected_cluster_secret,
  ensure_managed_environment_exists, without_row, secret_deleted, secret_named,
  process_managed_environment,
}
use managed_gitops.ClusterAgent.ClusterSecrets.Upkeep.{writes}

nothing_more :
    (s : Secret) (r : Result (Unit {0})) (o : Option Secret)
    → writes (secret_deleted s r).effects o ≡ o
nothing_more s (ok u) o = refl
nothing_more s not_found o = refl
nothing_more s (err e) o = refl

gone_unless_refused :
    (a : Answers) (ns id : String) (r : Result ManagedEnvironment) (before : Option Secret)
    → (without_row a ns id r).error ≡ none
    → (r ≡ not_found) × (writes (without_row a ns id r).effects before ≡ none)
unfolding without_row
gone_unless_refused a ns id (ok env) before h = cc h
gone_unless_refused a ns id not_found before h =
    let s = secret_named ns (cluster_secret_name id) in
    (refl, nothing_more s (a.delete_secret s) none)
gone_unless_refused a ns id (err e) before h = cc h

stays_away :
    (a : Answers) (ns id : String)
    → a.get_managed_env id ≡ not_found
    → writes (ensure_managed_environment_exists a ns id).0 none ≡ none
unfolding ensure_managed_environment_exists generate_expected_cluster_secret with_expected with_env
stays_away a ns id q = elim (Bool-cases (id == "")) [ inl b ↦ rw b refl | inr b ↦ rw (b, q) refl ]

-- An Operation for a managed environment ends without an error only if the row of the environment
-- is gone; then its secret is gone as well, and while the row is gone, an Application that still
-- names the environment does not bring the secret back.
pub process_managed_environment_final :
    (a : Answers) (ns id : String) (before : Option Secret)
    → (process_managed_environment a ns id).error ≡ none
    → (a.get_managed_env id ≡ not_found)
      × (writes (process_managed_environment a ns id).effects before ≡ none)
      × (writes (ensure_managed_environment_exists a ns id).0 none ≡ none)
unfolding process_managed_environment
process_managed_environment_final a ns id before h =
    let (row, gone) = gone_unless_refused a ns id (a.get_managed_env id) before h in
    (row, gone, stays_away a ns id row)
