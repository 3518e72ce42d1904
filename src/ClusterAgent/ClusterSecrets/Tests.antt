-- ===== src/ClusterAgent/ClusterSecrets/Tests.antt =====
-- Cluster secrets at concrete rows.
use managed_gitops.Base.{◌≡◌, refl, false, none, some, [], ◌∷◌, String, ◌==◌, All}
use managed_gitops.Base.Map.{insert}
use managed_gitops.Base.Client.{Result, ok, not_found}
use managed_gitops.ClusterAgent.Resources.{create_secret}
use managed_gitops.ClusterAgent.ClusterSecrets.{
  ManagedEnvironment, ClusterCredentials, Answers, ensure_managed_environment_exists,
}
use managed_gitops.ClusterAgent.ClusterSecrets.Placement.{IsAt}
use managed_gitops.ClusterAgent.ClusterSecrets.Upkeep.{
  Reconciled, writes, ensure_managed_environment_exists-Reconciled,
}

abbrev the_row : ManagedEnvironment
the_row = record { managedenvironment_id = "7"; clustercredentials_id = "9" }

abbrev the_id : String
the_id = "7"

abbrev host_name : String
host_name = "https://api.ci.example.com:6443"

abbrev the_credentials : ClusterCredentials
the_credentials = record {
  host = host_name;
  serviceaccount_bearer_token = "token";
  allow_insecure_skip_tls_verify = false;
  namespaces = "jane";
  cluster_resources = false;
}

-- A server that has no secret, with the rows as they are given.
abbrev answers : Result ManagedEnvironment → Answers
answers row = record {
  get_managed_env = λ id. row;
  get_cluster_credentials = λ id. ok the_credentials;
  marshal = λ token insecure. some "{}";
  get_secret = λ name ns. not_found;
  create_secret = λ s. none;
  update_secret = λ s. none;
  delete_secret = λ s. not_found;
}

the_secret :
    (ensure_managed_environment_exists (answers (ok the_row)) "argocd" "7").0
    ≡ create_secret (record {
      name = "managed-env-7";
      namespace = "argocd";
      labels = ("argocd.argoproj.io/secret-type", "cluster") ∷ ("databaseID", "7") ∷ [];
      annotations = [];
      values = some (
          ("name", "managed-env-7")
          ∷ ("server", "https://api.ci.example.com:6443?managedEnvironment=7")
          ∷ ("config", "{}")
          ∷ ("namespaces", "jane")
          ∷ []);
    })
      ∷ []
unfolding ensure_managed_environment_exists ◌==◌ insert
the_secret = refl

ensure_managed_environment_exists-Reconciled_example :
    All
      (IsAt "managed-env-7" "argocd")
      (ensure_managed_environment_exists (answers (ok the_row)) "argocd" "7").0
    × Reconciled
        (answers (ok the_row))
        "7"
        none
        (writes (ensure_managed_environment_exists (answers (ok the_row)) "argocd" "7").0 none)
unfolding ensure_managed_environment_exists ◌==◌
ensure_managed_environment_exists-Reconciled_example =
    ensure_managed_environment_exists-Reconciled (answers (ok the_row)) "argocd" "7" none
      (record {
        row_has_id = λ env q. by_row env q;
        secret_is_stored = λ s q. cc q;
        secret_is_named = λ s q. cc q;
      })
      refl
  where
    by_row :
        (env : ManagedEnvironment)
        → Path (Result ManagedEnvironment) (ok the_row) (ok env)
        → env.managedenvironment_id ≡ "7"
    by_row env q = cc q
