-- ===== src/ClusterAgent/RepoCreds/Tests.antt =====
-- Secrets at concrete rows.
use managed_gitops.Base.{
  ◌≡◌, ◌≢◌, refl, true, false, Bool, none, some, [], ◌∷◌, map, ◌==◌, is_some, ne_of_test,
}
use managed_gitops.Base.Client.{ok, not_found, err}
use managed_gitops.Base.Map.{lookup, insert}
use managed_gitops.Util.Operations.{
  waiting, repository_credentials_resource, Operation, OperationCr,
}
use managed_gitops.ClusterAgent.Resources.{Secret, update_secret, delete_secret}
use managed_gitops.ClusterAgent.RepoCreds.{
  Constants, RepositoryCredentials, Answers, value_in, secret_to_repo_cred,
  compare_cluster_resource, process_repository_credentials, database_id_label,
}
use managed_gitops.ClusterAgent.RepoCreds.Syncing.{Rounds, ssh_key_never_synced}
use managed_gitops.ClusterAgent.RepoCreds.Handling.{Synced, process_repository_credentials-Synced}
use managed_gitops.ClusterAgent.RepoCreds.Leftovers.{Ended, leftovers_deleted}

abbrev constants : Constants
constants = record {
  label_key_secret_type = "argocd.argoproj.io/secret-type";
  label_value_repository = "repository";
  annotation_key_managed_by = "managed-by";
  annotation_value_argocd = "argocd.argoproj.io";
}

abbrev row : RepositoryCredentials
row = record {
  repository_credentials_id = "1";
  private_url = "https://host/repo";
  auth_username = "user";
  auth_password = "";
  auth_ssh_key = "new key";
  secret_obj = "mine";
}

abbrev secret : Secret
secret = record {
  name = "repo-cred-1";
  namespace = "argocd";
  labels = [];
  annotations = [];
  values = some (("sshPrivateKey", "old key") ∷ []);
}

abbrev synced : Secret
synced = record secret {
  labels = ("argocd.argoproj.io/secret-type", "repository") ∷ ("databaseID", "1") ∷ [];
  annotations = ("managed-by", "argocd.argoproj.io") ∷ [];
  values = some (
      ("sshPrivateKey", "old key")
      ∷ ("name", "mine")
      ∷ ("url", "https://host/repo")
      ∷ ("username", "user")
      ∷ ("ssh", "new key")
      ∷ []);
}

compared :
    compare_cluster_resource constants row secret (secret_to_repo_cred secret) ≡ some (synced, true)
unfolding compare_cluster_resource secret_to_repo_cred lookup insert ◌==◌
compared = refl

compared_again :
    compare_cluster_resource constants row synced (secret_to_repo_cred synced) ≡ some (synced, true)
unfolding compare_cluster_resource secret_to_repo_cred lookup insert ◌==◌
compared_again = refl

keys_apart : ("argocd.argoproj.io/secret-type" == database_id_label) ≡ false
unfolding ◌==◌
keys_apart = refl

has_id : ("1" == "") ≡ false
unfolding ◌==◌
has_id = refl

other_key : value_in "sshPrivateKey" secret.values ≢ "new key"
unfolding lookup ◌==◌
other_key = ne_of_test "old key" "new key" refl

ssh_key_never_synced_example :
    (◌≡◌ {A = Bool} true true)
    × (value_in "sshPrivateKey" synced.values ≡ value_in "sshPrivateKey" secret.values)
ssh_key_never_synced_example =
    ssh_key_never_synced constants row secret synced synced true other_key
      (Rounds.next true Rounds.here compared) compared_again

-- Data that is nil is written to.
nil_data_panics :
    compare_cluster_resource constants row
      (record secret { values = none })
      (secret_to_repo_cred (record secret { values = none }))
    ≡ none
unfolding compare_cluster_resource secret_to_repo_cred lookup insert ◌==◌
nil_data_panics = refl

abbrev op : Operation
op = record {
  operation_id = "op-1";
  instance_id = "argo";
  resource_id = "1";
  operation_owner_user_id = "user";
  resource_type = repository_credentials_resource;
  last_state_update = 0;
  state = waiting;
  human_readable_state = "";
}

abbrev cr : OperationCr
cr = record {
  name = "operation-op-1";
  namespace = "argocd";
  operation_id = "op-1";
  periodic_cleanup = false;
}

abbrev answers : Answers
answers = record {
  get_row = λ id. not_found;
  get_secret = λ name namespace. not_found;
  create_secret = λ s. ok s;
  update_secret = λ s. none;
  list_secrets = λ namespace id. ok (secret ∷ synced ∷ []);
  delete_secret = λ s. err "forbidden";
}

leftovers_deleted_example :
    let h = process_repository_credentials constants answers op cr "argocd" in
    (h.effects ≡ map delete_secret (secret ∷ synced ∷ []))
    × (h.retry ≡ is_some h.error)
    × Ended answers (secret ∷ synced ∷ []) h.error
leftovers_deleted_example =
    leftovers_deleted constants answers op cr "argocd" (secret ∷ synced ∷ [])
      (ne_of_test "1" "" has_id) refl refl

-- The row is there, and so is its secret.
abbrev found_answers : Answers
found_answers = record answers { get_row = λ id. ok row; get_secret = λ name namespace. ok secret }

updates :
    (process_repository_credentials constants found_answers op cr "argocd").effects
    ≡ update_secret synced ∷ []
unfolding process_repository_credentials compare_cluster_resource secret_to_repo_cred lookup insert
    ◌==◌
updates = refl

process_repository_credentials-Synced_example :
    Synced constants found_answers row "argocd"
      (process_repository_credentials constants found_answers op cr "argocd")
unfolding process_repository_credentials compare_cluster_resource secret_to_repo_cred lookup insert
    ◌==◌
process_repository_credentials-Synced_example =
    process_repository_credentials-Synced constants found_answers op cr "argocd" row
      (ne_of_test "argocd.argoproj.io/secret-type" database_id_label keys_apart)
      (ne_of_test "1" "" has_id) refl refl refl
