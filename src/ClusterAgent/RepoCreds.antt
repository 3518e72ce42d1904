-- ===== src/ClusterAgent/RepoCreds.antt =====
-- cluster-agent/controllers/managed-gitops/eventloop/repocred.go: the secret that gives Argo CD
-- the credentials of a repository follows their row in the database. The database, the Kubernetes
-- client and the constants of Argo CD are parameters.
pub mod Syncing
pub mod Leftovers
pub mod Handling
mod Tests
use Prim.Native.String.{◌++◌ as concat}
use managed_gitops.Base.{
  Bool, true, false, Option, none, some, List, [], ◌∷◌, ◌||◌, not, String, ◌==◌, is_some,
  if◌then◌else◌,
}
use managed_gitops.Base.Map.{Map, lookup, insert, has}
use managed_gitops.Base.Client.{Result, ok, not_found, err}
use managed_gitops.Util.ArgoNames.{repo_cred_secret_name}
use managed_gitops.Util.Operations.{Operation, OperationCr}
use managed_gitops.ClusterAgent.Resources.{
  Secret, Effect, create_secret, update_secret, delete_secret, Handled, answered, after_effect,
}

-- common.LabelKeySecretType and the like, of Argo CD.
pub record Constants : Type 0 where
  pub label_key_secret_type : String
  pub label_value_repository : String
  pub annotation_key_managed_by : String
  pub annotation_value_argocd : String

-- controllers.RepoCredDatabaseIDLabel
abbrev pub database_id_label : String
database_id_label = "databaseID"

-- db.RepositoryCredentials
pub record RepositoryCredentials : Type 0 where
  pub repository_credentials_id : String
  pub private_url : String
  pub auth_username : String
  pub auth_password : String
  pub auth_ssh_key : String
  pub secret_obj : String

-- `string(m[key])` of a map that may be nil
abbrev pub text_of : Option String → String
text_of none = ""
text_of (some v) = v

abbrev pub value_in : String → Option (Map String) → String
value_in key none = ""
value_in key (some m) = text_of (lookup key m)

-- secretToRepoCred
unfoldable pub secret_to_repo_cred : Secret → RepositoryCredentials
secret_to_repo_cred s = record {
  repository_credentials_id = "";
  private_url = value_in "url" s.values;
  auth_username = value_in "username" s.values;
  auth_password = value_in "password" s.values;
  auth_ssh_key = value_in "sshPrivateKey" s.values;
  secret_obj = s.name;
}

-- updateSecretString, on Data that is not nil
unfoldable pub update_secret_string : String → String → Map String → Map String
update_secret_string key value m = if has key m || not (value == "") then insert key value m else m

-- `secret.Data[key] = []byte(value)`: a write to a nil map panics.
abbrev pub set_in : String → String → Option (Map String) → Option (Option (Map String))
set_in key value none = none
set_in key value (some m) = some (some (insert key value m))

infixl 5 ◌>>=◌
unfoldable pub ◌>>=◌ : {A B : Type 0} → Option A → (A → Option B) → Option B
none >>= f = none
some a >>= f = f a

-- A value that differs from the row is overwritten.
unfoldable pub sync_value :
    String → String → String → Option (Map String) → Option (Option (Map String))
sync_value key old new values = if old == new then some values else set_in key new values

-- The values of the row and of the secret, one after the other; each step goes on with the next.
module _ (row decoded : RepositoryCredentials) where
  abbrev pub Step : Type 0
  Step = Option (Map String) → Option (Option (Map String))

  unfoldable pub sync_ssh_key : Step
  unfolding sync_value
  sync_ssh_key values = sync_value "ssh" decoded.auth_ssh_key row.auth_ssh_key values

  unfoldable pub sync_username : Step
  unfolding sync_ssh_key ◌>>=◌
  sync_username values =
      sync_value "username" decoded.auth_username row.auth_username values >>= sync_ssh_key

  unfoldable pub sync_password : Step
  unfolding sync_username ◌>>=◌
  sync_password values =
      sync_value "password" decoded.auth_password row.auth_password values >>= sync_username

  unfoldable pub sync_url : Step
  unfolding sync_password ◌>>=◌
  sync_url values = sync_value "url" decoded.private_url row.private_url values >>= sync_password

  unfoldable pub sync_values : Step
  unfolding sync_url ◌>>=◌
  sync_values values = sync_value "name" decoded.secret_obj row.secret_obj values >>= sync_url

-- `v, ok := m[key]; ok && v == value`
abbrev pub is_value : String → Option String → Bool
is_value value none = false
is_value value (some v) = v == value

module _ (c : Constants) where
  unfoldable pub add_secret_argocd_annotation : Secret → Secret
  add_secret_argocd_annotation s = record s {
    annotations = insert c.annotation_key_managed_by c.annotation_value_argocd s.annotations;
  }

  unfoldable pub add_secret_argocd_metadata : Secret → Secret
  unfolding add_secret_argocd_annotation
  add_secret_argocd_metadata s =
      let s' = add_secret_argocd_annotation s in
      record s' { labels = insert c.label_key_secret_type c.label_value_repository s'.labels }

  unfoldable pub add_secret_repo_cred_metadata : String → Secret → Secret
  add_secret_repo_cred_metadata id s = record s { labels = insert database_id_label id s.labels }

  -- convertRepoCredToSecret
  unfoldable pub convert_repo_cred_to_secret : RepositoryCredentials → Secret → Secret
  unfolding update_secret_string add_secret_argocd_metadata add_secret_repo_cred_metadata
  convert_repo_cred_to_secret row s =
      let old : Map String = elim s.values [ none ↦ [] | some m ↦ m ] in
      let values = update_secret_string "sshPrivateKey" row.auth_ssh_key (
        update_secret_string "password" row.auth_password (
          update_secret_string "username" row.auth_username (
            update_secret_string "url" row.private_url
              (update_secret_string "name" row.secret_obj old)))) in
      add_secret_repo_cred_metadata row.repository_credentials_id
        (add_secret_argocd_metadata (record s { values = some values }))

  abbrev pub has_argocd_label : Secret → Bool
  has_argocd_label s = is_value c.label_value_repository (lookup c.label_key_secret_type s.labels)

  abbrev pub has_annotation : Secret → Bool
  has_annotation s =
      is_value c.annotation_value_argocd (lookup c.annotation_key_managed_by s.annotations)

  abbrev pub has_database_id : String → Secret → Bool
  has_database_id id s = is_value id (lookup database_id_label s.labels)

  -- The labels and the annotation, by what the secret had at the start.
  unfoldable pub sync_metadata : RepositoryCredentials → Secret → Secret
  unfolding add_secret_argocd_metadata add_secret_repo_cred_metadata add_secret_argocd_annotation
  sync_metadata row s =
      let s1 = if has_argocd_label s then s else add_secret_argocd_metadata s in
      let s2 =
        if has_database_id row.repository_credentials_id s
        then s1
        else add_secret_repo_cred_metadata row.repository_credentials_id s1 in
      if has_annotation s then s2 else add_secret_argocd_annotation s2

  -- Whether something differs.
  unfoldable pub is_update_needed : RepositoryCredentials → RepositoryCredentials → Secret → Bool
  is_update_needed row decoded s =
      not (has_argocd_label s)
      || (not (has_database_id row.repository_credentials_id s)
          || (not (has_annotation s)
              || (not (decoded.private_url == row.private_url)
                  || (not (decoded.auth_password == row.auth_password)
                      || (not (decoded.auth_username == row.auth_username)
                          || (not (decoded.auth_ssh_key == row.auth_ssh_key)
                              || not (decoded.secret_obj == row.secret_obj)))))))

  -- compareClusterResourceWithDatabaseRow: the secret after it, and whether it is to be updated.
  unfoldable pub compare_cluster_resource :
      RepositoryCredentials → Secret → RepositoryCredentials → Option (Secret × Bool)
  unfolding sync_values sync_metadata is_update_needed ◌>>=◌
  compare_cluster_resource row s decoded = do
    values ← sync_values row decoded s.values
    some (record (sync_metadata row s) { values = values }, is_update_needed row decoded s)

-- What each call of the handler answers.
pub record Answers : Type 0 where
  pub get_row : String → Result RepositoryCredentials
  -- name and namespace
  pub get_secret : String → String → Result Secret
  pub create_secret : Secret → Result Secret
  pub update_secret : Secret → Option String
  -- namespace and id of the row
  pub list_secrets : String → String → Result (List Secret)
  pub delete_secret : Secret → Result (Unit {0})

abbrev pub not_found_text : String
not_found_text = "not found"

-- An error of a deletion that counts.
abbrev pub deletion_error : Result (Unit {0}) → Option String
deletion_error (ok u) = none
deletion_error not_found = none
deletion_error (err e) = some e

abbrev pub first_error : Option String → Option String → Option String
first_error (some e) later = some e
first_error none later = later

-- The loop over the secrets: its effects and the first error.
unfoldable pub delete_each : Answers → List Secret → Option String → List Effect × Option String
delete_each a [] first = ([], first)
delete_each a (s ∷ ss) first =
    let (effects, error) =
      delete_each a ss (first_error first (deletion_error (a.delete_secret s))) in
    (delete_secret s ∷ effects, error)

-- By the loop's error.
abbrev pub leftovers : List Effect × Option String → Handled
leftovers (effects, none) = record {
  effects = effects;
  retry = false;
  error = none;
  panicked = false;
}
leftovers (effects, some e) = record {
  effects = effects;
  retry = true;
  error = some e;
  panicked = false;
}

-- deleteArgoCDSecretLeftovers, by the answer to its List; the id is taken to be a valid value of a
-- label, without which the List is not made.
unfoldable pub delete_leftovers : Answers → Result (List Secret) → Handled
unfolding delete_each
delete_leftovers a (ok ss) = leftovers (delete_each a ss none)
delete_leftovers a not_found = answered true (some not_found_text)
delete_leftovers a (err e) = answered true (some e)

-- By the answer to Update.
abbrev pub updated : Option String → Handled
updated none = answered false none
updated (some e) = answered true (some e)

-- By the comparison of a secret of the cluster.
unfoldable pub with_comparison : Answers → Option (Secret × Bool) → Handled
with_comparison a none = record { effects = []; retry = false; error = none; panicked = true }
with_comparison a (some (s, false)) = answered false none
with_comparison a (some (s, true)) = after_effect (update_secret s) (updated (a.update_secret s))

unfoldable pub compare_with : Constants → Answers → RepositoryCredentials → Secret → Handled
unfolding with_comparison compare_cluster_resource secret_to_repo_cred
compare_with c a row s =
    with_comparison a (compare_cluster_resource c row s (secret_to_repo_cred s))

-- By the answer to Create.
unfoldable pub created_secret :
    Constants → Answers → RepositoryCredentials → Result Secret → Handled
unfolding compare_with
created_secret c a row (ok s) = compare_with c a row s
created_secret c a row not_found = answered true (some not_found_text)
created_secret c a row (err e) = answered true (some e)

abbrev pub empty_secret : String → String → Secret
empty_secret name namespace = record {
  name = name;
  namespace = namespace;
  labels = [];
  annotations = [];
  values = none;
}

-- By the answer to Get.
unfoldable pub with_secret :
    Constants → Answers → RepositoryCredentials → String → Result Secret → Handled
unfolding created_secret convert_repo_cred_to_secret repo_cred_secret_name
with_secret c a row ns (ok s) = compare_with c a row s
with_secret c a row ns not_found =
    let s =
      convert_repo_cred_to_secret c row
        (empty_secret (repo_cred_secret_name row.repository_credentials_id) ns) in
    after_effect (create_secret s) (created_secret c a row (a.create_secret s))
with_secret c a row ns (err e) = answered true (some e)

-- By the row.
unfoldable pub with_repo_cred :
    Constants → Answers → Operation → String → Result RepositoryCredentials → Handled
unfolding with_secret delete_leftovers
with_repo_cred c a op ns (ok row) =
    with_secret c a row ns (a.get_secret (repo_cred_secret_name row.repository_credentials_id) ns)
with_repo_cred c a op ns not_found = delete_leftovers a (a.list_secrets ns op.resource_id)
with_repo_cred c a op ns (err e) = answered true (some e)

-- processOperation_RepositoryCredentials
unfoldable pub process_repository_credentials :
    Constants → Answers → Operation → OperationCr → String → Handled
unfolding with_repo_cred
process_repository_credentials c a op cr ns =
    if op.resource_id == ""
    then answered true (some (concat "resource ID was nil while processing operation: " cr.name))
    else with_repo_cred c a op ns (a.get_row op.resource_id)
