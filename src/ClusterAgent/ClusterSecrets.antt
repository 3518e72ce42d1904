-- ===== src/ClusterAgent/ClusterSecrets.antt =====
-- The secret by which Argo CD reaches a managed environment, from operation_event_loop.go of the
-- cluster agent: ensureManagedEnvironmentExists, generateExpectedClusterSecret and
-- processOperation_ManagedEnvironment. The queries, the JSON encoder and the client are parameters.
pub mod Described
pub mod Placement
pub mod Upkeep
pub mod Removal
pub mod Servers
mod Tests
use Prim.Native.String.{◌++◌ as concat}
use managed_gitops.Base.{
  Bool, true, false, Option, none, some, List, [], ◌∷◌, ◌||◌, String, ◌==◌, if◌then◌else◌,
}
use managed_gitops.Base.Text.{has_code}
use managed_gitops.Base.Map.{Map, insert}
use managed_gitops.Base.MapEquality.{same_map}
use managed_gitops.Base.Client.{Result, ok, not_found, err}
use managed_gitops.Util.ArgoNames.{cluster_secret_name}
use managed_gitops.ClusterAgent.Resources.{
  Secret, Effect, create_secret, update_secret, delete_secret, Handled, answered, after_effect,
}

-- db.ManagedEnvironment and db.ClusterCredentials
pub record ManagedEnvironment : Type 0 where
  pub managedenvironment_id : String
  pub clustercredentials_id : String

pub record ClusterCredentials : Type 0 where
  pub host : String
  pub serviceaccount_bearer_token : String
  pub allow_insecure_skip_tls_verify : Bool
  pub namespaces : String
  pub cluster_resources : Bool

-- What each call answers. The answer of a create or an update is its error.
pub record Answers : Type 0 where
  pub get_managed_env : String → Result ManagedEnvironment
  pub get_cluster_credentials : String → Result ClusterCredentials
  -- json.Marshal of a ClusterSecretConfigJSON: the token, and whether the connection is insecure
  pub marshal : String → Bool → Option String
  -- name and namespace
  pub get_secret : String → String → Result Secret
  pub create_secret : Secret → Option String
  pub update_secret : Secret → Option String
  pub delete_secret : Secret → Result (Unit {0})

-- ManagedEnvironmentQueryParameter, and `?` and `&` by their codes.
abbrev pub query_parameter : String
query_parameter = "?managedEnvironment="

abbrev pub is_unsupported : String → Bool
is_unsupported host = has_code 63 host || has_code 38 host

-- The URL of the server, with the id of the environment.
unfoldable pub server_of : String → String → String
server_of host id = concat host (concat query_parameter id)

abbrev pub add_cluster_resources : Bool → Map String → Map String
add_cluster_resources true m = insert "clusterResources" "true" m
add_cluster_resources false m = m

-- By whether the namespaces are empty.
abbrev pub add_namespaces : Bool → String → Map String → Map String
add_namespaces true namespaces m = m
add_namespaces false namespaces m = insert "namespaces" namespaces m

unfoldable pub values_of : ManagedEnvironment → ClusterCredentials → String → Map String
unfolding cluster_secret_name server_of insert
values_of env c config =
    let id = env.managedenvironment_id in
    add_namespaces (c.namespaces == "") c.namespaces (
      add_cluster_resources c.cluster_resources (
        ("name", cluster_secret_name id)
        ∷ ("server", server_of c.host id)
        ∷ ("config", config)
        ∷ []))

abbrev pub secret_of : String → ManagedEnvironment → ClusterCredentials → String → Secret
secret_of ns env c config = record {
  name = cluster_secret_name env.managedenvironment_id;
  namespace = ns;
  labels =
      ("argocd.argoproj.io/secret-type", "cluster")
      ∷ ("databaseID", env.managedenvironment_id)
      ∷ [];
  annotations = [];
  values = some (values_of env c config);
}

-- The results of generateExpectedClusterSecret.
pub data Expected : Type 0 where
  expected : Secret → Expected
  to_delete : Expected
  failed : String → Expected

-- By the encoded configuration.
unfoldable pub with_config :
    String → ManagedEnvironment → ClusterCredentials → Option String → Expected
unfolding values_of
with_config ns env c none = failed "SEVERE: unable to marshal JSON"
with_config ns env c (some config) =
    if env.managedenvironment_id == ""
    then failed "managedEnvironment did not have a valid ID"
    else expected (secret_of ns env c config)

module _ (a : Answers) (ns : String) where
  unfoldable pub with_credentials : ManagedEnvironment → Result ClusterCredentials → Expected
  unfolding with_config has_code
  with_credentials env (ok c) =
      if is_unsupported c.host
      then failed (concat "the Kubernetes API URL contained unsupported characters: " c.host)
      else with_config ns env c
          (a.marshal c.serviceaccount_bearer_token c.allow_insecure_skip_tls_verify)
  with_credentials env not_found = to_delete
  with_credentials env (err e) = failed (
      concat "unable to get cluster credentials '"
        (concat env.clustercredentials_id (concat "': " e)))

  unfoldable pub with_env : String → Result ManagedEnvironment → Expected
  unfolding with_credentials
  with_env id (ok env) = with_credentials env (a.get_cluster_credentials env.clustercredentials_id)
  with_env id not_found = to_delete
  with_env id (err e) =
      failed (concat "unable to get managed environment '" (concat id (concat "': " e)))

  -- generateExpectedClusterSecret
  unfoldable pub generate_expected_cluster_secret : String → Expected
  unfolding with_env
  generate_expected_cluster_secret id = with_env id (a.get_managed_env id)

-- The effects, and the error.
abbrev pub Ensured : Type 0
Ensured = List Effect × Option String

-- A text that ends with the name and the namespace of a secret.
abbrev pub about : String → Secret → String
about text s = concat text (concat s.name (concat "' in '" (concat s.namespace "'")))

-- An error that the client answers with is replaced.
abbrev pub replaced : String → Option String → Option String
replaced text none = none
replaced text (some e) = some text

-- The object that a Delete by name and namespace is called with.
abbrev pub secret_named : String → String → Secret
secret_named ns name = record {
  name = name;
  namespace = ns;
  labels = [];
  annotations = [];
  values = none;
}

-- reflect.DeepEqual of the Data of a secret and of an expected one, which is not nil.
abbrev pub same_data : Option (Map String) → Option (Map String) → Bool
same_data none none = true
same_data (some m) (some n) = same_map m n
same_data _ _ = false

abbrev pub deletion_error : String → Result (Unit {0}) → Option String
deletion_error text (ok u) = none
deletion_error text not_found = none
deletion_error text (err e) = some (concat text e)

module _ (a : Answers) where
  -- By the answer to the Get of the existing secret.
  unfoldable pub with_existing : Secret → Result Secret → Ensured
  unfolding same_map
  with_existing s (ok existing) =
      let s' = record existing { values = s.values } in
      if same_data existing.values s.values then ([], none) else (
        update_secret s' ∷ [],
        replaced (about "unable to update existing secret '" s') (a.update_secret s'),
      )
  with_existing s not_found = (
    create_secret s ∷ [],
    replaced (about "unable to create expected Argo CD Cluster secret '" s) (a.create_secret s),
  )
  with_existing s (err e) =
      ([], some (about "unable to retrieve existing Argo CD Cluster secret '" s))

  module _ (ns id : String) where
    unfoldable pub with_expected : Expected → Ensured
    unfolding with_existing
    with_expected (expected s) =
        if s.name == "" then ([], none) else with_existing s (a.get_secret s.name s.namespace)
    with_expected to_delete =
        let s = secret_named ns (cluster_secret_name id) in
        (
          delete_secret s ∷ [],
          deletion_error "unable to delete secret of deleted managed environment: "
              (a.delete_secret s),
        )
    with_expected (failed e) = ([], some (concat "unable to generate expected cluster secret: " e))

    -- ensureManagedEnvironmentExists, by the environment of the Application's row
    unfoldable pub ensure_managed_environment_exists : Ensured
    unfolding with_expected generate_expected_cluster_secret
    ensure_managed_environment_exists =
        if id == "" then ([], none) else with_expected (generate_expected_cluster_secret a ns id)

-- By the answer to the Delete of the secret.
abbrev pub secret_deleted : Secret → Result (Unit {0}) → Handled
secret_deleted s (ok u) = answered false none
secret_deleted s not_found = answered false none
secret_deleted s (err e) =
    answered true
      (some (concat (about "unable to retrieve Argo CD Cluster Secret '" s) (concat ": " e)))

unfoldable pub without_row : Answers → String → String → Result ManagedEnvironment → Handled
unfolding cluster_secret_name
without_row a ns id (ok env) =
    answered false (some "managed environment still exists in the database")
without_row a ns id not_found =
    let s = secret_named ns (cluster_secret_name id) in
    after_effect (delete_secret s) (secret_deleted s (a.delete_secret s))
without_row a ns id (err e) =
    answered true (some (concat "an unexpected error occcurred on retrieving managed env: " e))

-- processOperation_ManagedEnvironment, by the resource id of the Operation's row
unfoldable pub process_managed_environment : Answers → String → String → Handled
unfolding without_row
process_managed_environment a ns id = without_row a ns id (a.get_managed_env id)
