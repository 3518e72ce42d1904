-- ===== src/Util/ArgoNames.antt =====
-- backend-shared/util/argocd/util.go: the names of secrets and applications in Argo CD. Lengths and
-- positions count bytes, as in Go.
pub mod Parsing
mod Tests
use Prim.Native.String.{◌++◌ as concat, len, slice}
use text.Mathlib.Text.{starts_with}
use managed_gitops.Base.{
  ℕ, ◌+◌, Bool, true, false, Option, none, some, String, ◌==◌, eqb, not, if◌then◌else◌,
}
use managed_gitops.Base.Map.{Map, lookup}

-- The constants of the file.
abbrev pub managed_env_prefix : String
managed_env_prefix = "managed-env-"

abbrev pub repo_cred_prefix : String
repo_cred_prefix = "repo-cred-"

abbrev pub gitops_depl_prefix : String
gitops_depl_prefix = "gitopsdepl-"

abbrev pub in_cluster : String
in_cluster = "in-cluster"

-- `s[n:]`
abbrev pub drop_bytes : ℕ → String → String
drop_bytes n s = slice s n (len s)

-- By the id of the row.
unfoldable pub cluster_secret_name : String → String
cluster_secret_name id = concat managed_env_prefix id

unfoldable pub application_name : String → String
application_name uid = concat gitops_depl_prefix uid

unfoldable pub repo_cred_secret_name : String → String
repo_cred_secret_name id = concat repo_cred_prefix id

-- ConvertArgoCDClusterSecretNameToManagedIdDatabaseRowId: the id, whether the environment is local,
-- and the error.
unfoldable pub convert_cluster_secret_name : String → String × Bool × Option String
convert_cluster_secret_name name =
    if name == in_cluster
    then ("", true, none)
    else if not (starts_with name managed_env_prefix)
    then (
      "",
      false,
      some (concat "secret name is not an GitOps Service Argo CD cluster secret: " name),
    )
    else (drop_bytes (len managed_env_prefix) name, false, none)

-- By the value of the label ArgocdResourceLabel.
abbrev pub name_of_label : Option String → String
name_of_label none = ""
name_of_label (some value) = if starts_with value gitops_depl_prefix then value else ""

-- GetArgoCDApplicationName
unfoldable pub get_application_name : Map String → String
get_application_name labels = name_of_label (lookup "app.kubernetes.io/instance" labels)

-- ExtractUIDFromApplicationName
unfoldable pub extract_uid : String → String
extract_uid name =
    let id = drop_bytes (len gitops_depl_prefix) name in
    if not (starts_with name gitops_depl_prefix)
    then ""
    else if not (eqb (len id) 36)
    then ""
    else id
