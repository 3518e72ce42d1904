-- ===== src/ClusterAgent/Projects.antt =====
-- The AppProject of a user, from operation_event_loop.go of the cluster agent: buildAppProject,
-- appProjectEqual and createOrUpdateAppProjectWithValidation. The queries and the Kubernetes client
-- are parameters.
pub mod Clusters
pub mod Grants
mod Tests
use Prim.Native.String.{◌++◌ as concat}
use managed_gitops.Base.{
  Bool, true, false, Option, none, some, List, [], ◌∷◌, ◌++◌, map, ◌&&◌, not, String, ◌==◌, length,
  eqb, ◌≡◌, ◌↔◌, eq_iff, arith, if◌then◌else◌,
}
use managed_gitops.Base.Equality.{Eq, string_eq, contains, covers}
use managed_gitops.Base.Client.{Result, ok, not_found, err}
use managed_gitops.Util.ArgoNames.{cluster_secret_name, in_cluster}
use managed_gitops.ClusterAgent.Resources.{
  Destination, AppProject, Effect, create_project, update_project, Handled, answered, after_effect,
}

-- Destinations are compared as structs.
abbrev pub same_destination : Destination → Destination → Bool
same_destination a b = a.server == b.server && (a.name == b.name && a.namespace == b.namespace)

pub same_destination_iff : (a b : Destination) → (same_destination a b ≡ true) ↔ (a ≡ b)
same_destination_iff a b = (
  λ h.
      ground
        (arith, eq_iff a.server b.server, eq_iff a.name b.name, eq_iff a.namespace b.namespace),
  λ e.
      ground
        (arith, eq_iff a.server b.server, eq_iff a.name b.name, eq_iff a.namespace b.namespace),
)

instance abbrev pub destination_eq : Eq Destination
destination_eq = record { beq = same_destination; beq_iff = same_destination_iff }

-- What each call answers; the answer of a create or an update is its error.
pub record Answers : Type 0 where
  -- the URLs of the rows of AppProjectRepository, by the user
  pub list_repositories : String → Result (List String)
  -- the environments of the rows of AppProjectManagedEnvironment, by the user
  pub list_managed_envs : String → Result (List String)
  -- the id of the row
  pub get_managed_env : String → Result String
  -- name and namespace
  pub get_project : String → String → Result AppProject
  pub create_project : AppProject → Option String
  pub update_project : AppProject → Option String

abbrev pub not_found_text : String
not_found_text = "not found"

-- appProjectPrefix
abbrev pub project_name : String → String
project_name user = concat "app-project-" user

-- One half of appProjectEqual: the lengths, and the look-up of each generated item in a map of the
-- existing ones.
unfoldable pub same_items : {A : Type 0} → ⦃e : Eq A⦄ → List A → List A → Bool
unfolding covers
same_items existing generated =
    eqb (length existing) (length generated) && covers existing generated

-- appProjectEqual, on projects that are not nil
unfoldable pub app_project_equal : AppProject → AppProject → Bool
unfolding same_items
app_project_equal existing generated =
    same_items existing.source_repos generated.source_repos
    && same_items existing.destinations generated.destinations

abbrev pub anywhere : String → Destination
anywhere name = record { server = ""; name = name; namespace = "*" }

-- The destinations of some environments, and the local cluster.
unfoldable pub destinations_of : List String → List Destination
unfolding cluster_secret_name
destinations_of ids =
    map (λ id. anywhere (cluster_secret_name id)) ids ++ (anywhere in_cluster ∷ [])

abbrev pub project_of : String → String → List String → List Destination → AppProject
project_of user ns repos destinations = record {
  name = project_name user;
  namespace = ns;
  username = some user;
  source_repos = repos;
  destinations = destinations;
}

-- The ids of the environments' rows, in the loop of buildAppProject.
unfoldable pub rows_of : Answers → List String → Result (List String)
rows_of a [] = ok []
rows_of a (env ∷ envs) =
    let rest = rows_of a envs in
    elim (a.get_managed_env env) [
      | ok id ↦ elim rest [ ok ids ↦ ok (id ∷ ids) | not_found ↦ not_found | err e ↦ err e ]
      | not_found ↦ not_found
      | err e ↦ err e
    ]

unfoldable pub with_rows : String → String → List String → Result (List String) → Result AppProject
unfolding destinations_of
with_rows user ns repos (ok ids) = ok (project_of user ns repos (destinations_of ids))
with_rows user ns repos not_found = not_found
with_rows user ns repos (err e) = err e

unfoldable pub with_envs :
    Answers → String → String → List String → Result (List String) → Result AppProject
unfolding with_rows rows_of
with_envs a user ns repos (ok envs) = with_rows user ns repos (rows_of a envs)
with_envs a user ns repos not_found = not_found
with_envs a user ns repos (err e) = err e

unfoldable pub with_repos : Answers → String → String → Result (List String) → Result AppProject
unfolding with_envs
with_repos a user ns (ok repos) = with_envs a user ns repos (a.list_managed_envs user)
with_repos a user ns not_found = not_found
with_repos a user ns (err e) = err e

-- buildAppProject, for the owner of the Operation and the namespace of Argo CD
unfoldable pub build_app_project : Answers → String → String → Result AppProject
unfolding with_repos
build_app_project a user ns = with_repos a user ns (a.list_repositories user)

abbrev pub written : Option String → Handled
written none = answered false none
written (some e) = answered true (some e)

-- By the answer to the Get of the existing project.
unfoldable pub with_existing : Answers → AppProject → Result AppProject → Handled
unfolding app_project_equal
with_existing a p (ok existing) =
    let p' = record existing { source_repos = p.source_repos; destinations = p.destinations } in
    if app_project_equal existing p
    then answered false none
    else after_effect (update_project p') (written (a.update_project p'))
with_existing a p not_found = after_effect (create_project p) (written (a.create_project p))
with_existing a p (err e) = answered true (some e)

-- By the generated project.
unfoldable pub with_generated : Answers → String → String → Result AppProject → Handled
unfolding with_existing
with_generated a user ns (ok p) = with_existing a p (a.get_project (project_name user) ns)
with_generated a user ns not_found = answered true (some not_found_text)
with_generated a user ns (err e) = answered true (some e)

-- createOrUpdateAppProjectWithValidation
unfoldable pub create_or_update_app_project : Answers → String → String → Handled
unfolding with_generated build_app_project
create_or_update_app_project a user ns = with_generated a user ns (build_app_project a user ns)
