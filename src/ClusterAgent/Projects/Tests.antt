-- ===== src/ClusterAgent/Projects/Tests.antt =====
-- Projects at concrete rows.
use managed_gitops.Base.{◌≡◌, refl, true, none, [], ◌∷◌, String, ◌==◌}
use managed_gitops.Base.Client.{ok}
use managed_gitops.Base.Equality.{string_eq, contains, IsNodup}
use managed_gitops.ClusterAgent.Resources.{AppProject}
use managed_gitops.ClusterAgent.Projects.{
  Answers, anywhere, destination_eq, destinations_of, project_of, rows_of, app_project_equal,
  create_or_update_app_project,
}
use managed_gitops.ClusterAgent.Projects.Grants.{
  Grants, on_cluster, create_or_update_app_project-Grants,
}

abbrev stale : AppProject
stale = project_of "user" "argocd" ("repo" ∷ "other" ∷ []) (anywhere "in-cluster" ∷ [])

abbrev answers : Answers
answers = record {
  list_repositories = λ user. ok ("repo" ∷ "mine" ∷ []);
  list_managed_envs = λ user. ok ("1" ∷ []);
  get_managed_env = λ id. ok id;
  get_project = λ name namespace. ok stale;
  create_project = λ p. none;
  update_project = λ p. none;
}

rows : rows_of answers ("1" ∷ []) ≡ ok ("1" ∷ [])
unfolding rows_of
rows = refl

repositories_once : IsNodup {A = String} ("repo" ∷ "mine" ∷ [])
unfolding contains ◌==◌
repositories_once = (refl, (refl, tt))

destinations_once : IsNodup (destinations_of ("1" ∷ []))
unfolding contains destinations_of ◌==◌
destinations_once = (refl, (refl, tt))

updated : (create_or_update_app_project answers "user" "argocd").error ≡ none
unfolding create_or_update_app_project contains ◌==◌
updated = refl

create_or_update_app_project-Grants_example :
    Grants
      ("repo" ∷ "mine" ∷ [])
      ("1" ∷ [])
      (on_cluster (ok stale) (create_or_update_app_project answers "user" "argocd").effects)
create_or_update_app_project-Grants_example =
    create_or_update_app_project-Grants answers "user" "argocd" ("repo" ∷ "mine" ∷ []) ("1" ∷ [])
      ("1" ∷ []) refl refl rows repositories_once destinations_once updated

-- A cluster that is listed twice covers for one that is no longer listed.
repeated_cluster :
    app_project_equal
      (project_of "user" "argocd" [] (anywhere "a" ∷ anywhere "b" ∷ []))
      (project_of "user" "argocd" [] (anywhere "a" ∷ anywhere "a" ∷ []))
    ≡ true
unfolding app_project_equal contains ◌==◌
repeated_cluster = refl
