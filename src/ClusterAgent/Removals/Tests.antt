-- ===== src/ClusterAgent/Removals/Tests.antt =====
-- Removals at concrete answers.
use managed_gitops.Base.{◌≡◌, refl, false, none, some, [], ◌∷◌, ◌==◌, if◌then◌else◌}
use managed_gitops.Base.Client.{ok, not_found}
use managed_gitops.ClusterAgent.Resources.{
  ArgoApplication, AppProject, delete_application, delete_project, Handled, done,
}
use managed_gitops.ClusterAgent.Comparison.{empty_application}
use managed_gitops.ClusterAgent.Deletions.{resources_finalizer, delete_argocd_application}
use managed_gitops.ClusterAgent.Projects.{project_of}
use managed_gitops.ClusterAgent.Removals.{Answers, delete_applications_of_deleted_row}
use managed_gitops.ClusterAgent.Removals.Order.{
  RowCleaned, delete_applications_of_deleted_row-RowCleaned,
}

abbrev guestbook : ArgoApplication
guestbook = record empty_application {
  name = "gitopsdepl-1";
  namespace = "argocd";
  finalizers = resources_finalizer ∷ [];
  database_id = some "app-1";
}

abbrev last_project : AppProject
last_project = project_of "user" "argocd" [] []

-- Argo CD deletes the Application at once, and the user has nothing else.
abbrev answers : Answers
answers = record {
  label_error = λ label id. none;
  list_applications = λ ns label id. if id == "app-1" then ok (guestbook ∷ []) else ok [];
  deletion = λ app. record {
    get_application = ok app;
    add_finalizer = λ app'. ok app';
    delete_application = λ app'. none;
    first_start = 0;
    first_wait = record { now = 1; answer = not_found } ∷ [];
    second_start = 0;
    second_wait = [];
  };
  count_repositories = λ user. ok 0;
  count_managed_envs = λ user. ok 0;
  projects = record {
    list_repositories = λ user. ok [];
    list_managed_envs = λ user. ok [];
    get_managed_env = λ id. not_found;
    get_project = λ name ns. ok last_project;
    create_project = λ p. none;
    update_project = λ p. none;
  };
  delete_project = λ p. none;
}

abbrev all_gone : Handled
all_gone = record {
  effects = delete_application guestbook ∷ delete_project last_project ∷ [];
  retry = false;
  error = none;
  panicked = false;
}

ends : delete_applications_of_deleted_row answers "user" "argocd" "app-1" ≡ done all_gone
unfolding delete_applications_of_deleted_row delete_argocd_application ◌==◌
ends = refl

delete_applications_of_deleted_row-RowCleaned_example :
    RowCleaned answers "user" "argocd" "app-1" all_gone
delete_applications_of_deleted_row-RowCleaned_example =
    delete_applications_of_deleted_row-RowCleaned answers "user" "argocd" "app-1" all_gone ends refl
