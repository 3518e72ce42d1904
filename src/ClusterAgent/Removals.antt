-- ===== src/ClusterAgent/Removals.antt =====
-- deleteArgoCDApplicationOfDeletedApplicationRow of operation_event_loop.go: the Argo CD
-- Applications of a row that is gone are deleted, and the AppProject of the user if nothing is
-- left for it.
pub mod Order
mod Tests
use managed_gitops.Base.{
  ℕ, ◌+◌, Bool, true, false, Option, none, some, List, [], ◌∷◌, String, eqb, if◌then◌else◌,
}
use managed_gitops.Base.Client.{Result, ok, not_found, err}
use managed_gitops.ClusterAgent.Resources.{
  ArgoApplication, AppProject, Effect, delete_project, Handled, answered, after_effect,
  after_effects, replied, Run, done, waiting,
}
use managed_gitops.ClusterAgent.Deletions
use managed_gitops.ClusterAgent.Deletions.{
  Outcome, finished, still_waiting, delete_argocd_application,
}
use managed_gitops.ClusterAgent.Projects
use managed_gitops.ClusterAgent.Projects.{project_name, create_or_update_app_project}

-- What each call answers.
pub record Answers : Type 0 where
  -- the error of labels.NewRequirement, for a label and its value
  pub label_error : String → String → Option String
  -- the Applications of a namespace whose label has a value
  pub list_applications : String → String → String → Result (List ArgoApplication)
  -- the calls of DeleteArgoCDApplication for each of them
  pub deletion : ArgoApplication → Deletions.Answers
  pub count_repositories : String → Result ℕ
  pub count_managed_envs : String → Result ℕ
  pub projects : Projects.Answers
  pub delete_project : AppProject → Option String

-- ArgoCDApplicationDatabaseIDLabel
abbrev pub application_label : String
application_label = "databaseID"

-- The first error of the loop is kept.
abbrev pub first_error : Option String → Option String → Option String
first_error none e = e
first_error (some e) _ = some e

-- By the outcome of a deletion: the loop goes on, unless the deletion does not end.
abbrev pub go_on : Outcome → (Option String → Outcome) → Outcome
go_on (finished es e) next = Deletions.after_effects es (next e)
go_on (still_waiting es) next = still_waiting es

-- The loop over the Applications, with its first error.
unfoldable pub delete_all : Answers → List ArgoApplication → Option String → Outcome
delete_all a [] first = finished [] first
delete_all a (app ∷ apps) first =
    go_on (delete_argocd_application (a.deletion app))
      (λ e. delete_all a apps (first_error first e))

abbrev pub not_found_text : String
not_found_text = "not found"

module _ (a : Answers) (user ns : String) where
  -- By the answer to the Get of the project.
  abbrev pub remove_project : Result AppProject → Handled
  remove_project (ok p) = after_effect (delete_project p) (replied (a.delete_project p))
  remove_project not_found = answered false none
  remove_project (err e) = answered true (some e)

  -- By the two counts.
  unfoldable pub after_counts : ℕ → Result ℕ → Handled
  unfolding create_or_update_app_project
  after_counts repositories (ok envs) =
      if eqb (repositories + envs) 0
      then remove_project (a.projects.get_project (project_name user) ns)
      else create_or_update_app_project a.projects user ns
  after_counts repositories not_found = answered true (some not_found_text)
  after_counts repositories (err e) = answered true (some e)

  unfoldable pub with_repositories : Result ℕ → Handled
  unfolding after_counts
  with_repositories (ok repositories) = after_counts repositories (a.count_managed_envs user)
  with_repositories not_found = answered true (some not_found_text)
  with_repositories (err e) = answered true (some e)

  -- By the first error of the loop.
  unfoldable pub all_deleted : Option String → Handled
  unfolding with_repositories
  all_deleted none = with_repositories (a.count_repositories user)
  all_deleted (some e) = answered true (some e)

  unfoldable pub after_deletions : Outcome → Run
  unfolding all_deleted
  after_deletions (finished es first) = done (after_effects es (all_deleted first))
  after_deletions (still_waiting es) = waiting es

  unfoldable pub with_listed : Result (List ArgoApplication) → Run
  unfolding after_deletions delete_all
  with_listed (ok apps) = after_deletions (delete_all a apps none)
  with_listed not_found = done (answered true (some not_found_text))
  with_listed (err e) = done (answered true (some e))

  -- By the error of the label's requirement, for the id of the row.
  unfoldable pub with_label : String → Option String → Run
  unfolding with_listed
  with_label id none = with_listed (a.list_applications ns application_label id)
  with_label id (some e) = done (answered false (some e))

  -- deleteArgoCDApplicationOfDeletedApplicationRow, for the owner of the Operation and the id of
  -- the row
  unfoldable pub delete_applications_of_deleted_row : String → Run
  unfolding with_label
  delete_applications_of_deleted_row id = with_label id (a.label_error application_label id)
