-- ===== src/ClusterAgent/Applications.antt =====
-- processOperation_Application of operation_event_loop.go: the Argo CD Application of a row is
-- created or updated, with the project of its user and the secret of its environment before it.
pub mod Writes
pub mod Agreement
pub mod Placement
pub mod Ending
mod Tests
use Prim.Native.String.{◌++◌ as concat}
use managed_gitops.Base.{
  Bool, true, false, Option, none, some, List, [], ◌∷◌, ◌++◌, String, ◌==◌, if◌then◌else◌,
}
use managed_gitops.Base.Client.{Result, ok, not_found, err}
use managed_gitops.Util.ArgoNames.{in_cluster}
use managed_gitops.Util.Operations.{Operation, OperationCr}
use managed_gitops.ClusterAgent.InfoCache.{Application}
use managed_gitops.ClusterAgent.Resources.{
  ArgoApplication, Effect, create_application, update_application, Handled, answered, after_effects,
  replied, Run, done, waiting,
}
use managed_gitops.ClusterAgent.Comparison.{Unmarshal, empty_application, compare_application}
use managed_gitops.ClusterAgent.ClusterSecrets
use managed_gitops.ClusterAgent.ClusterSecrets.{Ensured, ensure_managed_environment_exists}
use managed_gitops.ClusterAgent.Projects.{create_or_update_app_project}
use managed_gitops.ClusterAgent.Removals
use managed_gitops.ClusterAgent.Removals.{delete_applications_of_deleted_row}

-- What each call answers; the answer of a create is its error.
pub record Answers : Type 0 where
  pub get_row : String → Result Application
  pub unmarshal : Unmarshal
  -- name and namespace
  pub get_application : String → String → Result ArgoApplication
  pub create_application : ArgoApplication → Option String
  -- an Update answers with what is stored
  pub update_application : ArgoApplication → Result ArgoApplication
  pub secrets : ClusterSecrets.Answers
  -- by the id of the row that is gone
  pub removal : String → Removals.Answers

abbrev pub not_found_text : String
not_found_text = "not found"

-- By what ensureManagedEnvironmentExists did: its error ends the handler.
abbrev pub ensured : Ensured → Handled → Handled
ensured (es, none) h = after_effects es h
ensured (es, some e) h = after_effects es (answered true (some e))

module _ (a : Answers) (ns : String) where
  -- Unless the destination is the local cluster, the secret of the environment comes first.
  unfoldable pub with_environment : Application → ArgoApplication → Handled → Handled
  unfolding ensure_managed_environment_exists
  with_environment row app h =
      if app.spec.destination_name == in_cluster
      then h
      else ensured (ensure_managed_environment_exists a.secrets ns row.managed_environment_id) h

  unfoldable pub create : ArgoApplication → Handled
  create app = after_effects (create_application app ∷ []) (replied (a.create_application app))

  abbrev pub object_of : Application → ArgoApplication
  object_of row = record empty_application { name = row.name; namespace = ns }

  abbrev pub labelled : Application → ArgoApplication → ArgoApplication
  labelled row app = record app { database_id = some row.application_id }

  -- By the decoded spec of the row.
  unfoldable pub with_decoded : Application → Option ArgoApplication → Handled
  unfolding with_environment create
  with_decoded row none = answered false none
  with_decoded row (some app) = with_environment row (labelled row app) (create (labelled row app))

  unfoldable pub create_application_of : Application → Handled
  unfolding with_decoded
  create_application_of row =
      if row.managed_environment_id == ""
      then answered false none
      else with_decoded row (a.unmarshal row.spec_field (object_of row))

  -- The last step: the secret is brought up to date.
  unfoldable pub finish : Application → ArgoApplication → Handled
  unfolding with_environment
  finish row app = with_environment row app (answered false none)

  -- By the answer to the Update.
  unfoldable pub updated : Application → Result ArgoApplication → Handled
  unfolding finish
  updated row (ok app) = finish row app
  updated row not_found = answered true (some not_found_text)
  updated row (err e) = answered true (some e)

  -- The fields that are copied are those that the model has of a spec.
  abbrev pub copied : ArgoApplication → ArgoApplication → ArgoApplication
  copied app decoded = record app { spec = decoded.spec }

  unfoldable pub with_difference : Application → ArgoApplication → Option ArgoApplication → Handled
  unfolding updated
  with_difference row app none = answered false none
  with_difference row app (some decoded) =
      let app' = copied app decoded in
      after_effects (update_application app' ∷ []) (updated row (a.update_application app'))

  -- By the answer to the Get of the Application.
  unfoldable pub with_application : Application → Result ArgoApplication → Handled
  unfolding create_application_of with_difference compare_application
  with_application row (ok app) =
      if compare_application a.unmarshal app row.spec_field == ""
      then finish row app
      else with_difference row app (a.unmarshal row.spec_field empty_application)
  with_application row not_found = create_application_of row
  with_application row (err e) = answered true (some e)

  -- By the error of the project.
  unfoldable pub with_project : Application → Handled → Option String → Handled
  unfolding with_application
  with_project row project none =
      after_effects project.effects (with_application row (a.get_application row.name ns))
  with_project row project (some e) = project

  -- By the row, for the id and the owner of the Operation.
  unfoldable pub with_row : String → String → Result Application → Run
  unfolding with_project create_or_update_app_project delete_applications_of_deleted_row
  with_row id user (ok row) =
      let project = create_or_update_app_project (a.removal id).projects user ns in
      done (with_project row project project.error)
  with_row id user not_found = delete_applications_of_deleted_row (a.removal id) user ns id
  with_row id user (err e) = done (answered true (some e))

  -- processOperation_Application
  unfoldable pub process_application : Operation → OperationCr → Run
  unfolding with_row
  process_application op cr =
      if op.resource_id == ""
      then done
          (answered true (some (concat "resource id was nil while processing operation: " cr.name)))
      else with_row op.resource_id op.operation_owner_user_id (a.get_row op.resource_id)
