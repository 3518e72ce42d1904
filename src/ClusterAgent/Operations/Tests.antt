-- ===== src/ClusterAgent/Operations/Tests.antt =====
-- Attempts at concrete answers.
use managed_gitops.Base.{◌≡◌, ◌≢◌, refl, true, false, none, some, [], ◌∷◌, ◌++◌, ◌==◌}
use managed_gitops.Base.Client.{ok}
use managed_gitops.Util.Operations.{
  waiting, in_progress, failed, OperationResourceType, application_resource,
  gitops_engine_instance_resource, Operation, OperationCr, GitopsEngineInstance, Poll, returned,
  is_concluded, wait_for_operation_to_complete,
}
use managed_gitops.Util.Varchar.{truncate_varchar}
use managed_gitops.ClusterAgent.Resources.{answered, after_effect, reconcile_argocd}
use managed_gitops.ClusterAgent.Operations.{Handlers, Answers, update_row, perform_task}
use managed_gitops.ClusterAgent.Operations.States.{Follows, perform_task-Follows}
use managed_gitops.ClusterAgent.Operations.Conclusion.{
  row_after, IsReadable, Settled, operation_concludes,
}
use managed_gitops.ClusterAgent.Operations.Instances.{engine_instance_never_concludes}

abbrev row : OperationResourceType → Operation
row t = record {
  operation_id = "op-1";
  instance_id = "argo";
  resource_id = "app-1";
  operation_owner_user_id = "user";
  resource_type = t;
  last_state_update = 0;
  state = waiting;
  human_readable_state = "";
}

abbrev cr : OperationCr
cr = record {
  name = "operation-op-1";
  namespace = "argocd";
  operation_id = "op-1";
  periodic_cleanup = false;
}

abbrev argo : GitopsEngineInstance
argo = record {
  gitopsengineinstance_id = "argo";
  namespace_name = "argocd";
  namespace_uid = "uid";
  enginecluster_id = "cluster";
}

abbrev handlers : Handlers
handlers = record {
  application = λ r c ns. answered false (some "no such project");
  managed_environment = λ r c ns. answered false none;
  repository_credentials = λ r c ns. answered true (some "no connection");
  sync_operation = λ r c ns. answered false none;
  engine_instance = λ r c ns. after_effect (reconcile_argocd ns) (answered false none);
}

abbrev answers : OperationResourceType → Answers
answers t = record {
  database_error = none;
  get_cr = ok cr;
  get_row = λ id. ok (row t);
  get_instance = λ id. ok argo;
  update_begun = λ r. none;
  get_kube_system = ok "kube";
  get_cluster = λ uid. ok (some "cluster");
  get_argo_namespace = λ name. ok "uid";
  update_outcome = λ r. none;
  now = 9;
}

abbrev readable : (t : OperationResourceType) → IsReadable (answers t) (row t)
readable t = record {
  cr = cr;
  home = argo;
  connected = refl;
  cr_read = refl;
  row_read = refl;
  home_read = refl;
  same_namespace = refl;
}

abbrev poll : Operation → Poll
poll r = record { row = ok r; done = false }

failed_application :
    (perform_task (answers application_resource) handlers).writes
    ≡ update_row (record (row application_resource) { state = in_progress })
      ∷ update_row (record (row application_resource) {
        state = failed;
        last_state_update = 9;
        human_readable_state = "no such project";
      })
      ∷ []
unfolding perform_task truncate_varchar ◌==◌
failed_application = refl

perform_task-Follows_example :
    Follows
      (some (row application_resource))
      (perform_task (answers application_resource) handlers).writes
perform_task-Follows_example = perform_task-Follows (answers application_resource) handlers

not_an_instance : application_resource ≢ gitops_engine_instance_resource
not_an_instance e = cc e

abbrev concluded : Operation
concluded = record (row application_resource) {
  state = failed;
  last_state_update = 9;
  human_readable_state = "no such project";
}

application_polled :
    (poll concluded).row
    ≡ ok (
        row_after
          (row application_resource)
          (perform_task (answers application_resource) handlers).writes)
unfolding perform_task truncate_varchar ◌==◌
application_polled = refl

application_over :
    ((perform_task (answers application_resource) handlers).panicked ≡ false)
    × ((perform_task (answers application_resource) handlers).retry ≡ false)
unfolding perform_task ◌==◌
application_over = (refl, refl)

operation_concludes_example :
    Settled (row application_resource) (perform_task (answers application_resource) handlers)
    × (wait_for_operation_to_complete
          ((poll (row application_resource) ∷ []) ++ (poll concluded ∷ []))
        ≡ returned none)
operation_concludes_example =
    operation_concludes (answers application_resource) handlers (row application_resource)
      (poll (row application_resource) ∷ []) [] (poll concluded) (readable application_resource)
      not_an_instance application_over.0 application_over.1
      (
        record {
          stored = row application_resource;
          found = refl;
          open_still = refl;
          not_done = refl;
        },
        tt,
      )
      application_polled

abbrev instance_row : Operation
instance_row = record (row gitops_engine_instance_resource) { state = in_progress }

instance_polled :
    (poll instance_row).row
    ≡ ok (
        row_after
          (row gitops_engine_instance_resource)
          (perform_task (answers gitops_engine_instance_resource) handlers).writes)
unfolding perform_task ◌==◌
instance_polled = refl

engine_instance_never_concludes_example :
    (is_concluded
        (row_after
          (row gitops_engine_instance_resource)
          (perform_task (answers gitops_engine_instance_resource) handlers).writes).state
      ≡ false)
    × (wait_for_operation_to_complete (poll instance_row ∷ []) ≡ wait_for_operation_to_complete [])
engine_instance_never_concludes_example =
    engine_instance_never_concludes (answers gitops_engine_instance_resource) handlers
      (row gitops_engine_instance_resource) (poll instance_row) []
      (readable gitops_engine_instance_resource) refl refl refl instance_polled refl
