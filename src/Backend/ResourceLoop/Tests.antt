-- ===== src/Backend/ResourceLoop/Tests.antt =====
-- Witnesses of the workspace resource event loop.
use managed_gitops.Base.{refl, Bool, true, false, none, some}
use managed_gitops.Base.Client.{ok, err}
use managed_gitops.Backend.Event.{
  EventLoopEvent, event_message, managed_environment_modified, managed_environment_type,
}
use managed_gitops.Backend.WorkspaceLoop.{LoopMessage}
use managed_gitops.Backend.ResourceLoop.{Answers, process_managed_environment, perform_task}
use managed_gitops.Backend.ResourceLoop.Attempts.{Attempted, perform_task-Attempted}

-- The cluster answers, or not.
abbrev answers : Bool → Answers
answers up = record {
  get_namespace = λ name. elim up [ true ↦ ok "uid" | false ↦ err "no connection" ];
  reconcile_repository_credential = λ uid name. none;
  reconcile_shared_managed_env = λ uid namespace name. (false, none);
}

abbrev env_event : EventLoopEvent
env_event = record {
  event_type = managed_environment_modified;
  namespace = "team";
  name = "prod";
  req_resource = managed_environment_type;
  workspace_id = "u1";
}

abbrev env_message : LoopMessage
env_message = record { message_type = event_message; event = some env_event }

perform_task-Attempted_example :
    Attempted
      (answers true)
      env_message
      env_event
      (perform_task (answers true) (process_managed_environment env_message true))
perform_task-Attempted_example = perform_task-Attempted (answers true) env_message env_event refl
