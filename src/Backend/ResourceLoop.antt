-- ===== src/Backend/ResourceLoop.antt =====
-- backend/eventloop/workspace_resource_event_loop.go: the loop of one API namespace for its
-- repository credentials and managed environments, whose work the task retry loop does.
pub mod Attempts
pub mod Keys
mod Tests
use Prim.Native.String.{◌++◌ as concat}
use managed_gitops.Base.{
  Bool, true, false, Option, none, some, List, [], ◌∷◌, String, if◌then◌else◌,
}
use managed_gitops.Base.Client.{Result, ok, not_found, err}
use managed_gitops.Backend.Event.{EventLoopEvent}
use managed_gitops.Backend.WorkspaceLoop.{LoopMessage, WorkspaceMessage, managed_env_processed}
use managed_gitops.Util.TaskRetry.{Performed, performed, panicked}

pub data ResourceMessageType : Type 0 where
  process_repository_credential_type process_managed_environment_type : ResourceMessageType
  -- a text that is none of the constants
  unknown_type : ResourceMessageType

-- `any`, by what the type assertions of the loop tell apart.
pub data Payload : Type 0 where
  -- ctrl.Request: a namespace and a name
  request : String → String → Payload
  loop_message : LoopMessage → Payload
  other_payload : Payload

-- workspaceResourceLoopMessage
pub record ResourceMessage : Type 0 where
  -- whether the client is not nil
  pub has_client : Bool
  pub message_type : ResourceMessageType
  pub payload : Payload

-- What processRepositoryCredential sends to the loop.
abbrev pub process_repository_credential : String → String → Bool → ResourceMessage
process_repository_credential namespace name client = record {
  has_client = client;
  message_type = process_repository_credential_type;
  payload = request namespace name;
}

-- What processManagedEnvironment sends to the loop.
abbrev pub process_managed_environment : LoopMessage → Bool → ResourceMessage
process_managed_environment m client = record {
  has_client = client;
  message_type = process_managed_environment_type;
  payload = loop_message m;
}

-- What the loop does with a message: it logs an error, or passes a task to the retry loop.
pub data Received : Type 0 where
  crashed skipped : Received
  add_task_if_not_present : String → ResourceMessage → Received

unfoldable pub credential_key : String → String → String
credential_key namespace name = concat "repo-cred-" (concat namespace (concat "-" name))

unfoldable pub environment_key : String → String → String
environment_key namespace name = concat "managed-env-" (concat namespace (concat "-" name))

-- One round of internalWorkspaceResourceEventLoop. The key of a managed environment is read from
-- the event of the message, which may be nil.
unfoldable pub receive : ResourceMessage → Received
unfolding credential_key environment_key
receive m = elim m.message_type [
  | process_repository_credential_type ↦ elim m.payload [
    | request namespace name ↦ add_task_if_not_present (credential_key namespace name) m
    | loop_message l ↦ skipped
    | other_payload ↦ skipped
  ]
  | process_managed_environment_type ↦ elim m.payload [
    | request namespace name ↦ skipped
    | loop_message l ↦ elim l.event [
      | none ↦ crashed
      | some ev ↦ add_task_if_not_present (environment_key ev.namespace ev.name) m
    ]
    | other_payload ↦ skipped
  ]
  | unknown_type ↦ skipped
]

-- The answers of the Kubernetes client and of the shared resource loop during one attempt.
pub record Answers : Type 0 where
  -- name, to the UID
  pub get_namespace : String → Result String
  -- UID of the namespace, and name of the resource, to the error
  pub reconcile_repository_credential : String → String → Option String
  -- UID and name of the namespace, and name of the resource, to isUserErr and the error
  pub reconcile_shared_managed_env : String → String → String → Bool × Option String

abbrev pub retry : Bool
retry = true

abbrev pub no_retry : Bool
no_retry = false

-- How a handler ends: whether to retry, the error, and what its goroutine sends to the workspace
-- event loop.
pub data Handled : Type 0 where
  panics : Handled
  returns : Bool → Option String → List WorkspaceMessage → Handled

-- By the error of ReconcileRepositoryCredential.
pub credential_reconciled : Option String → Handled
credential_reconciled none = returns no_retry none []
credential_reconciled (some e) =
    returns retry (some (concat "unable to reconcile repository credential. Error: " e)) []

-- By the answer to the Get of the namespace.
pub credential_in : Answers → String → Result String → Handled
unfolding credential_reconciled
credential_in a name (err e) =
    returns retry (some (concat "unexpected error in retrieving repo credentials: " e)) []
credential_in a name not_found = returns no_retry none []
credential_in a name (ok uid) = credential_reconciled (a.reconcile_repository_credential uid name)

abbrev invalid_credential : Handled
invalid_credential =
    returns no_retry
      (some "invalid RepositoryCredential payload in processWorkspaceResourceMessage") []

-- handleResourceLoopRepositoryCredential
unfoldable pub handle_repository_credential : Answers → Payload → Handled
unfolding credential_in
handle_repository_credential a (request namespace name) =
    credential_in a name (a.get_namespace namespace)
handle_repository_credential a (loop_message l) = invalid_credential
handle_repository_credential a other_payload = invalid_credential

-- By isUserErr and the error of ReconcileSharedManagedEnv.
pub environment_reconciled : LoopMessage → Bool × Option String → Handled
environment_reconciled m (user_error, none) = returns no_retry none (managed_env_processed m ∷ [])
environment_reconciled m (true, some e) = returns no_retry none []
environment_reconciled m (false, some e) =
    returns retry (some (concat "unable to reconcile shared managed env: " e)) []

-- By the answer to the Get of the namespace.
pub environment_in : Answers → LoopMessage → EventLoopEvent → Result String → Handled
unfolding environment_reconciled
environment_in a m ev (err e) =
    returns retry (some (concat "unexpected error in retrieving namespace of managed env CR: " e))
      []
environment_in a m ev not_found = returns no_retry none []
environment_in a m ev (ok uid) =
    environment_reconciled m (a.reconcile_shared_managed_env uid ev.namespace ev.name)

abbrev invalid_environment : Handled
invalid_environment =
    returns no_retry (some "invalid ManagedEnvironment payload in processWorkspaceResourceMessage")
      []

-- handleResourceLoopManagedEnvironment: the test for a nil event only logs.
unfoldable pub handle_managed_environment : Answers → Payload → Handled
unfolding environment_in
handle_managed_environment a (request namespace name) = invalid_environment
handle_managed_environment a (loop_message m) = elim m.event [
  | none ↦ panics
  | some ev ↦ environment_in a m ev (a.get_namespace ev.namespace)
]
handle_managed_environment a other_payload = invalid_environment

-- The error of a handler, wrapped; without one there is no retry.
abbrev pub wrapped : Handled → Handled
wrapped panics = panics
wrapped (returns again none sent) = returns no_retry none sent
wrapped (returns again (some e) sent) =
    returns again (some (concat "failed to process workspace resource message: " e)) sent

-- internalProcessWorkspaceResourceMessage
unfoldable pub process_resource_message : Answers → ResourceMessage → Handled
unfolding handle_repository_credential handle_managed_environment
process_resource_message a m =
    if m.has_client
    then elim m.message_type [
      | process_repository_credential_type ↦ wrapped (handle_repository_credential a m.payload)
      | process_managed_environment_type ↦ wrapped (handle_managed_environment a m.payload)
      | unknown_type ↦
          returns no_retry (some "SEVERE: unrecognized sharedResourceLoopMessageType") []
    ]
    else returns no_retry (some "invalid namespace client") []

-- PerformTask, which logs the error and returns nil in its place; and what was sent.
abbrev pub outcome : Handled → Performed × List WorkspaceMessage
outcome panics = (panicked "nil pointer dereference", [])
outcome (returns again e sent) = (performed again none, sent)

unfoldable pub perform_task : Answers → ResourceMessage → Performed × List WorkspaceMessage
unfolding process_resource_message
perform_task a m = outcome (process_resource_message a m)
