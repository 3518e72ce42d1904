-- ===== src/Backend/WorkspaceLoop.antt =====
-- backend/eventloop/workspace_event_loop.go: the loop of one API namespace, which hands events to
-- the application event loops of the namespace.
pub mod Orphans
pub mod Handler
pub mod Live
pub mod Delivery
pub mod Rejection
pub mod System
mod Tests
use managed_gitops.Base.{
  ℕ, suc, Bool, true, false, Option, none, some, List, [], ◌∷◌, ◌++◌, not, String, ◌==◌, eqb,
  if◌then◌else◌,
}
use managed_gitops.Base.Map.{Map, lookup, insert, delete}
use managed_gitops.Base.Client.{Result, ok, not_found, err}
use managed_gitops.Backend.Event.{
  EventLoopEvent, EventLoopMessageType, work_complete, event_message, status_check, unknown_message,
  GitOpsResourceType, deployment_type, sync_run_type, repository_credential_type,
  managed_environment_type, no_type,
}
use managed_gitops.Backend.AppLoop
use managed_gitops.Backend.AppLoop.{
  RequestMessage, Effect, respond, to_deployment_runner, to_sync_runner, start_timer, panics,
  returns, process,
}

-- EventLoopMessage; its ShutdownSignalled is not read here.
pub record LoopMessage : Type 0 where
  pub message_type : EventLoopMessageType
  pub event : Option EventLoopEvent

-- workspaceEventLoopMessage, by its type.
pub data WorkspaceMessage : Type 0 where
  event_received managed_env_processed : LoopMessage → WorkspaceMessage
  status_ticker unrecognized : WorkspaceMessage

pub record ApiCrToDatabaseMapping : Type 0 where
  pub db_relation_type : String
  pub db_relation_key : String

-- The answers of the Kubernetes client and of the database during one message.
pub record Answers : Type 0 where
  -- namespace and name, to the name of the deployment that the SyncRun refers to
  pub get_sync_run : String → String → Result String
  -- namespace and name, to the name of the object
  pub get_deployment : String → String → Result String
  -- name, to the UID
  pub get_namespace : String → Result String
  pub connects : Bool
  -- name and namespace of the SyncRun, and UID of the namespace
  pub list_mappings : String → String → String → Option (List ApiCrToDatabaseMapping)
  -- id, to the DeploymentNameField
  pub get_sync_operation : String → Option String
  -- whether startApplicationEventQueueLoop of the factory succeeds
  pub starts : Bool

only_mapping : Answers → List ApiCrToDatabaseMapping → Option String
only_mapping a [] = none
only_mapping a (m ∷ []) =
    if m.db_relation_type == "SyncOperation" then a.get_sync_operation m.db_relation_key else none
only_mapping a (m ∷ m' ∷ ms) = none

-- getDBSyncOperationFromAPIMapping, and the DeploymentNameField of its result.
unfoldable pub get_db_sync_operation : Answers → EventLoopEvent → Option String
unfolding only_mapping
get_db_sync_operation a ev = elim (a.get_namespace ev.namespace) [
  | not_found ↦ none
  | err e ↦ none
  | ok uid ↦ elim (a.list_mappings ev.name ev.namespace uid) [
    | none ↦ none
    | some ms ↦ only_mapping a ms
  ]
]

-- orphanedResources: by the name of a missing deployment, the last event of each SyncRun by name.
abbrev pub Orphans : Type 0
Orphans = Map (Map EventLoopEvent)

abbrev pub or_empty : Option (Map EventLoopEvent) → Map EventLoopEvent
or_empty none = []
or_empty (some m) = m

unfoldable pub add_orphan : String → EventLoopEvent → Orphans → Orphans
add_orphan deployment ev o =
    insert deployment (insert ev.name ev (or_empty (lookup deployment o))) o

abbrev pub is_sync_run : GitOpsResourceType → Bool
is_sync_run sync_run_type = true
is_sync_run _ = false

abbrev or_nothing : Option String → String
or_nothing none = ""
or_nothing (some s) = s

-- The name of the deployment, or "", and the orphans: by the answer to the Get of the deployment.
pub if_orphaned_by_deployment : EventLoopEvent → String → Result String → Orphans → String × Orphans
unfolding add_orphan
if_orphaned_by_deployment ev deployment (ok name) o = (name, o)
if_orphaned_by_deployment ev deployment (err e) o = ("", o)
if_orphaned_by_deployment ev deployment not_found o = ("", add_orphan deployment ev o)

-- By the answer to the Get of the SyncRun.
pub if_orphaned_by_sync_run : Answers → EventLoopEvent → Result String → Orphans → String × Orphans
unfolding get_db_sync_operation if_orphaned_by_deployment
if_orphaned_by_sync_run a ev not_found o =
    (if a.connects then or_nothing (get_db_sync_operation a ev) else "", o)
if_orphaned_by_sync_run a ev (err e) o = ("", o)
if_orphaned_by_sync_run a ev (ok deployment) o =
    if_orphaned_by_deployment ev deployment (a.get_deployment ev.namespace deployment) o

-- checkIfOrphanedGitOpsDeploymentSyncRun, whose first test is on the type of the resource.
unfoldable pub check_if_orphaned : Answers → EventLoopEvent → Orphans → String × Orphans
unfolding if_orphaned_by_sync_run
check_if_orphaned a ev o =
    if is_sync_run ev.req_resource
    then if_orphaned_by_sync_run a ev (a.get_sync_run ev.namespace ev.name) o
    else ("", o)

-- The message by which an orphan is put back.
abbrev pub event_again : EventLoopEvent → WorkspaceMessage
event_again ev = event_received (record { message_type = event_message; event = some ev })

pub requeued_events : Map EventLoopEvent → List WorkspaceMessage
requeued_events [] = []
requeued_events ((name, ev) ∷ waiting) = event_again ev ∷ requeued_events waiting

-- unorphanResourcesIfPossible: the orphans, and the messages that its goroutine sends to the loop.
unfoldable pub unorphan : Answers → EventLoopEvent → Orphans → Orphans × List WorkspaceMessage
unfolding requeued_events
unorphan a ev o = elim (lookup ev.name o) [
  | none ↦ (o, [])
  | some waiting ↦ elim (a.get_deployment ev.namespace ev.name) [
    | not_found ↦ (o, [])
    | err e ↦ (o, [])
    | ok name ↦ (delete ev.name o, requeued_events waiting)
  ]
]

-- The state of the goroutine behind each channel; `none` if it has not started, or has ended.
abbrev pub Loops : Type 0
Loops = ℕ → Option AppLoop.State

abbrev pub set_loop : ℕ → Option AppLoop.State → Loops → Loops
set_loop c s loops d = if eqb d c then s else loops d

-- workspaceEventLoopInternalState, the goroutines that it reaches, and the next new channel.
pub record World : Type 0 where
  pub orphaned_resources : Orphans
  pub application_map : Map ℕ
  pub loops : Loops
  pub next : ℕ
  pub namespace_id : String

-- What a message makes the loop send. A send to the resource loop waits until that loop receives it,
-- which the model does not show; the others are goroutines.
pub data Sent : Type 0 where
  requeue : WorkspaceMessage → Sent
  -- the namespace and the name of the request
  repository_credential : String → String → Sent
  managed_environment : LoopMessage → Sent
  notify : ℕ → RequestMessage → Sent

pub data Outcome : Type 0 where
  -- a nil dereference, here or in an application event loop
  crashed : Outcome
  -- the loop waits for ever on a channel that nobody serves
  blocked : Outcome
  done : World → List Sent → Outcome

abbrev pub sync_response_chan : ℕ
sync_response_chan = 0

abbrev pub first_response : List Effect → Option Bool
first_response [] = none
first_response (respond c b ∷ es) = if eqb c sync_response_chan then some b else first_response es
first_response (to_deployment_runner ev ∷ es) = first_response es
first_response (to_sync_runner ev ∷ es) = first_response es
first_response (start_timer ∷ es) = first_response es

pub data Answer : Type 0 where
  crash no_answer : Answer
  answered : Bool → Loops → Answer

abbrev pub ended : Bool → AppLoop.State → Option AppLoop.State
ended true s = none
ended false s = some s

unfoldable pub answer_of : ℕ → Loops → AppLoop.Outcome → Answer
answer_of c loops panics = crash
answer_of c loops (returns stop s effects) = elim (first_response effects) [
  | none ↦ no_answer
  | some b ↦ answered b (set_loop c (ended stop s) loops)
]

-- `input <- RequestMessage{…}`, and `<-syncResponseChan`
unfoldable pub send_request : RequestMessage → ℕ → Loops → Answer
unfolding answer_of process
send_request m c loops = elim (loops c) [
  | none ↦ no_answer
  | some s ↦ answer_of c loops (process m s)
]
