-- ===== src/Backend/WorkspaceLoop/Handler.antt =====
-- backend/eventloop/workspace_event_loop.go: what the loop does with a message.
use Prim.Native.String.{◌++◌ as concat}
use managed_gitops.Base.{
  ℕ, suc, Bool, true, false, Option, none, some, List, [], ◌∷◌, ◌++◌, String, ◌==◌, if◌then◌else◌,
}
use managed_gitops.Base.Map.{Map, lookup, insert, delete}
use managed_gitops.Backend.Event.{
  EventLoopEvent, work_complete, event_message, status_check, unknown_message, GitOpsResourceType,
  deployment_type, sync_run_type, repository_credential_type, managed_environment_type, no_type,
}
use managed_gitops.Backend.AppLoop
use managed_gitops.Backend.AppLoop.{RequestMessage}
use managed_gitops.Backend.WorkspaceLoop.{
  LoopMessage, WorkspaceMessage, event_received, managed_env_processed, status_ticker, unrecognized,
  Answers, check_if_orphaned, unorphan, World, Sent, requeue, repository_credential,
  managed_environment, notify, Outcome, crashed, blocked, done, sync_response_chan, Answer, crash,
  no_answer, answered, send_request, set_loop,
}

abbrev pub event_request : Option ℕ → Option EventLoopEvent → RequestMessage
event_request c ev = record {
  message_type = event_message;
  event = ev;
  shutdown_signalled = false;
  response_chan = c;
}

abbrev pub status_request : RequestMessage
status_request = record {
  message_type = status_check;
  event = none;
  shutdown_signalled = false;
  response_chan = some sync_response_chan;
}

-- "(namespace UID)-(namespace name)-(GitOpsDeployment name)"
unfoldable pub map_key : World → String → String → String
map_key w namespace deployment =
    concat w.namespace_id (concat "-" (concat namespace (concat "-" deployment)))

-- The loop reads its answer: it forgets an application event loop that has rejected the event, and
-- a goroutine sends the message to itself again.
unfoldable pub on_answer : Answer → String → WorkspaceMessage → List Sent → World → Outcome
on_answer crash key msg sent w = crashed
on_answer no_answer key msg sent w = blocked
on_answer (answered true loops) key msg sent w = done (record w { loops = loops }) sent
on_answer (answered false loops) key msg sent w =
    done (record w { loops = loops; application_map = delete key w.application_map })
      (sent ++ (requeue msg ∷ []))

-- Send the event to the application event loop behind a channel, and wait for the answer.
unfoldable pub send_event :
    ℕ → String → EventLoopEvent → WorkspaceMessage → List Sent → World → Outcome
unfolding on_answer send_request
send_event c key ev msg sent w =
    on_answer (send_request (event_request (some sync_response_chan) (some ev)) c w.loops) key msg
      sent w

-- startApplicationEventQueueLoop, and the entry in the map.
unfoldable pub start_loop : String → World → World
start_loop key w = record w {
  application_map = insert key w.next w.application_map;
  loops = set_loop w.next (some AppLoop.initial) w.loops;
  next = suc w.next;
}

unfoldable pub route :
    Answers → String → EventLoopEvent → WorkspaceMessage → List Sent → World → Outcome
unfolding send_event start_loop map_key
route a deployment ev msg sent w =
    let key = map_key w ev.namespace deployment in
    elim (lookup key w.application_map) [
      | some c ↦ send_event c key ev msg sent w
      | none ↦
          if a.starts then send_event w.next key ev msg sent (start_loop key w) else done w sent
    ]

abbrev pub requeues : List WorkspaceMessage → List Sent
requeues [] = []
requeues (m ∷ ms) = requeue m ∷ requeues ms

-- The part of handleWorkspaceEventLoopMessage after the sanity checks, by the resource type.
unfoldable pub dispatch :
    Answers → GitOpsResourceType → EventLoopEvent → LoopMessage → World → Outcome
unfolding route check_if_orphaned unorphan
dispatch a deployment_type ev m w =
    let (o, again) = unorphan a ev w.orphaned_resources in
    let v = record w { orphaned_resources = o } in
    if ev.name == ""
    then done v (requeues again)
    else route a ev.name ev (event_received m) (requeues again) v
dispatch a repository_credential_type ev m w =
    done w (repository_credential ev.namespace ev.name ∷ [])
dispatch a managed_environment_type ev m w = done w (managed_environment m ∷ [])
dispatch a sync_run_type ev m w =
    let (deployment, o) = check_if_orphaned a ev w.orphaned_resources in
    let v = record w { orphaned_resources = o } in
    if deployment == "" then done v [] else route a deployment ev (event_received m) [] v
dispatch a no_type ev m w = done w []

-- handleWorkspaceEventLoopMessage
unfoldable pub handle_event : Answers → LoopMessage → World → Outcome
unfolding dispatch
handle_event a m w = elim m.event [
  | none ↦ done w []
  | some ev ↦ elim m.message_type [
    | work_complete ↦ done w []
    | event_message ↦ dispatch a ev.req_resource ev m w
    | status_check ↦ dispatch a ev.req_resource ev m w
    | unknown_message ↦ dispatch a ev.req_resource ev m w
  ]
]

-- A goroutine for each entry, which nobody waits for.
unfoldable pub notify_all : Option EventLoopEvent → Map ℕ → List Sent
notify_all ev [] = []
notify_all ev ((key, c) ∷ entries) = notify c (event_request none ev) ∷ notify_all ev entries

-- handleManagedEnvProcessedMessage: `event.Event.Request` is read before the test for nil.
unfoldable pub handle_managed_env_processed : LoopMessage → World → Outcome
unfolding notify_all
handle_managed_env_processed m w = elim m.event [
  | none ↦ crashed
  | some ev ↦ done w (notify_all (some ev) w.application_map)
]

abbrev pub keep_if : Bool → String → Map ℕ → Map ℕ
keep_if true key m = m
keep_if false key m = delete key m

-- The loop of handleStatusTickerMessage over the entries of the map.
unfoldable pub check_entries : Map ℕ → World → Outcome
unfolding send_request
check_entries [] w = done w []
check_entries ((key, c) ∷ entries) w = elim (send_request status_request c w.loops) [
  | crash ↦ crashed
  | no_answer ↦ blocked
  | answered b loops ↦
      check_entries entries
        (record w { loops = loops; application_map = keep_if b key w.application_map })
]

-- processWorkspaceEventLoopMessage
unfoldable pub process_message : Answers → WorkspaceMessage → World → Outcome
unfolding handle_event handle_managed_env_processed check_entries
process_message a (event_received m) w = handle_event a m w
process_message a (managed_env_processed m) w = handle_managed_env_processed m w
process_message a status_ticker w = check_entries w.application_map w
process_message a unrecognized w = done w []
