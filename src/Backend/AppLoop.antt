-- ===== src/Backend/AppLoop.antt =====
-- backend/eventloop/application_event_loop/application_event_loop.go: the loop of one application.
-- Sends to channels and new timers are effects, in the order of the code; `none` is a panic on a
-- nil pointer. A channel is a number.
pub mod Sound
pub mod Replies
pub mod Queues
pub mod Exclusive
pub mod Ending
mod Tests
use managed_gitops.Base.{
  ℕ, Bool, true, false, Option, none, some, List, [], ◌∷◌, ◌++◌, ◌&&◌, not, if◌then◌else◌, is_nil,
  is_some,
}
use managed_gitops.Backend.Event.{
  EventLoopEvent, EventLoopMessageType, work_complete, event_message, status_check, unknown_message,
  GitOpsResourceType, deployment_type, sync_run_type, repository_credential_type,
  managed_environment_type, no_type, is_tick,
}

-- RequestMessage, with the fields of its EventLoopMessage.
pub record RequestMessage : Type 0 where
  pub message_type : EventLoopMessageType
  pub event : Option EventLoopEvent
  pub shutdown_signalled : Bool
  pub response_chan : Option ℕ

pub record State : Type 0 where
  pub active_deployment_event : Option RequestMessage
  pub waiting_deployment_events : List RequestMessage
  pub active_sync_operation_event : Option RequestMessage
  pub waiting_sync_operation_events : List RequestMessage
  pub deployment_event_runner_shutdown : Bool
  pub sync_operation_event_runner_shutdown : Bool

pub data Effect : Type 0 where
  respond : ℕ → Bool → Effect
  to_deployment_runner : EventLoopEvent → Effect
  to_sync_runner : EventLoopEvent → Effect
  start_timer : Effect

pub data Outcome : Type 0 where
  panics : Outcome
  -- the result of processApplicationEventQueueLoopMessage: terminate or not
  returns : Bool → State → List Effect → Outcome

-- The state that applicationEventQueueLoop starts with; it also starts a first timer.
unfoldable pub initial : State
initial = record {
  active_deployment_event = none;
  waiting_deployment_events = [];
  active_sync_operation_event = none;
  waiting_sync_operation_events = [];
  deployment_event_runner_shutdown = false;
  sync_operation_event_runner_shutdown = false;
}

pub add_deployment : RequestMessage → State → State
add_deployment m s =
    if not s.deployment_event_runner_shutdown
    then record s { waiting_deployment_events = s.waiting_deployment_events ++ (m ∷ []) }
    else s

pub add_sync : RequestMessage → State → State
add_sync m s =
    if not s.sync_operation_event_runner_shutdown
    then record s { waiting_sync_operation_events = s.waiting_sync_operation_events ++ (m ∷ []) }
    else s

-- The ladder on ReqResource for an accepted event.
pub enqueue : GitOpsResourceType → EventLoopEvent → RequestMessage → State → State
unfolding add_deployment add_sync
enqueue deployment_type ev m s = add_deployment m s
enqueue sync_run_type ev m s = add_sync m s
enqueue managed_environment_type ev m s = add_deployment m s
enqueue repository_credential_type ev m s = if is_tick ev.event_type then add_deployment m s else s
enqueue no_type ev m s = if is_tick ev.event_type then add_deployment m s else s

-- `state.activeDeploymentEvent.Message` is read, then the slot is cleared. (The comparison by
-- EventsMatch is only logged.)
pub complete_deployment : RequestMessage → State → Option State
complete_deployment m s = elim s.active_deployment_event [
  | none ↦ none
  | some a ↦ some (record s {
    active_deployment_event = none;
    deployment_event_runner_shutdown = m.shutdown_signalled;
  })
]

pub complete_sync : RequestMessage → State → Option State
complete_sync m s = elim s.active_sync_operation_event [
  | none ↦ none
  | some a ↦ some (record s {
    active_sync_operation_event = none;
    sync_operation_event_runner_shutdown = m.shutdown_signalled;
  })
]

pub complete_by : GitOpsResourceType → RequestMessage → State → Option State
unfolding complete_deployment complete_sync
complete_by deployment_type m s = complete_deployment m s
complete_by managed_environment_type m s = complete_deployment m s
complete_by sync_run_type m s = complete_sync m s
complete_by repository_credential_type m s = some s
complete_by no_type m s = some s

-- The state after a completed piece of work, and whether a timer is started.
pub complete : EventLoopEvent → RequestMessage → State → Option (State × List Effect)
unfolding complete_by
complete ev m s =
    if is_tick ev.event_type
    then some (record s { active_deployment_event = none }, start_timer ∷ [])
    else elim (complete_by ev.req_resource m s) [ none ↦ none | some s' ↦ some (s', []) ]

-- Send the head of the queue to the runner; its Event is dereferenced.
send_deployment : List RequestMessage → State → Option (State × List Effect)
send_deployment [] s = some (s, [])
send_deployment (m ∷ ms) s = elim m.event [
  | none ↦ none
  | some ev ↦ some (
    record s { active_deployment_event = some m; waiting_deployment_events = ms },
    to_deployment_runner ev ∷ [],
  )
]

send_sync : List RequestMessage → State → Option (State × List Effect)
send_sync [] s = some (s, [])
send_sync (m ∷ ms) s = elim m.event [
  | none ↦ none
  | some ev ↦ some (
    record s { active_sync_operation_event = some m; waiting_sync_operation_events = ms },
    to_sync_runner ev ∷ [],
  )
]

pub pump_deployment : State → Option (State × List Effect)
unfolding send_deployment
pump_deployment s =
    if not (is_some s.active_deployment_event) && not s.deployment_event_runner_shutdown
    then send_deployment s.waiting_deployment_events s
    else some (s, [])

pub pump_sync : State → Option (State × List Effect)
unfolding send_sync
pump_sync s =
    if not (is_some s.active_sync_operation_event) && not s.sync_operation_event_runner_shutdown
    then send_sync s.waiting_sync_operation_events s
    else some (s, [])

-- "If the deployment runner has shutdown, and there are no active or waiting sync operation
-- events, then it is safe to shut down the sync runner too."
pub close_sync : State → State
close_sync s =
    if s.deployment_event_runner_shutdown
      && is_nil s.waiting_sync_operation_events
      && not (is_some s.active_sync_operation_event)
      && not s.sync_operation_event_runner_shutdown
    then record s { sync_operation_event_runner_shutdown = true }
    else s

-- The part below the ladder on the message type, after the effects so far.
pub finish : List Effect → State → Outcome
finish before s = elim (pump_deployment s) [
  | none ↦ panics
  | some (t, first) ↦ elim (pump_sync t) [
    | none ↦ panics
    | some (u, second) ↦ returns false (close_sync u) (before ++ (first ++ second))
  ]
]

abbrev pub work_rejected : State → Bool
work_rejected s = s.deployment_event_runner_shutdown && s.sync_operation_event_runner_shutdown

unfoldable pub on_event : EventLoopEvent → RequestMessage → State → Outcome
unfolding finish
on_event ev m s = elim m.response_chan [
  | some c ↦
      if work_rejected s
      then returns true s (respond c false ∷ [])
      else finish (respond c true ∷ []) (enqueue ev.req_resource ev m s)
  | none ↦
      if work_rejected s then returns false s [] else finish [] (enqueue ev.req_resource ev m s)
]

pub on_complete : EventLoopEvent → RequestMessage → State → Outcome
unfolding finish
on_complete ev m s = elim (complete ev m s) [ none ↦ panics | some (t, effects) ↦ finish effects t ]

pub on_status : RequestMessage → State → Outcome
unfolding finish
on_status m s = elim m.response_chan [
  | none ↦ returns false s []
  | some c ↦
      if work_rejected s
      then returns true s (respond c false ∷ [])
      else finish (respond c true ∷ []) s
]

by_event : EventLoopMessageType → Option EventLoopEvent → RequestMessage → State → Outcome
by_event event_message none m s = returns false s []
by_event event_message (some ev) m s = on_event ev m s
by_event work_complete none m s = returns false s []
by_event work_complete (some ev) m s = on_complete ev m s
by_event status_check e m s = on_status m s
by_event unknown_message e m s = finish [] s

-- processApplicationEventQueueLoopMessage
unfoldable pub process : RequestMessage → State → Outcome
unfolding by_event
process m s = by_event m.message_type m.event m s
