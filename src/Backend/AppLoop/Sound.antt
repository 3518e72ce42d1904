-- ===== src/Backend/AppLoop/Sound.antt =====
-- The states of the application event loop from which it does not panic: application_event_loop.go.
use managed_gitops.Base.{
  ◌≡◌, refl, Bool, true, false, Option, none, some, List, [], ◌∷◌, is_some, ◌⊎◌, inl, inr, arith,
  All, All-append, Bool-cases, Option-cases, if◌then◌else◌,
}
use managed_gitops.Backend.Event.{
  EventLoopEvent, EventLoopMessageType, work_complete, event_message, status_check, unknown_message,
  GitOpsResourceType, deployment_type, sync_run_type, repository_credential_type,
  managed_environment_type, no_type, is_tick,
}
use managed_gitops.Backend.AppLoop.{
  RequestMessage, State, Effect, respond, Outcome, panics, returns, initial, add_deployment,
  add_sync, enqueue, complete, pump_deployment, pump_sync, close_sync, finish, on_event,
  on_complete, on_status, by_event, process,
}

abbrev pub HasEvent : RequestMessage → Type 0
HasEvent m = is_some m.event ≡ true

-- What holds also in the middle of a message: queued messages have an event, and a runner that
-- has shut down has no active event.
pub record IsReady (s : State) : Type 0 where
  pub deployment_events : All HasEvent s.waiting_deployment_events
  pub sync_events : All HasEvent s.waiting_sync_operation_events
  pub deployment_idle :
      (s.deployment_event_runner_shutdown ≡ false) ⊎ (s.active_deployment_event ≡ none)
  pub sync_idle :
      (s.sync_operation_event_runner_shutdown ≡ false) ⊎ (s.active_sync_operation_event ≡ none)

-- What holds between two messages: besides, a runner is busy, or has shut down, or has nothing to
-- do; and once the deployment runner has shut down, the sync runner is busy or has shut down.
pub record IsSound (s : State) : Type 0 where
  pub ready : IsReady s
  pub deployment_working :
      (is_some s.active_deployment_event ≡ true)
      ⊎ (s.deployment_event_runner_shutdown ≡ true)
      ⊎ (s.waiting_deployment_events ≡ [])
  pub sync_working :
      (is_some s.active_sync_operation_event ≡ true)
      ⊎ (s.sync_operation_event_runner_shutdown ≡ true)
      ⊎ (s.waiting_sync_operation_events ≡ [])
  pub closing :
      (s.deployment_event_runner_shutdown ≡ false)
      ⊎ (s.sync_operation_event_runner_shutdown ≡ true)
      ⊎ (is_some s.active_sync_operation_event ≡ true)

abbrev pub Good : Outcome → Type 0
Good panics = ⊥
Good (returns t s effects) = IsSound s

abbrev pub is_tick_request : Option RequestMessage → Bool
is_tick_request none = false
is_tick_request (some m) = elim m.event [ none ↦ false | some ev ↦ is_tick ev.event_type ]

-- A work-complete message answers the event that its runner is working on.
abbrev AnswersResource : GitOpsResourceType → State → Type 0
AnswersResource deployment_type s =
    (is_some s.active_deployment_event ≡ true) × (is_tick_request s.active_deployment_event ≡ false)
AnswersResource managed_environment_type s =
    (is_some s.active_deployment_event ≡ true) × (is_tick_request s.active_deployment_event ≡ false)
AnswersResource sync_run_type s = (is_some s.active_sync_operation_event ≡ true) × (Unit {0})
AnswersResource repository_credential_type s = ⊥ × ⊥
AnswersResource no_type s = ⊥ × ⊥

abbrev AnswersEvent : EventLoopEvent → State → Type 0
AnswersEvent ev s =
    if is_tick ev.event_type
    then (is_some s.active_deployment_event ≡ true)
      × (is_tick_request s.active_deployment_event ≡ true)
    else AnswersResource ev.req_resource s

abbrev pub Answers : EventLoopMessageType → Option EventLoopEvent → State → Type 0
Answers work_complete (some ev) s = AnswersEvent ev s
Answers work_complete none s = Unit × Unit
Answers event_message e s = Unit × Unit
Answers status_check e s = Unit × Unit
Answers unknown_message e s = Unit × Unit

pub initial-IsSound : IsSound initial
unfolding initial
initial-IsSound = ground arith

abbrev Ensures : (State → Type 0) → Option (State × List Effect) → Type 0
Ensures P none = ⊥
Ensures P (some (t, effects)) = P t

Ensures-some :
    (P : State → Type 0) (o : Option (State × List Effect))
    → Ensures P o
    → (t : State) × (effects : List Effect) × (o ≡ some (t, effects)) × P t
Ensures-some P none h = absurd h
Ensures-some P (some (t, effects)) h = (t, effects, refl, h)

abbrev DeploymentWorks : State → Type 0
DeploymentWorks s =
    (is_some s.active_deployment_event ≡ true)
    ⊎ (s.deployment_event_runner_shutdown ≡ true)
    ⊎ (s.waiting_deployment_events ≡ [])

abbrev SyncWorks : State → Type 0
SyncWorks s =
    (is_some s.active_sync_operation_event ≡ true)
    ⊎ (s.sync_operation_event_runner_shutdown ≡ true)
    ⊎ (s.waiting_sync_operation_events ≡ [])

pump_deployment-Ensures :
    (s : State) → IsReady s → Ensures (λ t. IsReady t × DeploymentWorks t) (pump_deployment s)
unfolding pump_deployment
pump_deployment-Ensures s r = ground arith

pump_sync-Ensures :
    (s : State)
    → IsReady s × DeploymentWorks s
    → Ensures (λ t. IsReady t × DeploymentWorks t × SyncWorks t) (pump_sync s)
unfolding pump_sync
pump_sync-Ensures s r = ground arith

close_sync-IsSound :
    (s : State) → IsReady s × DeploymentWorks s × SyncWorks s → IsSound (close_sync s)
unfolding close_sync
close_sync-IsSound s r = ground arith

finish-Good : (before : List Effect) (s : State) → IsReady s → Good (finish before s)
unfolding finish
finish-Good before s r =
    let (t, e, p, q) = Ensures-some _ (pump_deployment s) (pump_deployment-Ensures s r) in
    let (u, f, p', q') = Ensures-some _ (pump_sync t) (pump_sync-Ensures t q) in
    rw (p, finish) (rw (p', finish) (close_sync-IsSound u q'))

add_deployment-IsReady :
    (ev : EventLoopEvent) (m : RequestMessage) (s : State)
    → m.event ≡ some ev
    → IsReady s
    → IsReady (add_deployment m s)
unfolding add_deployment
add_deployment-IsReady ev m s h r =
    let old =
      All-append HasEvent s.waiting_deployment_events (m ∷ []) r.deployment_events
        (rw h refl, tt) in
    ground (arith, old)

add_sync-IsReady :
    (ev : EventLoopEvent) (m : RequestMessage) (s : State)
    → m.event ≡ some ev
    → IsReady s
    → IsReady (add_sync m s)
unfolding add_sync
add_sync-IsReady ev m s h r =
    let old =
      All-append HasEvent s.waiting_sync_operation_events (m ∷ []) r.sync_events (rw h refl, tt) in
    ground (arith, old)

enqueue-IsReady :
    (g : GitOpsResourceType) (ev : EventLoopEvent) (m : RequestMessage) (s : State)
    → m.event ≡ some ev
    → IsReady s
    → IsReady (enqueue g ev m s)
unfolding enqueue
enqueue-IsReady deployment_type ev m s h r = add_deployment-IsReady ev m s h r
enqueue-IsReady sync_run_type ev m s h r = add_sync-IsReady ev m s h r
enqueue-IsReady managed_environment_type ev m s h r = add_deployment-IsReady ev m s h r
enqueue-IsReady repository_credential_type ev m s h r = elim (Bool-cases (is_tick ev.event_type)) [
  | inl e ↦ rw e (add_deployment-IsReady ev m s h r)
  | inr e ↦ rw e r
]
enqueue-IsReady no_type ev m s h r = elim (Bool-cases (is_tick ev.event_type)) [
  | inl e ↦ rw e (add_deployment-IsReady ev m s h r)
  | inr e ↦ rw e r
]

on_event-Good :
    (ev : EventLoopEvent) (m : RequestMessage) (s : State)
    → m.event ≡ some ev
    → IsSound s
    → Good (on_event ev m s)
unfolding on_event
on_event-Good ev m s h v =
    let r = enqueue-IsReady ev.req_resource ev m s h v.ready in
    elim (Option-cases m.response_chan) [
      | inl e ↦ rw (e, on_event) (ground (arith, finish-Good [] (enqueue ev.req_resource ev m s) r))
      | inr (c, e) ↦
          rw (e, on_event)
            (ground (arith, finish-Good (respond c true ∷ []) (enqueue ev.req_resource ev m s) r))
    ]

complete-Ensures :
    (ev : EventLoopEvent) (m : RequestMessage) (s : State)
    → IsReady s
    → AnswersEvent ev s
    → Ensures IsReady (complete ev m s)
unfolding complete
complete-Ensures ev m s r a = ground arith

on_complete-Good :
    (ev : EventLoopEvent) (m : RequestMessage) (s : State)
    → IsSound s
    → AnswersEvent ev s
    → Good (on_complete ev m s)
unfolding on_complete
on_complete-Good ev m s v a =
    let (t, e, p, q) = Ensures-some _ (complete ev m s) (complete-Ensures ev m s v.ready a) in
    rw (p, on_complete) (finish-Good e t q)

on_status-Good : (m : RequestMessage) (s : State) → IsSound s → Good (on_status m s)
unfolding on_status
on_status-Good m s v = elim (Option-cases m.response_chan) [
  | inl e ↦ rw (e, on_status) v
  | inr (c, e) ↦ rw (e, on_status) (ground (arith, finish-Good (respond c true ∷ []) s v.ready))
]

by_event-Good :
    (t : EventLoopMessageType) (e : Option EventLoopEvent) (m : RequestMessage) (s : State)
    → m.event ≡ e
    → IsSound s
    → Answers t e s
    → Good (by_event t e m s)
unfolding by_event
by_event-Good event_message none m s h v a = v
by_event-Good event_message (some ev) m s h v a = on_event-Good ev m s h v
by_event-Good work_complete none m s h v a = v
by_event-Good work_complete (some ev) m s h v a = on_complete-Good ev m s v a
by_event-Good status_check e m s h v a = on_status-Good m s v
by_event-Good unknown_message e m s h v a = finish-Good [] s v.ready

-- From a sound state, a message that answers the event its runner works on (every message but a
-- work-complete one does) never makes the loop panic, and leaves it in a sound state: no runner
-- is idle while an event waits for it, and once the deployment runner has shut down, the sync
-- runner is busy or has shut down.
pub process-IsSound :
    (m : RequestMessage) (s : State)
    → IsSound s
    → Answers m.message_type m.event s
    → Good (process m s)
unfolding process
process-IsSound m s v a = by_event-Good m.message_type m.event m s refl v a
