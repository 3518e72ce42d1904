-- ===== src/Backend/AppLoop/Queues.antt =====
-- The order of the queues of the application event loop: application_event_loop.go.
use managed_gitops.Base.{
  ◌≡◌, refl, sym, Bool, true, false, Option, none, some, List, [], ◌∷◌, ◌++◌, ◌&&◌, not, inl, inr,
  arith, map, if◌then◌else◌, Bool-cases, Option-cases,
}
use mathlib.Core.List.{append_assoc, append-nil}
use managed_gitops.Backend.Event.{
  EventLoopEvent, EventLoopMessageType, work_complete, event_message, status_check, unknown_message,
  deployment_type, sync_run_type, repository_credential_type, managed_environment_type, no_type,
  is_tick,
}
use managed_gitops.Backend.AppLoop.{
  RequestMessage, State, Effect, respond, to_deployment_runner, to_sync_runner, start_timer,
  Outcome, panics, returns, enqueue, work_rejected, complete, pump_deployment, pump_sync,
  close_sync, finish, on_event, on_complete, on_status, by_event, process,
}

-- The events that a list of effects hands to each runner.
abbrev pub deployment_sends : List Effect → List (Option EventLoopEvent)
deployment_sends [] = []
deployment_sends (to_deployment_runner ev ∷ es) = some ev ∷ deployment_sends es
deployment_sends (to_sync_runner ev ∷ es) = deployment_sends es
deployment_sends (respond c b ∷ es) = deployment_sends es
deployment_sends (start_timer ∷ es) = deployment_sends es

abbrev pub sync_sends : List Effect → List (Option EventLoopEvent)
sync_sends [] = []
sync_sends (to_deployment_runner ev ∷ es) = sync_sends es
sync_sends (to_sync_runner ev ∷ es) = some ev ∷ sync_sends es
sync_sends (respond c b ∷ es) = sync_sends es
sync_sends (start_timer ∷ es) = sync_sends es

abbrev pub events : List RequestMessage → List (Option EventLoopEvent)
events = map (λ m. m.event)

-- Which runner an event is for.
abbrev pub for_deployment : EventLoopEvent → Bool
for_deployment ev = elim ev.req_resource [
  | deployment_type ↦ true
  | managed_environment_type ↦ true
  | sync_run_type ↦ false
  | repository_credential_type ↦ is_tick ev.event_type
  | no_type ↦ is_tick ev.event_type
]

abbrev pub for_sync : EventLoopEvent → Bool
for_sync ev = elim ev.req_resource [ sync_run_type ↦ true | _ ↦ false ]

-- The events that a message adds to each queue: an event message, if the runner takes more.
abbrev pub added_deployment :
    EventLoopMessageType → Option EventLoopEvent → State → List (Option EventLoopEvent)
added_deployment event_message (some ev) s =
    if for_deployment ev && not s.deployment_event_runner_shutdown then some ev ∷ [] else []
added_deployment event_message none s = []
added_deployment work_complete e s = []
added_deployment status_check e s = []
added_deployment unknown_message e s = []

abbrev pub added_sync :
    EventLoopMessageType → Option EventLoopEvent → State → List (Option EventLoopEvent)
added_sync event_message (some ev) s =
    if for_sync ev && not s.sync_operation_event_runner_shutdown then some ev ∷ [] else []
added_sync event_message none s = []
added_sync work_complete e s = []
added_sync status_check e s = []
added_sync unknown_message e s = []

-- From the events `before` and `before'` that wait, the outcome sends some, in order, and keeps
-- the rest.
abbrev pub KeepsOrder :
    List (Option EventLoopEvent) → List (Option EventLoopEvent) → Outcome → Type 0
KeepsOrder before before' panics = Unit × Unit
KeepsOrder before before' (returns t u e) =
    (deployment_sends e ++ events u.waiting_deployment_events ≡ before)
    × (sync_sends e ++ events u.waiting_sync_operation_events ≡ before')

abbrev KeepsOrder? : State → Option (State × List Effect) → Type 0
KeepsOrder? s none = Unit × Unit
KeepsOrder? s (some (t, e)) =
    (deployment_sends e ++ events t.waiting_deployment_events ≡ events s.waiting_deployment_events)
    × (sync_sends e ++ events t.waiting_sync_operation_events
        ≡ events s.waiting_sync_operation_events)

pump_deployment-order : (s : State) → KeepsOrder? s (pump_deployment s)
unfolding pump_deployment
pump_deployment-order s = ground arith

pump_sync-order : (s : State) → KeepsOrder? s (pump_sync s)
unfolding pump_sync
pump_sync-order s = ground arith

pub deployment_sends-append :
    (xs ys : List Effect) → deployment_sends (xs ++ ys) ≡ deployment_sends xs ++ deployment_sends ys
deployment_sends-append [] ys = refl
deployment_sends-append (to_deployment_runner ev ∷ xs) ys = rw (deployment_sends-append xs ys)
deployment_sends-append (to_sync_runner ev ∷ xs) ys = deployment_sends-append xs ys
deployment_sends-append (respond c b ∷ xs) ys = deployment_sends-append xs ys
deployment_sends-append (start_timer ∷ xs) ys = deployment_sends-append xs ys

pub sync_sends-append :
    (xs ys : List Effect) → sync_sends (xs ++ ys) ≡ sync_sends xs ++ sync_sends ys
sync_sends-append [] ys = refl
sync_sends-append (to_deployment_runner ev ∷ xs) ys = sync_sends-append xs ys
sync_sends-append (to_sync_runner ev ∷ xs) ys = rw (sync_sends-append xs ys)
sync_sends-append (respond c b ∷ xs) ys = sync_sends-append xs ys
sync_sends-append (start_timer ∷ xs) ys = sync_sends-append xs ys

close_sync-queues :
    (s : State)
    → ((close_sync s).waiting_deployment_events ≡ s.waiting_deployment_events)
      × ((close_sync s).waiting_sync_operation_events ≡ s.waiting_sync_operation_events)
unfolding close_sync
close_sync-queues s = ground arith

-- Effects before the queues are served send nothing.
abbrev pub IsQuiet : List Effect → Type 0
IsQuiet e = (deployment_sends e ≡ []) × (sync_sends e ≡ [])

pumped-order :
    (s : State) (o : Option (State × List Effect)) {t : State} {e : List Effect}
    → o ≡ some (t, e)
    → KeepsOrder? s o
    → KeepsOrder? s (some (t, e))
pumped-order s o p h = rw p at h

served :
    (b e f : List Effect) (s t u : State)
    → IsQuiet b
    → KeepsOrder? s (some (t, e))
    → KeepsOrder? t (some (u, f))
    → KeepsOrder
        (events s.waiting_deployment_events)
        (events s.waiting_sync_operation_events)
        (returns false (close_sync u) (b ++ (e ++ f)))
served b e f s t u q h k =
    let c = close_sync-queues u in
    (
      rw (c.0, deployment_sends-append b (e ++ f), q.0, deployment_sends-append e f)
          (rw append_assoc (rw (k.0) (h.0))),
      rw (c.1, sync_sends-append b (e ++ f), q.1, sync_sends-append e f)
          (rw append_assoc (rw (k.1) (h.1))),
    )

finish-order :
    (before : List Effect) (s : State)
    → IsQuiet before
    → KeepsOrder
        (events s.waiting_deployment_events)
        (events s.waiting_sync_operation_events)
        (finish before s)
unfolding finish
finish-order before s quiet = elim (Option-cases (pump_deployment s)) [
  | inl p ↦ rw (p, finish) (tt, tt)
  | inr (r, p) ↦ elim (Option-cases (pump_sync r.0)) [
    | inl q ↦ rw (p, finish) (rw (q, finish) (tt, tt))
    | inr (w, q) ↦
        rw (p, finish)
          (rw (q, finish)
            (served before r.1 w.1 s r.0 w.0 quiet
              (pumped-order s (pump_deployment s) p (pump_deployment-order s))
              (pumped-order r.0 (pump_sync r.0) q (pump_sync-order r.0))))
  ]
]

events-append :
    (ms : List RequestMessage) (m : RequestMessage) (ev : EventLoopEvent)
    → m.event ≡ some ev
    → events (ms ++ (m ∷ [])) ≡ events ms ++ (some ev ∷ [])
events-append [] m ev h = ground arith
events-append (x ∷ ms) m ev h = rw (events-append ms m ev h)

enqueue-order :
    (ev : EventLoopEvent) (m : RequestMessage) (s : State)
    → m.event ≡ some ev
    → let t = enqueue ev.req_resource ev m s in
      (events t.waiting_deployment_events
        ≡ events s.waiting_deployment_events ++ added_deployment event_message (some ev) s)
      × (events t.waiting_sync_operation_events
          ≡ events s.waiting_sync_operation_events ++ added_sync event_message (some ev) s)
unfolding enqueue
enqueue-order ev m s h = ground (
  arith,
  events-append s.waiting_deployment_events m ev h,
  events-append s.waiting_sync_operation_events m ev h,
  append-nil (events s.waiting_deployment_events),
  append-nil (events s.waiting_sync_operation_events),
)

complete-order :
    (ev : EventLoopEvent) (m : RequestMessage) (s t : State) (e : List Effect)
    → complete ev m s ≡ some (t, e)
    → IsQuiet e
      × (t.waiting_deployment_events ≡ s.waiting_deployment_events)
      × (t.waiting_sync_operation_events ≡ s.waiting_sync_operation_events)
unfolding complete
complete-order ev m s t e h = ground arith

-- A message that finds both runners shut down adds nothing.
unserved :
    (s : State) (ev : EventLoopEvent)
    → work_rejected s ≡ true
    → (events s.waiting_deployment_events
        ≡ events s.waiting_deployment_events ++ added_deployment event_message (some ev) s)
      × (events s.waiting_sync_operation_events
          ≡ events s.waiting_sync_operation_events ++ added_sync event_message (some ev) s)
unserved s ev b = ground (
  arith,
  append-nil (events s.waiting_deployment_events),
  append-nil (events s.waiting_sync_operation_events),
)

on_event-order :
    (ev : EventLoopEvent) (m : RequestMessage) (s : State)
    → m.event ≡ some ev
    → KeepsOrder
        (events s.waiting_deployment_events ++ added_deployment event_message (some ev) s)
        (events s.waiting_sync_operation_events ++ added_sync event_message (some ev) s)
        (on_event ev m s)
unfolding on_event
on_event-order ev m s h =
    let (d, y) = enqueue-order ev m s h in
    let t : State = enqueue ev.req_resource ev m s in
    elim (Option-cases m.response_chan) [
      | inl e ↦
          rw (e, on_event)
            (elim (Bool-cases (work_rejected s)) [
              | inl b ↦ rw b (unserved s ev b)
              | inr b ↦ rw b (rw (← d, ← y) (finish-order [] t (refl, refl)))
            ])
      | inr (c, e) ↦
          rw (e, on_event)
            (elim (Bool-cases (work_rejected s)) [
              | inl b ↦ rw b (unserved s ev b)
              | inr b ↦ rw b (rw (← d, ← y) (finish-order (respond c true ∷ []) t (refl, refl)))
            ])
    ]

on_complete-order :
    (ev : EventLoopEvent) (m : RequestMessage) (s : State)
    → KeepsOrder
        (events s.waiting_deployment_events)
        (events s.waiting_sync_operation_events)
        (on_complete ev m s)
unfolding on_complete
on_complete-order ev m s = elim (Option-cases (complete ev m s)) [
  | inl e ↦ rw (e, on_complete) (tt, tt)
  | inr (r, e) ↦
      let (q, d, y) = complete-order ev m s r.0 r.1 e in
      rw (e, on_complete) (rw (← d, ← y) (finish-order r.1 r.0 q))
]

on_status-order :
    (m : RequestMessage) (s : State)
    → KeepsOrder
        (events s.waiting_deployment_events)
        (events s.waiting_sync_operation_events)
        (on_status m s)
unfolding on_status
on_status-order m s = elim (Option-cases m.response_chan) [
  | inl e ↦ rw (e, on_status) (refl, refl)
  | inr (c, e) ↦
      rw (e, on_status)
        (elim (Bool-cases (work_rejected s)) [
          | inl b ↦ rw b (refl, refl)
          | inr b ↦ rw b (finish-order (respond c true ∷ []) s (refl, refl))
        ])
]

by_event-order :
    (t : EventLoopMessageType) (e : Option EventLoopEvent) (m : RequestMessage) (s : State)
    → m.event ≡ e
    → KeepsOrder
        (events s.waiting_deployment_events ++ added_deployment t e s)
        (events s.waiting_sync_operation_events ++ added_sync t e s)
        (by_event t e m s)
unfolding by_event
by_event-order event_message none m s h = (sym (append-nil _), sym (append-nil _))
by_event-order event_message (some ev) m s h = on_event-order ev m s h
by_event-order work_complete none m s h = (sym (append-nil _), sym (append-nil _))
by_event-order work_complete (some ev) m s h =
    rw
      (
        append-nil (events s.waiting_deployment_events),
        append-nil (events s.waiting_sync_operation_events),
      )
      (on_complete-order ev m s)
by_event-order status_check e m s h =
    rw
      (
        append-nil (events s.waiting_deployment_events),
        append-nil (events s.waiting_sync_operation_events),
      )
      (on_status-order m s)
by_event-order unknown_message e m s h =
    rw
      (
        append-nil (events s.waiting_deployment_events),
        append-nil (events s.waiting_sync_operation_events),
      )
      (finish-order [] s (refl, refl))

-- Each message that returns keeps both queues first in, first out and loses nothing: what it
-- sends to a runner, followed by what then waits for it, is what waited before, followed by the
-- event of an event message that the runner is for, unless the runner has shut down.
pub process-order :
    (m : RequestMessage) (s : State)
    → KeepsOrder
        (events s.waiting_deployment_events ++ added_deployment m.message_type m.event s)
        (events s.waiting_sync_operation_events ++ added_sync m.message_type m.event s)
        (process m s)
unfolding process
process-order m s = by_event-order m.message_type m.event m s refl
