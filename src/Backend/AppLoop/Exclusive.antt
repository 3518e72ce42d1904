-- ===== src/Backend/AppLoop/Exclusive.antt =====
-- What the runners of application_event_loop.go are handed, and when.
use managed_gitops.Base.{
  ◌≡◌, ◌≢◌, refl, Option, none, some, List, [], ◌∷◌, ◌++◌, true, inl, inr, arith, Option-cases,
  Bool-cases,
}
use mathlib.Core.List.{append-nil}
use managed_gitops.Backend.Event.{
  EventLoopEvent, EventLoopMessageType, GitOpsResourceType, work_complete, event_message,
  status_check, unknown_message,
}
use managed_gitops.Backend.AppLoop.{
  RequestMessage, State, Effect, respond, Outcome, panics, returns, add_deployment, add_sync,
  enqueue, work_rejected, pump_deployment, pump_sync, close_sync, finish, on_event, on_status,
  by_event, process,
}
use managed_gitops.Backend.AppLoop.Queues.{
  deployment_sends, sync_sends, deployment_sends-append, sync_sends-append, IsQuiet,
}
use managed_gitops.Backend.AppLoop.Sound.{IsSound, Answers, Good, process-IsSound}

-- A slot for the event that a runner works on, before and after, and what the runner was sent.
abbrev pub OneAtATime :
    Option RequestMessage → Option RequestMessage → List (Option EventLoopEvent) → Type 0
OneAtATime (some a) after sends = (after ≡ some a) × (sends ≡ [])
OneAtATime none none sends = sends ≡ []
OneAtATime none (some b) sends = sends ≡ b.event ∷ []

abbrev Slots : State → State → List Effect → Type 0
Slots s u e =
    OneAtATime s.active_deployment_event u.active_deployment_event (deployment_sends e)
    × OneAtATime s.active_sync_operation_event u.active_sync_operation_event (sync_sends e)

abbrev pub KeepsBusy : State → Outcome → Type 0
KeepsBusy s panics = ⊥
KeepsBusy s (returns t u e) = Slots s u e

abbrev KeepsBusy? : State → Outcome → Type 0
KeepsBusy? s panics = Unit
KeepsBusy? s (returns t u e) = Slots s u e

idle : (o : Option RequestMessage) → OneAtATime o o []
idle none = refl
idle (some a) = (refl, refl)

abbrev DeploymentSlot : State → Option (State × List Effect) → Type 0
DeploymentSlot s none = Unit
DeploymentSlot s (some (t, e)) =
    OneAtATime s.active_deployment_event t.active_deployment_event (deployment_sends e)
    × (t.active_sync_operation_event ≡ s.active_sync_operation_event)
    × (sync_sends e ≡ [])

pump_deployment-Slot : (s : State) → DeploymentSlot s (pump_deployment s)
unfolding pump_deployment
pump_deployment-Slot s = ground arith

abbrev SyncSlot : State → Option (State × List Effect) → Type 0
SyncSlot s none = Unit
SyncSlot s (some (t, e)) =
    OneAtATime s.active_sync_operation_event t.active_sync_operation_event (sync_sends e)
    × (t.active_deployment_event ≡ s.active_deployment_event)
    × (deployment_sends e ≡ [])

pump_sync-Slot : (s : State) → SyncSlot s (pump_sync s)
unfolding pump_sync
pump_sync-Slot s = ground arith

close_sync-slots :
    (s : State)
    → ((close_sync s).active_deployment_event ≡ s.active_deployment_event)
      × ((close_sync s).active_sync_operation_event ≡ s.active_sync_operation_event)
unfolding close_sync
close_sync-slots s = ground arith

served :
    (b e f : List Effect) (s t u : State)
    → IsQuiet b
    → DeploymentSlot s (some (t, e))
    → SyncSlot t (some (u, f))
    → Slots s (close_sync u) (b ++ (e ++ f))
served b e f s t u (x, y) (h, i, j) (k, l, m) = (
  rw (deployment_sends-append b (e ++ f), deployment_sends-append e f, x, m, append-nil _)
      (rw ((close_sync-slots u).0, l) h),
  rw (sync_sends-append b (e ++ f), sync_sends-append e f, y, j)
      (rw (close_sync-slots u).1 (rw (← i) k)),
)

finish-KeepsBusy :
    (before : List Effect) (s : State) → IsQuiet before → KeepsBusy? s (finish before s)
unfolding finish
finish-KeepsBusy before s quiet = elim (Option-cases (pump_deployment s)) [
  | inl p ↦ rw (p, finish) tt
  | inr ((t, e), p) ↦ elim (Option-cases (pump_sync t)) [
    | inl q ↦ rw (p, finish) (rw (q, finish) tt)
    | inr ((u, f), q) ↦
        rw (p, finish)
          (rw (q, finish)
            (served before e f s t u quiet (rw p at (pump_deployment-Slot s))
              (rw q at (pump_sync-Slot t))))
  ]
]

enqueue-slots :
    (r : GitOpsResourceType) (ev : EventLoopEvent) (m : RequestMessage) (s : State)
    → ((enqueue r ev m s).active_deployment_event ≡ s.active_deployment_event)
      × ((enqueue r ev m s).active_sync_operation_event ≡ s.active_sync_operation_event)
unfolding enqueue add_deployment add_sync
enqueue-slots r ev m s = ground arith

same_slots :
    (s t : State) (o : Outcome)
    → (t.active_deployment_event ≡ s.active_deployment_event)
      × (t.active_sync_operation_event ≡ s.active_sync_operation_event)
    → KeepsBusy? t o
    → KeepsBusy? s o
same_slots s t panics h k = tt
same_slots s t (returns b u e) (h, i) (k, l) = (rw (← h) k, rw (← i) l)

enqueued-KeepsBusy :
    (before : List Effect) (r : GitOpsResourceType) (ev : EventLoopEvent) (m : RequestMessage)
    (s : State)
    → IsQuiet before
    → KeepsBusy? s (finish before (enqueue r ev m s))
enqueued-KeepsBusy before r ev m s quiet =
    same_slots s (enqueue r ev m s) (finish before (enqueue r ev m s)) (enqueue-slots r ev m s)
      (finish-KeepsBusy before (enqueue r ev m s) quiet)

by_event-KeepsBusy :
    (t : EventLoopMessageType) (x : Option EventLoopEvent) (m : RequestMessage) (s : State)
    → t ≢ work_complete
    → KeepsBusy? s (by_event t x m s)
unfolding by_event on_event on_status
by_event-KeepsBusy event_message none m s n = (idle _, idle _)
by_event-KeepsBusy event_message (some ev) m s n = elim (Bool-cases (work_rejected s)) [
  | inl r ↦ elim (Option-cases m.response_chan) [
    | inl e ↦ rw (e, on_event) (rw r (idle _, idle _))
    | inr (c, e) ↦ rw (e, on_event) (rw r (idle _, idle _))
  ]
  | inr r ↦ elim (Option-cases m.response_chan) [
    | inl e ↦ rw (e, on_event) (rw r (enqueued-KeepsBusy [] ev.req_resource ev m s (refl, refl)))
    | inr (c, e) ↦
        rw (e, on_event)
          (rw r (enqueued-KeepsBusy (respond c true ∷ []) ev.req_resource ev m s (refl, refl)))
  ]
]
by_event-KeepsBusy work_complete x m s n = absurd (n refl)
by_event-KeepsBusy status_check x m s n = elim (Option-cases m.response_chan) [
  | inl e ↦ rw (e, on_status) (idle _, idle _)
  | inr (c, e) ↦ elim (Bool-cases (work_rejected s)) [
    | inl r ↦ rw (e, on_status) (rw r (idle _, idle _))
    | inr r ↦ rw (e, on_status) (rw r (finish-KeepsBusy (respond c true ∷ []) s (refl, refl)))
  ]
]
by_event-KeepsBusy unknown_message x m s n = finish-KeepsBusy [] s (refl, refl)

kept : (s : State) (o : Outcome) → Good o → KeepsBusy? s o → KeepsBusy s o
kept s panics g k = g
kept s (returns t u e) g k = k

-- From a sound state, a message that is not of the work-complete type hands a runner at most one
-- event: none while it works on one, and otherwise the event that the loop then remembers as the
-- one it works on, if there is one. It does not change what a busy runner works on.
pub process_one_at_a_time :
    (m : RequestMessage) (s : State)
    → IsSound s
    → Answers m.message_type m.event s
    → m.message_type ≢ work_complete
    → KeepsBusy s (process m s)
unfolding process
process_one_at_a_time m s v a n =
    kept s (process m s) (process-IsSound m s v a) (by_event-KeepsBusy m.message_type m.event m s n)
