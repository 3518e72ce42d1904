-- ===== src/Backend/AppLoop/Ending.antt =====
-- What ends the application event loop: application_event_loop.go.
use managed_gitops.Base.{
  ◌≡◌, refl, false, Option, none, some, List, [], inl, inr, Bool-cases, Option-cases,
}
use managed_gitops.Backend.Event.{
  EventLoopEvent, EventLoopMessageType, work_complete, event_message, status_check, unknown_message,
}
use managed_gitops.Backend.AppLoop.{
  RequestMessage, State, Effect, Outcome, panics, returns, process, by_event, on_event, on_complete,
  on_status, finish, complete, enqueue, work_rejected, pump_deployment, pump_sync,
}

abbrev pub Stays : Outcome → Type 0
Stays panics = Unit
Stays (returns stop t effects) = stop ≡ false

finish-Stays : (before : List Effect) (s : State) → Stays (finish before s)
unfolding finish
finish-Stays before s = elim (Option-cases (pump_deployment s)) [
  | inl p ↦ rw (p, finish) tt
  | inr ((t, e), p) ↦ elim (Option-cases (pump_sync t)) [
    | inl q ↦ rw (p, finish) (rw (q, finish) tt)
    | inr ((u, f), q) ↦ rw (p, finish) (rw (q, finish) refl)
  ]
]

by_event-Stays :
    (t : EventLoopMessageType) (x : Option EventLoopEvent) (m : RequestMessage) (s : State)
    → m.response_chan ≡ none
    → Stays (by_event t x m s)
unfolding by_event on_event on_complete on_status
by_event-Stays event_message none m s h = refl
by_event-Stays event_message (some ev) m s h = elim (Bool-cases (work_rejected s)) [
  | inl b ↦ rw (h, on_event) (rw b refl)
  | inr b ↦ rw (h, on_event) (rw b (finish-Stays [] (enqueue ev.req_resource ev m s)))
]
by_event-Stays work_complete none m s h = refl
by_event-Stays work_complete (some ev) m s h = elim (Option-cases (complete ev m s)) [
  | inl e ↦ rw (e, on_complete) tt
  | inr ((t, es), e) ↦ rw (e, on_complete) (finish-Stays es t)
]
by_event-Stays status_check x m s h = rw (h, on_status) refl
by_event-Stays unknown_message x m s h = finish-Stays [] s

-- Only an answer to a request ends an application event loop.
pub process-Stays : (m : RequestMessage) (s : State) → m.response_chan ≡ none → Stays (process m s)
unfolding process
process-Stays m s h = by_event-Stays m.message_type m.event m s h
