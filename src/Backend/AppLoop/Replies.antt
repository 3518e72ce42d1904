-- ===== src/Backend/AppLoop/Replies.antt =====
-- What the application event loop answers, and when it ends: application_event_loop.go.
use managed_gitops.Base.{
  ℕ, ◌≡◌, refl, Bool, true, false, Option, none, some, List, [], ◌∷◌, ◌++◌, is_some, ◌⊎◌, inl, inr,
  arith, Option-cases,
}
use mathlib.Core.List.{append-nil}
use managed_gitops.Backend.Event.{
  EventLoopEvent, EventLoopMessageType, work_complete, event_message, status_check, unknown_message,
}
use managed_gitops.Backend.AppLoop.{
  RequestMessage, State, Effect, respond, to_deployment_runner, to_sync_runner, start_timer,
  Outcome, panics, returns, enqueue, work_rejected, pump_deployment, pump_sync, close_sync, finish,
  on_event, on_status, by_event, process,
}
use managed_gitops.Backend.AppLoop.Queues.{deployment_sends, sync_sends}
use managed_gitops.Backend.AppLoop.Sound.{IsSound, Answers, Good, process-IsSound}

-- A message that must be answered: an event with its contents, or a status check.
abbrev pub IsRequest : RequestMessage → Type 0
IsRequest m =
    ((m.message_type ≡ event_message) × (is_some m.event ≡ true)) ⊎ (m.message_type ≡ status_check)

-- A request with a response channel that comes when both runners have shut down is rejected: the
-- one effect is the answer `false`, the state is unchanged, and the loop ends.
pub process_rejects :
    (m : RequestMessage) (s : State) (c : ℕ)
    → IsRequest m
    → m.response_chan ≡ some c
    → work_rejected s ≡ true
    → process m s ≡ returns true s (respond c false ∷ [])
unfolding process by_event on_event on_status
process_rejects m s c q h r = ground arith

-- The answers among the effects.
abbrev pub responses : List Effect → List (ℕ × Bool)
responses [] = []
responses (respond c b ∷ es) = (c, b) ∷ responses es
responses (to_deployment_runner ev ∷ es) = responses es
responses (to_sync_runner ev ∷ es) = responses es
responses (start_timer ∷ es) = responses es

responses-append : (xs ys : List Effect) → responses (xs ++ ys) ≡ responses xs ++ responses ys
responses-append [] ys = refl
responses-append (respond c b ∷ xs) ys = rw (responses-append xs ys)
responses-append (to_deployment_runner ev ∷ xs) ys = responses-append xs ys
responses-append (to_sync_runner ev ∷ xs) ys = responses-append xs ys
responses-append (start_timer ∷ xs) ys = responses-append xs ys

abbrev Quiet? : Option (State × List Effect) → Type 0
Quiet? none = Unit {0}
Quiet? (some (t, e)) = responses e ≡ []

pump_deployment-quiet : (s : State) → Quiet? (pump_deployment s)
unfolding pump_deployment
pump_deployment-quiet s = ground arith

pump_sync-quiet : (s : State) → Quiet? (pump_sync s)
unfolding pump_sync
pump_sync-quiet s = ground arith

quiet :
    (o : Option (State × List Effect)) {t : State} {e : List Effect}
    → o ≡ some (t, e)
    → Quiet? o
    → responses e ≡ []
quiet o p h = rw p at h

-- The loop goes on, with these answers.
abbrev pub GoesOn : List (ℕ × Bool) → Outcome → Type 0
GoesOn rs panics = Unit × Unit
GoesOn rs (returns t u e) = (t ≡ false) × (responses e ≡ rs)

finish-GoesOn : (before : List Effect) (s : State) → GoesOn (responses before) (finish before s)
unfolding finish
finish-GoesOn before s = elim (Option-cases (pump_deployment s)) [
  | inl p ↦ rw (p, finish) (tt, tt)
  | inr (r, p) ↦ elim (Option-cases (pump_sync r.0)) [
    | inl q ↦ rw (p, finish) (rw (q, finish) (tt, tt))
    | inr (w, q) ↦
        rw (p, finish)
          (rw (q, finish)
            (
              refl,
              rw
                  (
                    responses-append before (r.1 ++ w.1),
                    responses-append r.1 w.1,
                    quiet (pump_deployment s) p (pump_deployment-quiet s),
                    quiet (pump_sync r.0) q (pump_sync-quiet r.0),
                  )
                  (append-nil (responses before)),
            ))
  ]
]

-- The loop goes on and gives exactly one answer, `true`.
abbrev pub Accepts : ℕ → Outcome → Type 0
Accepts c panics = ⊥
Accepts c (returns t u e) = (t ≡ false) × (responses e ≡ (c, true) ∷ [])

going-Accepts : (c : ℕ) (o : Outcome) → Good o → GoesOn ((c, true) ∷ []) o → Accepts c o
going-Accepts c panics g h = g
going-Accepts c (returns t u e) g h = h

by_request-GoesOn :
    (t : EventLoopMessageType) (x : Option EventLoopEvent) (m : RequestMessage) (s : State) (c : ℕ)
    → ((t ≡ event_message) × (is_some x ≡ true)) ⊎ (t ≡ status_check)
    → m.response_chan ≡ some c
    → work_rejected s ≡ false
    → GoesOn ((c, true) ∷ []) (by_event t x m s)
unfolding by_event on_event on_status
by_request-GoesOn event_message none m s c q h r = ground arith
by_request-GoesOn event_message (some ev) m s c q h r =
    rw (h, on_event) (rw r (finish-GoesOn (respond c true ∷ []) (enqueue ev.req_resource ev m s)))
by_request-GoesOn status_check x m s c q h r =
    rw (h, on_status) (rw r (finish-GoesOn (respond c true ∷ []) s))
by_request-GoesOn work_complete x m s c q h r = ground arith
by_request-GoesOn unknown_message x m s c q h r = ground arith

pub answers : (m : RequestMessage) (s : State) → IsRequest m → Answers m.message_type m.event s
answers m s q = ground arith

-- From a sound state in which a runner still works, a request with a response channel is
-- accepted: the loop does not panic, goes on, and answers exactly once, with `true`.
pub process-Accepts :
    (m : RequestMessage) (s : State) (c : ℕ)
    → IsRequest m
    → m.response_chan ≡ some c
    → IsSound s
    → work_rejected s ≡ false
    → Accepts c (process m s)
unfolding process
process-Accepts m s c q h v r =
    going-Accepts c (process m s) (process-IsSound m s v (answers m s q))
      (by_request-GoesOn m.message_type m.event m s c q h r)

-- Both runners stay shut down, and get nothing more.
abbrev pub StaysShut : Outcome → Type 0
StaysShut panics = ⊥
StaysShut (returns t u e) =
    (work_rejected u ≡ true) × (deployment_sends e ≡ []) × (sync_sends e ≡ [])

served_shut :
    (s : State)
    → work_rejected s ≡ true
    → (pump_deployment s ≡ some (s, [])) × (pump_sync s ≡ some (s, [])) × (close_sync s ≡ s)
unfolding pump_deployment pump_sync close_sync
served_shut s r = ground arith

finish-StaysShut : (s : State) → work_rejected s ≡ true → StaysShut (finish [] s)
unfolding finish
finish-StaysShut s r =
    let (p, q, c) = served_shut s r in rw (p, finish) (rw (q, finish) (rw c (r, refl, refl)))

complete_shut :
    (ev : EventLoopEvent) (m : RequestMessage) (s : State)
    → IsSound s
    → work_rejected s ≡ true
    → Answers work_complete (some ev) s
    → ⊥
complete_shut ev m s v r a = ground arith

by_event-StaysShut :
    (t : EventLoopMessageType) (x : Option EventLoopEvent) (m : RequestMessage) (s : State)
    → IsSound s
    → Answers t x s
    → work_rejected s ≡ true
    → StaysShut (by_event t x m s)
unfolding by_event on_event on_status
by_event-StaysShut event_message none m s v a r = (r, refl, refl)
by_event-StaysShut event_message (some ev) m s v a r = elim (Option-cases m.response_chan) [
  | inl e ↦ rw (e, on_event) (rw r (r, refl, refl))
  | inr (c, e) ↦ rw (e, on_event) (rw r (r, refl, refl))
]
by_event-StaysShut work_complete none m s v a r = (r, refl, refl)
by_event-StaysShut work_complete (some ev) m s v a r = absurd (complete_shut ev m s v r a)
by_event-StaysShut status_check x m s v a r = elim (Option-cases m.response_chan) [
  | inl e ↦ rw (e, on_status) (r, refl, refl)
  | inr (c, e) ↦ rw (e, on_status) (rw r (r, refl, refl))
]
by_event-StaysShut unknown_message x m s v a r = finish-StaysShut s r

-- From a sound state in which both runners have shut down, a message that answers the event its
-- runner works on (every message but a work-complete one does) does not make the loop panic,
-- leaves both shut down, and hands no event to them.
pub process_shutdown_final :
    (m : RequestMessage) (s : State)
    → IsSound s
    → Answers m.message_type m.event s
    → work_rejected s ≡ true
    → StaysShut (process m s)
unfolding process
process_shutdown_final m s v a r = by_event-StaysShut m.message_type m.event m s v a r
