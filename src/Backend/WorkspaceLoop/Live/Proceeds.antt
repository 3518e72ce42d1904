-- ===== src/Backend/WorkspaceLoop/Live/Proceeds.antt =====
-- The workspace event loop gets past each message: workspace_event_loop.go.
use managed_gitops.Base.{
  ℕ, ◌≡◌, refl, Bool, true, false, none, some, List, [], ◌∷◌, String, ◌==◌, eq_iff, is_some, inl,
  inr, Bool-cases, Option-cases, arith,
}
use managed_gitops.Base.Map.{Map, lookup, HasKeys, lookup-delete, lookup-insert_self}
use managed_gitops.Backend.Event.{
  EventLoopEvent, EventLoopMessageType, work_complete, event_message, status_check, unknown_message,
  GitOpsResourceType, deployment_type, sync_run_type, repository_credential_type,
  managed_environment_type, no_type,
}
use managed_gitops.Backend.AppLoop
use managed_gitops.Backend.WorkspaceLoop.{
  LoopMessage, WorkspaceMessage, event_received, managed_env_processed, status_ticker, unrecognized,
  Answers, World, Sent, Outcome, crashed, blocked, done, Orphans, Answer, send_request,
  sync_response_chan, check_if_orphaned, unorphan,
}
use managed_gitops.Backend.WorkspaceLoop.Handler.{
  event_request, status_request, map_key, on_answer, send_event, start_loop, route, dispatch,
  requeues, handle_event, handle_managed_env_processed, keep_if, check_entries, process_message,
}
use managed_gitops.Backend.WorkspaceLoop.Live.{
  IsLive, Served, send_request-Served, kept-IsLive, dropped-IsLive, start_loop-IsLive,
}

-- The loop neither crashes nor blocks, and its map still leads to running goroutines.
abbrev pub Proceeds : Outcome → Type 0
Proceeds crashed = ⊥
Proceeds blocked = ⊥
Proceeds (done w sent) = IsLive w

answered-Proceeds :
    (key : String) (msg : WorkspaceMessage) (sent : List Sent) (w : World) (c : ℕ)
    (s : AppLoop.State) (a : Answer)
    → IsLive w
    → lookup key w.application_map ≡ some c
    → w.loops c ≡ some s
    → Served c w.loops s a
    → Proceeds (on_answer a key msg sent w)
unfolding on_answer
answered-Proceeds key msg sent w c s a v e f (inl (b, g)) =
    rw (g, on_answer) (dropped-IsLive w key c v e)
answered-Proceeds key msg sent w c s a v e f (inr (b, (u, i, g))) =
    rw (g, on_answer) (kept-IsLive w c s u v f i)

send_event-Proceeds :
    (c : ℕ) (key : String) (ev : EventLoopEvent) (msg : WorkspaceMessage) (sent : List Sent)
    (w : World)
    → IsLive w
    → lookup key w.application_map ≡ some c
    → Proceeds (send_event c key ev msg sent w)
unfolding send_event
send_event-Proceeds c key ev msg sent w v e =
    let (s, f) = v.live key c e in
    answered-Proceeds key msg sent w c s
      (send_request (event_request (some sync_response_chan) (some ev)) c w.loops) v e f
      (send_request-Served (event_request (some sync_response_chan) (some ev)) c w.loops s
        (inl (refl, refl)) refl f (v.sound c s f))

pub route-Proceeds :
    (a : Answers) (deployment : String) (ev : EventLoopEvent) (msg : WorkspaceMessage)
    (sent : List Sent) (w : World)
    → IsLive w
    → Proceeds (route a deployment ev msg sent w)
unfolding route start_loop
route-Proceeds a deployment ev msg sent w v =
    let key = map_key w ev.namespace deployment in
    elim (Option-cases (lookup key w.application_map)) [
      | inr (c, e) ↦ rw (e, route) (send_event-Proceeds c key ev msg sent w v e)
      | inl e ↦ elim (Bool-cases a.starts) [
        | inr b ↦ rw (e, route) (rw b v)
        | inl b ↦
            rw (e, route)
              (rw b (
                send_event-Proceeds w.next key ev msg sent (start_loop key w)
                  (start_loop-IsLive key w v e) (lookup-insert_self key w.next w.application_map)))
      ]
    ]

orphans-IsLive : (w : World) (o : Orphans) → IsLive w → IsLive (record w { orphaned_resources = o })
orphans-IsLive w o v = record {
  live = v.live;
  sound = v.sound;
  own = v.own;
  started = v.started;
  keys = v.keys;
}

dispatch-Proceeds :
    (a : Answers) (r : GitOpsResourceType) (ev : EventLoopEvent) (m : LoopMessage) (w : World)
    → IsLive w
    → Proceeds (dispatch a r ev m w)
unfolding dispatch
dispatch-Proceeds a deployment_type ev m w v =
    let u = unorphan a ev w.orphaned_resources in
    let i = orphans-IsLive w u.0 v in
    elim (Bool-cases (ev.name == "")) [
      | inl b ↦ rw b i
      | inr b ↦ rw b (route-Proceeds a ev.name ev (event_received m) (requeues u.1) _ i)
    ]
dispatch-Proceeds a repository_credential_type ev m w v = v
dispatch-Proceeds a managed_environment_type ev m w v = v
dispatch-Proceeds a sync_run_type ev m w v =
    let u = check_if_orphaned a ev w.orphaned_resources in
    let i = orphans-IsLive w u.1 v in
    elim (Bool-cases (u.0 == "")) [
      | inl b ↦ rw b i
      | inr b ↦ rw b (route-Proceeds a u.0 ev (event_received m) [] _ i)
    ]
dispatch-Proceeds a no_type ev m w v = v

-- The entries stand in the map.
abbrev Listed : Map ℕ → Map ℕ → Type 0
Listed [] m = Unit
Listed ((key, c) ∷ entries) m = (lookup key m ≡ some c) × Listed entries m

Listed-cons :
    (key : String) (c : ℕ) (entries m : Map ℕ)
    → lookup key entries ≡ none
    → Listed entries m
    → Listed entries ((key, c) ∷ m)
unfolding lookup
Listed-cons key c [] m n h = tt
Listed-cons key c ((k, d) ∷ entries) m n (e, h) = (
  ground (arith, eq_iff k key, eq_iff key k),
  Listed-cons key c entries m (ground (arith, eq_iff k key)) h,
)

Listed-self : (m : Map ℕ) → HasKeys m → Listed m m
unfolding lookup
Listed-self [] h = tt
Listed-self ((key, c) ∷ m) (n, h) =
    (ground (arith, eq_iff key key), Listed-cons key c m m n (Listed-self m h))

Listed-keep_if :
    (b : Bool) (key : String) (entries m : Map ℕ)
    → lookup key entries ≡ none
    → Listed entries m
    → Listed entries (keep_if b key m)
unfolding lookup
Listed-keep_if true key entries m n h = h
Listed-keep_if false key [] m n h = tt
Listed-keep_if false key ((k, d) ∷ entries) m n (e, h) = (
  ground (arith, eq_iff k key, eq_iff key k, lookup-delete key k m),
  Listed-keep_if false key entries m (ground (arith, eq_iff k key)) h,
)

check_entries-Proceeds :
    (entries : Map ℕ) (w : World)
    → IsLive w
    → HasKeys entries
    → Listed entries w.application_map
    → Proceeds (check_entries entries w)
unfolding check_entries
check_entries-Proceeds [] w v k h = v
check_entries-Proceeds ((key, c) ∷ entries) w v (n, k) (e, h) =
    let (s, f) = v.live key c e in
    elim (send_request-Served status_request c w.loops s (inr refl) refl f (v.sound c s f)) [
      | inl (b, g) ↦
          rw (g, check_entries)
            (check_entries-Proceeds entries _ (dropped-IsLive w key c v e) k
              (Listed-keep_if false key entries w.application_map n h))
      | inr (b, (u, i, g)) ↦
          rw (g, check_entries) (check_entries-Proceeds entries _ (kept-IsLive w c s u v f i) k h)
    ]

-- A message about a managed environment carries its event.
abbrev pub HasPayload : WorkspaceMessage → Type 0
HasPayload (event_received m) = Unit × Unit
HasPayload (managed_env_processed m) = (is_some m.event ≡ true) × (Unit {0})
HasPayload status_ticker = Unit × Unit
HasPayload unrecognized = Unit × Unit

handle_event-Proceeds :
    (a : Answers) (m : LoopMessage) (w : World) → IsLive w → Proceeds (handle_event a m w)
unfolding handle_event
handle_event-Proceeds a m w v = elim (Option-cases m.event) [
  | inl e ↦ rw (e, handle_event) v
  | inr (ev, e) ↦ rw (e, handle_event) (typed m.message_type ev)
]
  where
    typed :
        (t : EventLoopMessageType) (ev : EventLoopEvent)
        → Proceeds (elim t [
          | work_complete ↦ done w []
          | event_message ↦ dispatch a ev.req_resource ev m w
          | status_check ↦ dispatch a ev.req_resource ev m w
          | unknown_message ↦ dispatch a ev.req_resource ev m w
        ])
    typed work_complete ev = v
    typed event_message ev = dispatch-Proceeds a ev.req_resource ev m w v
    typed status_check ev = dispatch-Proceeds a ev.req_resource ev m w v
    typed unknown_message ev = dispatch-Proceeds a ev.req_resource ev m w v

-- If each entry of its map leads to a goroutine of its own that runs in a sound state, then the
-- workspace event loop neither crashes nor blocks on a message (one about a managed environment
-- carries its event), whatever the API and the database answer, and the map still does so after.
pub process_message-Proceeds :
    (a : Answers) (msg : WorkspaceMessage) (w : World)
    → IsLive w
    → HasPayload msg
    → Proceeds (process_message a msg w)
unfolding process_message handle_managed_env_processed
process_message-Proceeds a (event_received m) w v p = handle_event-Proceeds a m w v
process_message-Proceeds a (managed_env_processed m) w v p = ground arith
process_message-Proceeds a status_ticker w v p =
    check_entries-Proceeds w.application_map w v v.keys (Listed-self w.application_map v.keys)
process_message-Proceeds a unrecognized w v p = v
