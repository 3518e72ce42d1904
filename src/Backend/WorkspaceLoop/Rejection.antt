-- ===== src/Backend/WorkspaceLoop/Rejection.antt =====
-- An event that an ended application event loop has rejected, handled again: workspace_event_loop.go.
use managed_gitops.Base.{
  ◌≡◌, ◌≢◌, refl, ◌∙◌, true, false, none, List, [], ◌∷◌, String, inl, inr, Bool-cases, Option-cases,
}
use managed_gitops.Base.Map.{lookup, lookup-delete_self, lookup-insert_other, lookup-delete_other}
use managed_gitops.Backend.Event.{EventLoopEvent}
use managed_gitops.Backend.AppLoop
use managed_gitops.Backend.AppLoop.{work_rejected, returns, process, RequestMessage, panics, Effect}
use managed_gitops.Backend.AppLoop.Sound.{IsSound}
use managed_gitops.Backend.WorkspaceLoop.{
  WorkspaceMessage, Answers, World, Sent, requeue, done, Answer, crash, no_answer, answered,
  send_request,
}
use managed_gitops.Backend.WorkspaceLoop.Handler.{map_key, on_answer, send_event, start_loop, route}
use managed_gitops.Backend.WorkspaceLoop.Live.{IsLive}
use managed_gitops.Backend.WorkspaceLoop.Delivery.{
  request, world_of, sent_of, Fresh, route-fresh, rejected,
}

-- The loop has handled events for other application event loops in between.
pub data Between (key : String) (w : World) : World → Type 0 where
  at_once : Between key w w
  another :
      {v : World} (a : Answers) (deployment : String) (ev : EventLoopEvent) (msg : WorkspaceMessage)
      (sent : List Sent)
      → Between key w v
      → map_key v ev.namespace deployment ≢ key
      → Between key w (world_of v (route a deployment ev msg sent v))

-- A world of the same namespace that has no entry for the key.
abbrev IsVacant : String → World → World → Type 0
IsVacant key w v = (v.namespace_id ≡ w.namespace_id) × (lookup key v.application_map ≡ none)

on_answer-IsVacant :
    (key other : String) (w v z : World) (msg : WorkspaceMessage) (sent : List Sent) (r : Answer)
    → other ≢ key
    → IsVacant key w v
    → IsVacant key w z
    → IsVacant key w (world_of v (on_answer r other msg sent z))
unfolding on_answer
on_answer-IsVacant key other w v z msg sent crash n h k = h
on_answer-IsVacant key other w v z msg sent no_answer n h k = h
on_answer-IsVacant key other w v z msg sent (answered true loops) n h k = k
on_answer-IsVacant key other w v z msg sent (answered false loops) n h k =
    (k.0, lookup-delete_other other key z.application_map n ∙ k.1)

started-IsVacant :
    (key other : String) (w v : World) (ev : EventLoopEvent) (msg : WorkspaceMessage)
    (sent : List Sent)
    → other ≢ key
    → IsVacant key w v
    → IsVacant key w (world_of v (send_event v.next other ev msg sent (start_loop other v)))
unfolding send_event start_loop
started-IsVacant key other w v ev msg sent n h =
    let z = start_loop other v in
    on_answer-IsVacant key other w v z msg sent (send_request (request ev) v.next z.loops) n h
      (h.0, lookup-insert_other other key v.next v.application_map n ∙ h.1)

route-IsVacant :
    (key : String) (w v : World) (a : Answers) (deployment : String) (ev : EventLoopEvent)
    (msg : WorkspaceMessage) (sent : List Sent)
    → map_key v ev.namespace deployment ≢ key
    → IsVacant key w v
    → IsVacant key w (world_of v (route a deployment ev msg sent v))
unfolding route send_event
route-IsVacant key w v a deployment ev msg sent n h =
    let other = map_key v ev.namespace deployment in
    elim (Option-cases (lookup other v.application_map)) [
      | inl e ↦ elim (Bool-cases a.starts) [
        | inl b ↦ rw (e, route) (rw b (started-IsVacant key other w v ev msg sent n h))
        | inr b ↦ rw (e, route) (rw b h)
      ]
      | inr (c, e) ↦
          rw (e, route)
            (on_answer-IsVacant key other w v v msg sent (send_request (request ev) c v.loops) n h
              h)
    ]

Between-IsVacant :
    (key : String) (w v : World)
    → Between key w v
    → lookup key w.application_map ≡ none
    → IsVacant key w v
Between-IsVacant key w _ at_once e = (refl, e)
Between-IsVacant key w _ (another {v} a deployment ev msg sent b n) e =
    route-IsVacant key w v a deployment ev msg sent n (Between-IsVacant key w v b e)

-- The world is live, and an event is rejected, since its application event loop has ended, and its
-- message put back. If the message is handled again after any number of events for other
-- application event loops, whatever they bring about, and if then a new application event loop can
-- be started, it is started and accepts the event, and nothing is put back.
pub route_accepts_again :
    (a b : Answers) (deployment : String) (ev : EventLoopEvent) (msg : WorkspaceMessage)
    (w v : World)
    → IsLive w
    → sent_of (route a deployment ev msg [] w) ≡ requeue msg ∷ []
    → Between (map_key w ev.namespace deployment) (world_of w (route a deployment ev msg [] w)) v
    → b.starts ≡ true
    → (u : AppLoop.State) × IsSound u
      × (route b deployment ev msg [] v ≡ done (Fresh (map_key v ev.namespace deployment) v u) [])
unfolding map_key
route_accepts_again a b deployment ev msg w v l h between starts =
    let key = map_key w ev.namespace deployment in
    let (c, e) = rejected a deployment ev msg w l h in
    let gone : lookup key (world_of w (route a deployment ev msg [] w)).application_map ≡ none =
      rw e (lookup-delete_self key w.application_map) in
    let same : (world_of w (route a deployment ev msg [] w)).namespace_id ≡ w.namespace_id =
      rw e refl in
    let (id, vacant) = Between-IsVacant key _ v between gone in
    route-fresh b deployment ev msg [] v starts (rw (id, same) vacant)
