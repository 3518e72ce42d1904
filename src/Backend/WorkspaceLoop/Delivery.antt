-- ===== src/Backend/WorkspaceLoop/Delivery.antt =====
-- Where an event of the workspace event loop goes: workspace_event_loop.go.
use text.Mathlib.TextLemmas.{append_cancel_left}
use managed_gitops.Base.{
  ℕ, suc, ◌≡◌, ◌≢◌, refl, ap, ◌∙◌, true, false, none, some, List, [], ◌∷◌, ◌++◌, String, ◌⊎◌, inl,
  inr, Bool-cases, Option-cases, arith,
}
use managed_gitops.Base.Map.{lookup, delete, insert, lookup-insert_other, lookup-delete_other}
use managed_gitops.Backend.Event.{EventLoopEvent}
use managed_gitops.Backend.AppLoop
use managed_gitops.Backend.AppLoop.{work_rejected, returns, process, RequestMessage, panics, Effect}
use managed_gitops.Backend.AppLoop.Sound.{IsSound, initial-IsSound}
use managed_gitops.Backend.WorkspaceLoop.{
  WorkspaceMessage, Answers, World, Sent, requeue, Outcome, crashed, blocked, done, Answer,
  send_request, sync_response_chan, set_loop,
}
use managed_gitops.Backend.WorkspaceLoop.Handler.{
  event_request, map_key, on_answer, send_event, start_loop, route,
}
use managed_gitops.Backend.WorkspaceLoop.Live.{IsLive, Served, set_loop-other, send_request-Served}

abbrev pub request : EventLoopEvent → RequestMessage
request ev = event_request (some sync_response_chan) (some ev)

-- The world after, if there is one.
abbrev pub world_of : World → Outcome → World
world_of w crashed = w
world_of w blocked = w
world_of w (done v sent) = v

abbrev pub sent_of : Outcome → List Sent
sent_of crashed = []
sent_of blocked = []
sent_of (done v sent) = sent

-- The world after the goroutine behind c has served an event for the key.
abbrev Delivered : ℕ → String → WorkspaceMessage → List Sent → World → Outcome → Type 0
Delivered c key msg sent w o =
    ((u : AppLoop.State) × IsSound u
      × (o ≡ done (record w { loops = set_loop c (some u) w.loops }) sent))
    ⊎ ((o
          ≡ done
              (record w {
                loops = set_loop c none w.loops;
                application_map = delete key w.application_map;
              })
              (sent ++ (requeue msg ∷ [])))
        × (Unit {0}))

initial_works : work_rejected AppLoop.initial ≡ false
unfolding AppLoop.initial
initial_works = refl

module _ (key : String) (ev : EventLoopEvent) (msg : WorkspaceMessage) (sent : List Sent) where
  on_answer-Delivered :
      (c : ℕ) (w : World) (s : AppLoop.State) (a : Answer)
      → Served c w.loops s a
      → Delivered c key msg sent w (on_answer a key msg sent w)
  unfolding on_answer
  on_answer-Delivered c w s a (inl (b, g)) = inr (rw (g, on_answer) refl, tt)
  on_answer-Delivered c w s a (inr (b, (u, i, g))) = inl (u, i, rw (g, on_answer) refl)

  pub send_event-Delivered :
      (c : ℕ) (w : World)
      → IsLive w
      → lookup key w.application_map ≡ some c
      → Delivered c key msg sent w (send_event c key ev msg sent w)
  unfolding send_event
  send_event-Delivered c w v e =
      let (s, f) = v.live key c e in
      on_answer-Delivered c w s (send_request (request ev) c w.loops)
        (send_request-Served (request ev) c w.loops s (inl (refl, refl)) refl f (v.sound c s f))

  -- A goroutine that has just started accepts its first event.
  first_event :
      (c : ℕ) (w : World)
      → w.loops c ≡ some AppLoop.initial
      → (u : AppLoop.State) × IsSound u
        × (send_event c key ev msg sent w
            ≡ done (record w { loops = set_loop c (some u) w.loops }) sent)
  unfolding send_event on_answer
  first_event c w e =
      elim (send_request-Served (request ev) c w.loops AppLoop.initial (inl (refl, refl)) refl e
        initial-IsSound) [
          | inl (b, g) ↦ cc (b, initial_works)
          | inr (b, (u, i, g)) ↦ (u, i, rw g refl)
        ]

-- The world after a new goroutine, in the state u after its first event, has been started.
abbrev pub Fresh : String → World → AppLoop.State → World
Fresh key w u = record w {
  application_map = insert key w.next w.application_map;
  loops = set_loop w.next (some u) (set_loop w.next (some AppLoop.initial) w.loops);
  next = suc w.next;
}

module _ (a : Answers) (deployment : String) (ev : EventLoopEvent) (msg : WorkspaceMessage) where
  pub route-fresh :
      (sent : List Sent) (w : World)
      → a.starts ≡ true
      → lookup (map_key w ev.namespace deployment) w.application_map ≡ none
      → (u : AppLoop.State) × IsSound u
        × (route a deployment ev msg sent w
            ≡ done (Fresh (map_key w ev.namespace deployment) w u) sent)
  unfolding route start_loop
  route-fresh sent w b e =
      let key = map_key w ev.namespace deployment in
      let (u, i, f) = first_event key ev msg sent w.next (start_loop key w) (ground arith) in
      (u, i, rw (e, route) (rw b f))

  unstarted :
      (sent : List Sent) (w : World)
      → a.starts ≡ false
      → lookup (map_key w ev.namespace deployment) w.application_map ≡ none
      → route a deployment ev msg sent w ≡ done w sent
  unfolding route
  unstarted sent w b e = rw (e, route) (rw b refl)

  at_entry :
      (sent : List Sent) (w : World) (c : ℕ)
      → IsLive w
      → lookup (map_key w ev.namespace deployment) w.application_map ≡ some c
      → Delivered c
          (map_key w ev.namespace deployment)
          msg
          sent
          w
          (route a deployment ev msg sent w)
  unfolding route
  at_entry sent w c v e =
      rw (e, route) (send_event-Delivered (map_key w ev.namespace deployment) ev msg sent c w v e)

  pub rejected :
      (w : World)
      → IsLive w
      → sent_of (route a deployment ev msg [] w) ≡ requeue msg ∷ []
      → (c : ℕ) × (route a deployment ev msg [] w
          ≡ done
              (record w {
                loops = set_loop c none w.loops;
                application_map = delete (map_key w ev.namespace deployment) w.application_map;
              })
              (requeue msg ∷ []))
  rejected w v h =
      elim (Option-cases (lookup (map_key w ev.namespace deployment) w.application_map)) [
        | inl e ↦ elim (Bool-cases a.starts) [
          | inl b ↦ let (u, i, f) = route-fresh [] w b e in cc (h, ap sent_of f)
          | inr b ↦ cc (h, ap sent_of (unstarted [] w b e))
        ]
        | inr (c, e) ↦ elim (at_entry [] w c v e) [
          | inl (u, i, f) ↦ cc (h, ap sent_of f)
          | inr (f, t) ↦ (c, f)
        ]
      ]

  map_key-inj :
      (w : World) (other : String)
      → map_key w ev.namespace deployment ≡ map_key w ev.namespace other
      → deployment ≡ other
  unfolding map_key
  map_key-inj w other h = append_cancel_left "-" deployment other (
      append_cancel_left ev.namespace _ _
        (append_cancel_left "-" _ _ (append_cancel_left w.namespace_id _ _ h)))

  -- An event for one deployment changes neither the channel nor the state of the application event
  -- loop of another deployment of its namespace.
  pub route_isolates :
      (other : String) (c : ℕ) (sent : List Sent) (w : World)
      → IsLive w
      → deployment ≢ other
      → lookup (map_key w ev.namespace other) w.application_map ≡ some c
      → let v = world_of w (route a deployment ev msg sent w) in
        (lookup (map_key v ev.namespace other) v.application_map ≡ some c) × (v.loops c ≡ w.loops c)
  unfolding map_key
  route_isolates other c sent w v n e =
      let key = map_key w ev.namespace deployment in
      let key' = map_key w ev.namespace other in
      let m : key ≢ key' = λ p. n (map_key-inj w other p) in
      elim (Option-cases (lookup key w.application_map)) [
        | inl f ↦ elim (Bool-cases a.starts) [
          | inr b ↦ rw (unstarted sent w b f) (e, refl)
          | inl b ↦
              let (u, i, g) = route-fresh sent w b f in
              let x : c ≢ w.next = λ r. omega (arith, v.started key' c e, r) in
              rw g (
                lookup-insert_other key key' w.next w.application_map m ∙ e,
                set_loop-other w.next c (some u) (set_loop w.next (some AppLoop.initial) w.loops) x
                    ∙ set_loop-other w.next c (some AppLoop.initial) w.loops x,
              )
        ]
        | inr (d, f) ↦
            let x : c ≢ d = λ r. m (v.own key key' d f (e ∙ ap some r)) in
            elim (at_entry sent w d v f) [
              | inl (u, i, g) ↦ rw g (e, set_loop-other d c (some u) w.loops x)
              | inr (g, t) ↦ rw g (
                lookup-delete_other key key' w.application_map m ∙ e,
                set_loop-other d c none w.loops x,
              )
            ]
      ]
