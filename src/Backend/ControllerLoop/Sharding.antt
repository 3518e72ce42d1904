-- ===== src/Backend/ControllerLoop/Sharding.antt =====
-- Which events the router of a workspace gets: controller_event_loop.go.
use managed_gitops.Base.{
  ℕ, ◌≡◌, ◌≢◌, refl, ap, ◌∙◌, true, false, none, some, List, [], ◌∷◌, ◌++◌, String, ◌==◌, eq_iff,
  eqb, if◌then◌else◌, eq_refl, inl, inr, Bool-cases, Option-cases, arith,
}
use mathlib.Core.Path.{subst}
use managed_gitops.Base.Map.{lookup}
use managed_gitops.Backend.Event.{EventLoopEvent}
use managed_gitops.Backend.ControllerLoop.{
  WorkspaceEntry, State, initial, Effect, message_of, route_event, route_events,
}
use managed_gitops.Backend.ControllerLoop.Deliveries.{
  messages_for, sent_to, delivered, routers_for, first_namespace, sent_to_append,
  routers_for_append,
}
use managed_gitops.Backend.ControllerLoop.Rounds.{IsSharded, Routed, route_event-Routed}

-- In a state like that the message of a round is for the channel c of id exactly if its event is.
sent_exactly :
    (id : String) (e e' : WorkspaceEntry) (ev : EventLoopEvent) (t : State)
    → IsSharded t
    → lookup id t.workspace_entries ≡ some e
    → lookup ev.workspace_id t.workspace_entries ≡ some e'
    → eqb e'.workspace_event_loop e.workspace_event_loop ≡ (ev.workspace_id == id)
sent_exactly id e e' ev t v h l =
    ground (arith, eq_iff ev.workspace_id id, v.own ev.workspace_id id e' e l h)

-- What a run does for a workspace that has an entry: the entry stays, its channel gets the messages
-- of the events, and no router is started.
abbrev Continues : String → WorkspaceEntry → List EventLoopEvent → State × List Effect → Type 0
Continues id e evs (u, es) =
    (lookup id u.workspace_entries ≡ some e)
    × (sent_to e.workspace_event_loop es ≡ messages_for id evs)
    × (routers_for id es ≡ [])

-- The first round of a run, as Routed describes it, and the rest.
Continues-step :
    (id : String) (e : WorkspaceEntry) (ev : EventLoopEvent) (evs : List EventLoopEvent) (s : State)
    (r : State × List Effect) (rest : State × List Effect)
    → IsSharded s
    → lookup id s.workspace_entries ≡ some e
    → Routed ev s r
    → Continues id e evs rest
    → Continues id e (ev ∷ evs) (rest.0, r.1 ++ rest.1)
Continues-step id e ev evs s (t, es) (u, fs) v h (vt, (e', l, sent), started, other, kept)
      (a, b, c) =
    (a, sent_lem, started_lem)
  where
    sent_lem : sent_to e.workspace_event_loop (es ++ fs) ≡ messages_for id (ev ∷ evs)
    sent_lem = elim (Bool-cases (ev.workspace_id == id)) [
      | inl p ↦
          rw
            (
              sent_to_append e.workspace_event_loop es fs,
              sent e.workspace_event_loop,
              sent_exactly id e e' ev t vt (kept id e h) l,
              p,
              b,
            )
            refl
      | inr p ↦
          rw
            (
              sent_to_append e.workspace_event_loop es fs,
              sent e.workspace_event_loop,
              sent_exactly id e e' ev t vt (kept id e h) l,
              p,
              b,
            )
            refl
    ]

    started_lem : routers_for id (es ++ fs) ≡ []
    started_lem = ground (
      arith,
      routers_for_append id es fs,
      started id,
      c,
      eq_iff ev.workspace_id id,
      Option-cases (lookup ev.workspace_id s.workspace_entries),
    )

route_events-IsSharded :
    (evs : List EventLoopEvent) (s : State) → IsSharded s → IsSharded (route_events evs s).0
unfolding route_events
route_events-IsSharded [] s v = v
route_events-IsSharded (ev ∷ evs) s v =
    route_events-IsSharded evs (route_event ev s).0 (route_event-Routed ev s v).0

route_events-Continues :
    (id : String) (e : WorkspaceEntry) (evs : List EventLoopEvent) (s : State)
    → IsSharded s
    → lookup id s.workspace_entries ≡ some e
    → Continues id e evs (route_events evs s)
unfolding route_events
route_events-Continues id e [] s v h = (h, refl, refl)
route_events-Continues id e (ev ∷ evs) s v h =
    let r = route_event-Routed ev s v in
    Continues-step id e ev evs s (route_event ev s) (route_events evs (route_event ev s).0) v h r
      (route_events-Continues id e evs (route_event ev s).0 r.0 (r.4 id e h))

-- What a run does for a workspace that has no entry yet.
abbrev Starts : String → List EventLoopEvent → State × List Effect → Type 0
Starts id evs r =
    (delivered id r ≡ messages_for id evs) × (routers_for id r.1 ≡ first_namespace id evs)

delivered-some :
    (id : String) (e : WorkspaceEntry) (u : State) (es : List Effect)
    → lookup id u.workspace_entries ≡ some e
    → delivered id (u, es) ≡ sent_to e.workspace_event_loop es
delivered-some id e u es h = rw (h, delivered) refl

-- What is sent to the channel of one workspace is not delivered to another.
delivered_later :
    (id : String) (ev : EventLoopEvent) (e : WorkspaceEntry) (es : List Effect) (u : State)
    (fs : List Effect)
    → IsSharded u
    → ev.workspace_id ≢ id
    → lookup ev.workspace_id u.workspace_entries ≡ some e
    → ((c : ℕ) → sent_to c es ≡ (if eqb e.workspace_event_loop c then message_of ev ∷ [] else []))
    → delivered id (u, es ++ fs) ≡ delivered id (u, fs)
delivered_later id ev e es u fs v n l sent = elim (Option-cases (lookup id u.workspace_entries)) [
  | inl h ↦ rw (h, delivered) refl
  | inr (g, h) ↦
      rw
        (
          h,
          delivered,
          sent_to_append g.workspace_event_loop es fs,
          sent g.workspace_event_loop,
          sent_exactly id g e ev u v h l,
          ne_false ev.workspace_id id n,
        )
        refl
]
  where
    ne_false : (i j : String) → i ≢ j → (i == j) ≡ false
    ne_false i j m = ground (arith, eq_iff i j)

-- A run whose first event is the first one of its workspace.
own-Starts :
    (ev : EventLoopEvent) (evs : List EventLoopEvent) (s : State) (t : State) (es : List Effect)
    (rest : State × List Effect)
    → lookup ev.workspace_id s.workspace_entries ≡ none
    → (r : Routed ev s (t, es)) → Continues ev.workspace_id r.1.0 evs rest
    → Starts ev.workspace_id (ev ∷ evs) (rest.0, es ++ rest.1)
own-Starts ev evs s t es (u, fs) h (vt, (e, l, sent), started, other, kept) (a, b, c) = (
  delivered-some ev.workspace_id e u (es ++ fs) a
      ∙ (sent_to_append e.workspace_event_loop es fs
          ∙ rw
              (
                sent e.workspace_event_loop,
                eqb_refl e.workspace_event_loop,
                b,
                eq_refl ev.workspace_id,
              )
              refl),
  routers_for_append ev.workspace_id es fs
      ∙ rw (started ev.workspace_id, h, eq_refl ev.workspace_id, c) refl,
)
  where
    eqb_refl : (c : ℕ) → eqb c c ≡ true
    eqb_refl c = ground arith

false_ne : (i j : String) → (i == j) ≡ false → i ≢ j
false_ne i j m p = ground (arith, eq_iff i j)

-- A run whose first event belongs to another workspace.
other-Starts :
    (id : String) (ev : EventLoopEvent) (evs : List EventLoopEvent) (s : State) (t : State)
    (es : List Effect) (rest : State × List Effect)
    → IsSharded rest.0
    → (ev.workspace_id == id) ≡ false
    → (r : Routed ev s (t, es)) → Continues ev.workspace_id r.1.0 evs rest
    → Starts id evs rest
    → Starts id (ev ∷ evs) (rest.0, es ++ rest.1)
other-Starts id ev evs s t es (u, fs) v n (vt, (e, l, sent), started, other, kept) (a, b, c)
      (d, f) =
    (
      delivered_later id ev e es u fs v (λ p. false_ne ev.workspace_id id n p) a sent
          ∙ (d ∙ rw n refl),
      routers_for_append id es fs
          ∙ ground
              (arith, started id, n, f, Option-cases (lookup ev.workspace_id s.workspace_entries)),
    )

route_events-Starts :
    (id : String) (evs : List EventLoopEvent) (s : State)
    → IsSharded s
    → lookup id s.workspace_entries ≡ none
    → Starts id evs (route_events evs s)
unfolding route_events
route_events-Starts id [] s v h = (rw (h, delivered) refl, refl)
route_events-Starts id (ev ∷ evs) s v h =
    let r = route_event-Routed ev s v in
    let t = (route_event ev s).0 in
    let es = (route_event ev s).1 in
    let later = route_events-Continues ev.workspace_id r.1.0 evs t r.0 r.1.1 in
    elim (Bool-cases (ev.workspace_id == id)) [
      | inl p ↦
          subst (λ i. Starts i (ev ∷ evs) (route_events (ev ∷ evs) s))
            ((eq_iff ev.workspace_id id).0 p)
            (own-Starts ev evs s t es (route_events evs t)
              (ap (λ i. lookup i s.workspace_entries) ((eq_iff ev.workspace_id id).0 p) ∙ h) r
              later)
      | inr p ↦
          other-Starts id ev evs s t es (route_events evs t) (route_events-IsSharded evs t r.0) p r
            later (route_events-Starts id evs t r.0 (r.3 id (false_ne ev.workspace_id id p) ∙ h))
    ]

-- Events that reach the controller event loop after its start, in any order and of any number of
-- workspaces: what the router of a workspace has been sent are the messages of that workspace's
-- events, all of them and in their order; and one router was started for it, with the namespace of
-- its first event, or none if it had no event.
pub route_events-shards :
    (id : String) (evs : List EventLoopEvent)
    → (delivered id (route_events evs initial) ≡ messages_for id evs)
      × (routers_for id (route_events evs initial).1 ≡ first_namespace id evs)
unfolding initial lookup
route_events-shards id evs = route_events-Starts id evs initial initial_lem refl
  where
    initial_lem : IsSharded initial
    initial_lem = record { used = λ i e h. cc; own = λ i j e f h k p. cc }
