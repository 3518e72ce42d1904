-- ===== src/Backend/ControllerLoop/Rounds.antt =====
-- One round of the controller event loop: controller_event_loop.go.
use managed_gitops.Base.{
  ℕ, suc, ◌<◌, ◌≡◌, ◌≢◌, refl, sym, ◌∙◌, none, some, List, [], ◌∷◌, String, ◌==◌, eq_iff, eqb,
  if◌then◌else◌, ◌⊎◌, inl, inr, Option-cases, arith,
}
use managed_gitops.Base.Map.{lookup, insert, lookup-insert, lookup-insert_self, lookup-insert_other}
use managed_gitops.Backend.Event.{EventLoopEvent}
use managed_gitops.Backend.ControllerLoop.{
  WorkspaceEntry, State, Effect, message_of, new_entry, route_event,
}
use managed_gitops.Backend.ControllerLoop.Deliveries.{sent_to, routers_for}

-- The channels of two workspaces differ.
pub record IsSharded (s : State) : Type 0 where
  pub used :
      (id : String) (e : WorkspaceEntry)
      → lookup id s.workspace_entries ≡ some e
      → e.workspace_event_loop < s.next
  pub own :
      (i j : String) (e f : WorkspaceEntry)
      → lookup i s.workspace_entries ≡ some e
      → lookup j s.workspace_entries ≡ some f
      → e.workspace_event_loop ≡ f.workspace_event_loop
      → i ≡ j

inserted-IsSharded :
    (ev : EventLoopEvent) (s : State)
    → IsSharded s
    → IsSharded (record {
      workspace_entries = insert ev.workspace_id (new_entry ev s) s.workspace_entries;
      next = suc s.next;
    })
inserted-IsSharded ev s v = record {
  used = λ id e h. elim (added id e h) [
    | inl (p, q) ↦ omega (arith, q)
    | inr q ↦ omega (arith, v.used id e q)
  ];
  own = λ i j e f h k p. elim (added i e h) [
    | inl (a, b) ↦ elim (added j f k) [
      | inl (a', b') ↦ sym a ∙ a'
      | inr q ↦ absurd (omega (arith, v.used j f q, p, b))
    ]
    | inr q ↦ elim (added j f k) [
      | inl (a', b') ↦ absurd (omega (arith, v.used i e q, p, b'))
      | inr q' ↦ v.own i j e f q q' p
    ]
  ];
}
  where
    added :
        (id : String) (e : WorkspaceEntry)
        → lookup id (insert ev.workspace_id (new_entry ev s) s.workspace_entries) ≡ some e
        → ((ev.workspace_id ≡ id) × (e.workspace_event_loop ≡ s.next))
          ⊎ (lookup id s.workspace_entries ≡ some e)
    added id e h = ground (
      arith,
      lookup-insert ev.workspace_id id (new_entry ev s) s.workspace_entries,
      eq_iff ev.workspace_id id,
    )

-- After a round the workspace of the event has an entry, to whose channel alone the event was sent;
-- a router was started for it if it had none; and every entry that there was remains.
abbrev pub Routed : EventLoopEvent → State → State × List Effect → Type 0
Routed ev s (t, es) =
    IsSharded t
    × ((e : WorkspaceEntry) × (lookup ev.workspace_id t.workspace_entries ≡ some e)
        × ((c : ℕ)
            → sent_to c es ≡ (if eqb e.workspace_event_loop c then message_of ev ∷ [] else [])))
    × ((id : String)
        → routers_for id es ≡ (elim (lookup ev.workspace_id s.workspace_entries) [
          | some e ↦ []
          | none ↦ if ev.workspace_id == id then ev.namespace ∷ [] else []
        ]))
    × ((id : String)
        → ev.workspace_id ≢ id
        → lookup id t.workspace_entries ≡ lookup id s.workspace_entries)
    × ((id : String) (e : WorkspaceEntry)
        → lookup id s.workspace_entries ≡ some e
        → lookup id t.workspace_entries ≡ some e)

pub route_event-Routed :
    (ev : EventLoopEvent) (s : State) → IsSharded s → Routed ev s (route_event ev s)
unfolding route_event
route_event-Routed ev s v = elim (Option-cases (lookup ev.workspace_id s.workspace_entries)) [
  | inr (e, h) ↦ rw (h, route_event) (v, (e, h, λ c. refl), λ id. refl, λ id n. refl, λ id f k. k)
  | inl h ↦
      rw (h, route_event)
        (
          inserted-IsSharded ev s v,
          (
            new_entry ev s,
            lookup-insert_self ev.workspace_id (new_entry ev s) s.workspace_entries,
            λ c. refl,
          ),
          λ id. refl,
          λ id n. lookup-insert_other ev.workspace_id id _ _ n,
          λ id f k. lookup-insert_other ev.workspace_id id _ _ (λ p. cc) ∙ k,
        )
]
