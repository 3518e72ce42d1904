-- ===== src/Backend/WorkspaceLoop/Orphans.antt =====
-- SyncRuns that wait for their deployment: workspace_event_loop.go.
use mathlib.Core.List.{Memᴰ}
use managed_gitops.Base.{
  ◌≡◌, refl, sym, ap, ◌∙◌, Option, none, some, [], ◌∷◌, String, ◌==◌, eq_iff, if◌then◌else◌, ◌⊎◌,
  inl, inr, ◌&&◌, Bool-cases, Option-cases, arith,
}
use managed_gitops.Base.Map.{
  Map, lookup, insert, delete, lookup-insert, lookup-delete, lookup-insert_self, lookup-delete_self,
}
use managed_gitops.Base.Client.{Result, ok, not_found, err}
use managed_gitops.Backend.Event.{EventLoopEvent, sync_run_type}
use managed_gitops.Backend.WorkspaceLoop.{
  event_again, Answers, Orphans, or_empty, add_orphan, check_if_orphaned, requeued_events, unorphan,
  is_sync_run, if_orphaned_by_sync_run, if_orphaned_by_deployment,
}

-- The event that waits for a deployment on behalf of a SyncRun.
abbrev pub orphan : String → String → Orphans → Option EventLoopEvent
orphan deployment run o = lookup run (or_empty (lookup deployment o))

orphan-add_orphan :
    (deployment d run : String) (ev : EventLoopEvent) (o : Orphans)
    → orphan d run (add_orphan deployment ev o)
      ≡ (if (deployment == d) && (ev.name == run) then some ev else orphan d run o)
unfolding add_orphan
orphan-add_orphan deployment d run ev o =
    let w = or_empty (lookup deployment o) in
    elim (Bool-cases (deployment == d)) [
      | inl b ↦
          let e = (eq_iff deployment d).0 b in
          rw (lookup-insert deployment d (insert ev.name ev w) o) (
            rw b (rw (lookup-insert ev.name run ev w) (ground (arith, ap (λ x. orphan x run o) e))))
      | inr b ↦ rw (lookup-insert deployment d (insert ev.name ev w) o) (rw b refl)
    ]

requeued_events-mem :
    (run : String) (e : EventLoopEvent) (waiting : Map EventLoopEvent)
    → lookup run waiting ≡ some e
    → Memᴰ (event_again e) (requeued_events waiting)
unfolding requeued_events lookup
requeued_events-mem run e [] h = cc
requeued_events-mem run e ((k, x) ∷ waiting) h = elim (Bool-cases (k == run)) [
  | inl b ↦ let f : e ≡ x = ground arith in Memᴰ.head (ap event_again f)
  | inr b ↦ Memᴰ.tail (requeued_events-mem run e waiting (ground arith))
]

inserted :
    (ev : EventLoopEvent) (deployment : String) (o : Orphans)
    → lookup deployment (add_orphan deployment ev o)
      ≡ some (insert ev.name ev (or_empty (lookup deployment o)))
unfolding add_orphan
inserted ev deployment o = lookup-insert_self deployment _ o

orphaned :
    (a : Answers) (ev : EventLoopEvent) (deployment : String) (o : Orphans)
    → ev.req_resource ≡ sync_run_type
    → a.get_sync_run ev.namespace ev.name ≡ ok deployment
    → a.get_deployment ev.namespace deployment ≡ not_found
    → check_if_orphaned a ev o ≡ ("", add_orphan deployment ev o)
unfolding check_if_orphaned if_orphaned_by_sync_run if_orphaned_by_deployment
orphaned a ev deployment o r s m =
    ap
      (λ t.
        if is_sync_run t
        then if_orphaned_by_sync_run a ev (a.get_sync_run ev.namespace ev.name) o
        else ("", o))
      r
    ∙ ap (λ t. if_orphaned_by_sync_run a ev t o) s
    ∙ ap (λ t. if_orphaned_by_deployment ev deployment t o) m

unorphaned :
    (a : Answers) (ev : EventLoopEvent) (name : String) (waiting : Map EventLoopEvent) (o : Orphans)
    → lookup ev.name o ≡ some waiting
    → a.get_deployment ev.namespace ev.name ≡ ok name
    → unorphan a ev o ≡ (delete ev.name o, requeued_events waiting)
unfolding unorphan
unorphaned a ev name waiting o h l = rw (h, unorphan) (rw (l, unorphan) refl)

Result-cases :
    {A : Type 0} (r : Result A)
    → ((a : A) × (r ≡ ok a)) ⊎ (r ≡ not_found) ⊎ ((e : String) × (r ≡ err e))
Result-cases (ok a) = inl (a, refl)
Result-cases not_found = inr (inl refl)
Result-cases (err e) = inr (inr (e, refl))

unorphan_keeps :
    (a : Answers) (ev e : EventLoopEvent) (deployment run : String) (o : Orphans)
    → orphan deployment run o ≡ some e
    → let (rest, again) = unorphan a ev o in
      (orphan deployment run rest ≡ some e) ⊎ Memᴰ (event_again e) again
unfolding unorphan
unorphan_keeps a ev e deployment run o h = elim (Option-cases (lookup ev.name o)) [
  | inl n ↦ rw (n, unorphan) (inl h)
  | inr (w, f) ↦ elim (Result-cases (a.get_deployment ev.namespace ev.name)) [
    | inr (inl m) ↦ rw (f, unorphan) (rw (m, unorphan) (inl h))
    | inr (inr (x, m)) ↦ rw (f, unorphan) (rw (m, unorphan) (inl h))
    | inl (name, m) ↦
        rw (f, unorphan)
          (rw (m, unorphan)
            (elim (Bool-cases (ev.name == deployment)) [
              | inl b ↦
                  let g = (eq_iff ev.name deployment).0 b in
                  inr (
                    requeued_events-mem run e w
                      (ap (λ t. lookup run (or_empty t)) (sym f) ∙ ap (λ t. orphan t run o) g ∙ h))
              | inr b ↦ inl (rw (lookup-delete ev.name deployment o) (rw b h))
            ]))
  ]
]

-- What an event for a SyncRun may do to the orphans: nothing, or add itself.
abbrev Adds : EventLoopEvent → Orphans → Orphans → Type 0
Adds ev o o' = (o' ≡ o) ⊎ ((d : String) × (o' ≡ add_orphan d ev o))

by_deployment-Adds :
    (ev : EventLoopEvent) (d : String) (r : Result String) (o : Orphans)
    → Adds ev o (if_orphaned_by_deployment ev d r o).1
unfolding if_orphaned_by_deployment
by_deployment-Adds ev d (ok name) o = inl refl
by_deployment-Adds ev d (err e) o = inl refl
by_deployment-Adds ev d not_found o = inr (d, refl)

by_sync_run-Adds :
    (a : Answers) (ev : EventLoopEvent) (r : Result String) (o : Orphans)
    → Adds ev o (if_orphaned_by_sync_run a ev r o).1
unfolding if_orphaned_by_sync_run
by_sync_run-Adds a ev not_found o = inl refl
by_sync_run-Adds a ev (err e) o = inl refl
by_sync_run-Adds a ev (ok d) o = by_deployment-Adds ev d (a.get_deployment ev.namespace d) o

check_if_orphaned-Adds :
    (a : Answers) (ev : EventLoopEvent) (o : Orphans) → Adds ev o (check_if_orphaned a ev o).1
unfolding check_if_orphaned
check_if_orphaned-Adds a ev o = elim (Bool-cases (is_sync_run ev.req_resource)) [
  | inl b ↦
      rw (b, check_if_orphaned) (by_sync_run-Adds a ev (a.get_sync_run ev.namespace ev.name) o)
  | inr b ↦ rw (b, check_if_orphaned) (inl refl)
]

replaced :
    (ev e : EventLoopEvent) (deployment run : String) (o o' : Orphans)
    → Adds ev o o'
    → orphan deployment run o ≡ some e
    → (orphan deployment run o' ≡ some e) ⊎ ((orphan deployment run o' ≡ some ev) × (ev.name ≡ run))
replaced ev e deployment run o o' (inl f) h = inl (rw f h)
replaced ev e deployment run o o' (inr (d, f)) h =
    rw f (elim (Bool-cases ((d == deployment) && (ev.name == run))) [
      | inl b ↦
          inr (
            orphan-add_orphan d deployment run ev o ∙ rw b refl,
            ground (arith, eq_iff ev.name run),
          )
      | inr b ↦ inl (orphan-add_orphan d deployment run ev o ∙ rw b h)
    ])

-- A SyncRun whose deployment does not exist waits for it; when an event for the deployment comes
-- and it exists, the event of the SyncRun is put back, and nothing waits for the deployment.
pub unorphan-check_if_orphaned :
    (a later : Answers) (ev dev : EventLoopEvent) (name : String) (o : Orphans)
    → ev.req_resource ≡ sync_run_type
    → a.get_sync_run ev.namespace ev.name ≡ ok dev.name
    → a.get_deployment ev.namespace dev.name ≡ not_found
    → later.get_deployment dev.namespace dev.name ≡ ok name
    → let (deployment, waiting) = check_if_orphaned a ev o in
      let (rest, again) = unorphan later dev waiting in
      (deployment ≡ "") × Memᴰ (event_again ev) again × (lookup dev.name rest ≡ none)
unorphan-check_if_orphaned a later ev dev name o r s m l =
    let w = insert ev.name ev (or_empty (lookup dev.name o)) in
    rw (orphaned a ev dev.name o r s m) (
      rw (unorphaned later dev name w (add_orphan dev.name ev o) (inserted ev dev.name o) l) (
        refl,
        requeued_events-mem ev.name ev w
            (lookup-insert_self ev.name ev (or_empty (lookup dev.name o))),
        lookup-delete_self dev.name (add_orphan dev.name ev o),
      ))

-- No event that waits is lost. An event for a deployment leaves it waiting or puts it back; an
-- event for a SyncRun leaves it waiting, or replaces it by itself if it is the same SyncRun's.
pub orphans_kept :
    (a : Answers) (ev e : EventLoopEvent) (deployment run : String) (o : Orphans)
    → orphan deployment run o ≡ some e
    → let (rest, again) = unorphan a ev o in
      let o' = (check_if_orphaned a ev o).1 in
      ((orphan deployment run rest ≡ some e) ⊎ Memᴰ (event_again e) again)
      × ((orphan deployment run o' ≡ some e)
          ⊎ ((orphan deployment run o' ≡ some ev) × (ev.name ≡ run)))
orphans_kept a ev e deployment run o h = (
  unorphan_keeps a ev e deployment run o h,
  replaced ev e deployment run o _ (check_if_orphaned-Adds a ev o) h,
)
