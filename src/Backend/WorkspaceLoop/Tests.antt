-- ===== src/Backend/WorkspaceLoop/Tests.antt =====
-- Witnesses and runs of the workspace event loop.
use mathlib.Core.List.{Memᴰ}
use managed_gitops.Base.{
  ℕ, ◌≡◌, ◌≢◌, ne_of_test, refl, sym, ◌∙◌, Bool, true, false, none, some, [], ◌∷◌, String, ◌==◌,
  eq_iff, if◌then◌else◌, arith, eqb,
}
use managed_gitops.Base.Map.{lookup}
use managed_gitops.Base.Client.{ok, not_found}
use managed_gitops.Backend.Event.{
  EventLoopEvent, deployment_modified, sync_run_modified, deployment_type, sync_run_type,
}
use managed_gitops.Backend.AppLoop
use managed_gitops.Backend.AppLoop.{process, on_event}
use managed_gitops.Backend.AppLoop.Sound.{IsSound}
use managed_gitops.Backend.WorkspaceLoop.{
  Answers, World, WorkspaceMessage, Orphans, event_again, check_if_orphaned, unorphan, requeue,
  done, send_request, answer_of,
}
use managed_gitops.Backend.WorkspaceLoop.Handler.{
  route, map_key, process_message, send_event, on_answer,
}
use managed_gitops.Backend.WorkspaceLoop.Orphans.{orphan, unorphan-check_if_orphaned}
use managed_gitops.Backend.WorkspaceLoop.Live.{IsLive}
use managed_gitops.Backend.WorkspaceLoop.Live.Proceeds.{Proceeds}
use managed_gitops.Backend.WorkspaceLoop.Rejection.{at_once, another, route_accepts_again}
use managed_gitops.Backend.WorkspaceLoop.Delivery.{sent_of, world_of, Fresh}
use managed_gitops.Backend.WorkspaceLoop.System.{begin, start, Reach-Proceeds}

-- The SyncRun "run" refers to the deployment "shop", which exists or not.
abbrev answers : Bool → Answers
answers exists = record {
  get_sync_run = λ ns name. ok "shop";
  get_deployment = λ ns name. if exists then ok name else not_found;
  get_namespace = λ name. ok "uid";
  connects = true;
  list_mappings = λ name ns uid. some [];
  get_sync_operation = λ id. none;
  starts = true;
}

abbrev run_event : EventLoopEvent
run_event = record {
  event_type = sync_run_modified;
  namespace = "team";
  name = "run";
  req_resource = sync_run_type;
  workspace_id = "u1";
}

abbrev shop_event : EventLoopEvent
shop_event = record {
  event_type = deployment_modified;
  namespace = "team";
  name = "shop";
  req_resource = deployment_type;
  workspace_id = "u1";
}

abbrev message : WorkspaceMessage
message = event_again shop_event

Reach-Proceeds_example : Proceeds (process_message (answers true) message (start "u1"))
Reach-Proceeds_example = Reach-Proceeds (answers true) message begin (tt, tt)

unorphan-check_if_orphaned_example :
    let (deployment, waiting) = check_if_orphaned (answers false) run_event [] in
    let (rest, again) = unorphan (answers true) shop_event waiting in
    (deployment ≡ "") × Memᴰ (event_again run_event) again × (lookup "shop" rest ≡ none)
unorphan-check_if_orphaned_example =
    unorphan-check_if_orphaned (answers false) (answers true) run_event shop_event "shop" [] refl
      refl refl refl

abbrev waiting_run : Orphans
waiting_run = ("shop", ("run", run_event) ∷ []) ∷ []

waits : orphan "shop" "run" waiting_run ≡ some run_event
unfolding lookup ◌==◌
waits = refl

-- Both runners of the application event loop for "shop" have shut down.
abbrev shut : AppLoop.State
shut = record {
  active_deployment_event = none;
  waiting_deployment_events = [];
  active_sync_operation_event = none;
  waiting_sync_operation_events = [];
  deployment_event_runner_shutdown = true;
  sync_operation_event_runner_shutdown = true;
}

abbrev ending : World
ending = record {
  orphaned_resources = [];
  application_map = ("u1-team-shop", 0) ∷ [];
  loops = λ c. if eqb c 0 then some shut else none;
  next = 1;
  namespace_id = "u1";
}

shut-IsSound : IsSound shut
shut-IsSound = ground arith

only_entry :
    (k : String) (c : ℕ)
    → lookup k ending.application_map ≡ some c
    → (◌≡◌ {A = String} "u1-team-shop" k) × (0 ≡ c)
unfolding lookup
only_entry k c h = ground (arith, eq_iff "u1-team-shop" k)

ending-IsLive : IsLive ending
unfolding lookup
ending-IsLive = record {
  live = λ k c h. let (p, q) = only_entry k c h in (shut, ground arith);
  sound = λ c s h. let e : shut ≡ s = ground arith in rw (← e) shut-IsSound;
  own = λ j k c h i. sym (only_entry j c h).0 ∙ (only_entry k c i).0;
  started = λ k c h. let (p, q) = only_entry k c h in omega (arith, q);
  keys = (refl, tt);
}

is_rejected :
    sent_of (route (answers true) "shop" shop_event message [] ending) ≡ requeue message ∷ []
unfolding route map_key lookup send_event send_request answer_of on_answer process ◌==◌ on_event
is_rejected = refl

-- In between, the loop has handled an event for "blog".
abbrev busy : World
busy =
    let v = world_of ending (route (answers true) "shop" shop_event message [] ending) in
    world_of v (route (answers true) "blog" shop_event message [] v)

apart :
    map_key
      (world_of ending (route (answers true) "shop" shop_event message [] ending))
      "team"
      "blog"
    ≢ map_key ending "team" "shop"
unfolding route map_key lookup send_event send_request answer_of on_answer process ◌==◌ on_event
apart = ne_of_test "u1-team-blog" "u1-team-shop" refl

route_accepts_again_example :
    (u : AppLoop.State) × IsSound u
    × (route (answers true) "shop" shop_event message [] busy
        ≡ done (Fresh (map_key busy "team" "shop") busy u) [])
route_accepts_again_example =
    route_accepts_again (answers true) (answers true) "shop" shop_event message ending busy
      ending-IsLive is_rejected (another (answers true) "blog" shop_event message [] at_once apart)
      refl

shop_entry : lookup (map_key ending "team" "shop") ending.application_map ≡ some 0
unfolding lookup map_key ◌==◌
shop_entry = refl
