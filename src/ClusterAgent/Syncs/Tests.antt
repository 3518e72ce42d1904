-- ===== src/ClusterAgent/Syncs/Tests.antt =====
-- Syncs at concrete answers.
use managed_gitops.Base.{◌≡◌, refl, true, false, none, some, [], ◌∷◌, ◌==◌, ne_of_test}
use managed_gitops.Base.Int.{pos}
use managed_gitops.Base.Client.{ok, not_found, err}
use managed_gitops.Util.Operations.{waiting, sync_operation_resource, Operation, OperationCr}
use managed_gitops.ClusterAgent.InfoCache.{Application}
use managed_gitops.ClusterAgent.Resources.{Handled, done}
use managed_gitops.ClusterAgent.Syncs.{
  SyncOperation, running, Round, Answers, process_sync_operation,
}
use managed_gitops.ClusterAgent.Syncs.Decision.{Decided}
use managed_gitops.ClusterAgent.Syncs.Results.{
  IsStarted, sync_effects, process_sync_operation-Decided,
}

abbrev operation : Operation
operation = record {
  operation_id = "op-1";
  instance_id = "argo";
  resource_id = "sync-1";
  operation_owner_user_id = "user";
  resource_type = sync_operation_resource;
  last_state_update = 0;
  state = waiting;
  human_readable_state = "";
}

abbrev operation_cr : OperationCr
operation_cr = record {
  name = "operation-op-1";
  namespace = "argocd";
  operation_id = "op-1";
  periodic_cleanup = false;
}

abbrev guestbook : Application
guestbook = record {
  application_id = "app-1";
  name = "gitopsdepl-1";
  spec_field = "";
  engine_instance_inst_id = "argo";
  managed_environment_id = "";
  seq_id = pos 1;
  created_on = pos 0;
}

abbrev wanted : SyncOperation
wanted = record { application_id = "app-1"; revision = "main"; desired_state = running }

-- The sync goes on in the first round, and fails after the second one.
abbrev going : Round
going = record { row = ok wanted; ended = none }

abbrev answers : Round → Answers
answers second = record {
  get_sync_operation = ok wanted;
  get_application = λ id. ok guestbook;
  refresh_app = none;
  rounds = going ∷ second ∷ [];
  get_operation = λ name ns. not_found;
  terminate_operation = none;
}

abbrev failing : Round
failing = record { row = ok wanted; ended = some (some "no such revision") }

abbrev unread : Round
unread = record { row = err "connection refused"; ended = none }

is_started : (r : Round) → IsStarted (answers r) operation wanted guestbook
unfolding ◌==◌
is_started r = record {
  named = ne_of_test "sync-1" "" refl;
  read = refl;
  found = refl;
  wanted = refl;
  refresh = refl;
}

abbrev failed_sync : Handled
failed_sync = record {
  effects = sync_effects guestbook "argocd" wanted;
  retry = true;
  error = some "no such revision";
  panicked = false;
}

fails : process_sync_operation (answers failing) "argocd" operation operation_cr ≡ done failed_sync
unfolding process_sync_operation ◌==◌
fails = refl

process_sync_operation-Decided_example :
    (failed_sync.effects ≡ sync_effects guestbook "argocd" wanted)
    × Decided (going ∷ failing ∷ []) (true, some "no such revision")
process_sync_operation-Decided_example =
    process_sync_operation-Decided (answers failing) "argocd" operation operation_cr wanted
      guestbook failed_sync (is_started failing) fails
