-- ===== src/ClusterAgent/Syncs/Results.antt =====
-- The result of the handler of a SyncOperation.
use managed_gitops.Base.{
  ◌≡◌, ◌≢◌, refl, sym, ap, ◌∙◌, Bool, true, false, Option, none, some, List, [], ◌∷◌, String, ◌==◌,
  eq_iff, arith,
}
use managed_gitops.Base.Client.{ok}
use managed_gitops.Util.Operations.{Operation, OperationCr}
use managed_gitops.ClusterAgent.InfoCache.{Application}
use managed_gitops.ClusterAgent.Resources.{
  Effect, refresh_application, sync_application, Handled, done,
}
use managed_gitops.ClusterAgent.Syncs.{
  SyncOperation, running, Answers, await_sync, run_of, refreshed, with_application,
  with_sync_operation, process_sync_operation,
}
use managed_gitops.ClusterAgent.Syncs.Decision.{Decided, await_sync-Decided}

-- A SyncOperation that asks for a sync, of an Application whose refresh succeeds.
pub record IsStarted (a : Answers) (op : Operation) (s : SyncOperation) (app : Application)
    : Type 0 where
  pub named : op.resource_id ≢ ""
  pub read : a.get_sync_operation ≡ ok s
  pub found : a.get_application s.application_id ≡ ok app
  pub wanted : s.desired_state ≡ running
  pub refresh : a.refresh_app ≡ none

abbrev pub sync_effects : Application → String → SyncOperation → List Effect
sync_effects app ns s =
    refresh_application app.name ns ∷ sync_application app.name ns s.revision ∷ []

module _ (a : Answers) (ns : String) (op : Operation) (cr : OperationCr) (s : SyncOperation)
    (app : Application) (i : IsStarted a op s app) where
  starts : process_sync_operation a ns op cr ≡ run_of (sync_effects app ns s) (await_sync a.rounds)
  unfolding process_sync_operation with_sync_operation with_application refreshed
  starts =
      let named : (op.resource_id == "") ≡ false =
        ground (arith, i.named, eq_iff op.resource_id "") in
      let wanted : (s.desired_state == running) ≡ true =
        (eq_iff s.desired_state running).1 i.wanted in
      rw named (
        ap (with_sync_operation a ns) i.read
        ∙ ap (with_application a ns s) i.found
        ∙ rw wanted (ap (refreshed a ns s app) i.refresh))

run_done :
    (es : List Effect) (o : Option (Bool × Option String)) (h : Handled)
    → run_of es o ≡ done h
    → (h.effects ≡ es) × (o ≡ some (h.retry, h.error))
run_done es none h e = cc e
run_done es (some (retry, error)) h e =
    let q : h ≡ record { effects = es; retry = retry; error = error; panicked = false } = cc e in
    rw q (refl, refl)

-- The row of a SyncOperation asks for a sync, the row of its Application is found, and the refresh
-- of the Application succeeds. If the handler ends, then it has refreshed the Application and then
-- started the sync, in this order and nothing else; and its result is decided by one of the rounds
-- of its loop, before which the row still asked for the sync in every round and the sync had not
-- ended. In that round the sync had ended, and its error is the result, with a retry if there is
-- one; or the row asked for something else, was gone or could not be read, and there is neither.
pub process_sync_operation-Decided :
    (a : Answers) (ns : String) (op : Operation) (cr : OperationCr) (s : SyncOperation)
    (app : Application) (h : Handled)
    → IsStarted a op s app
    → process_sync_operation a ns op cr ≡ done h
    → (h.effects ≡ sync_effects app ns s) × Decided a.rounds (h.retry, h.error)
process_sync_operation-Decided a ns op cr s app h i ran =
    let (effects, result) =
      run_done (sync_effects app ns s) (await_sync a.rounds) h
        (sym (starts a ns op cr s app i) ∙ ran) in
    (effects, await_sync-Decided a.rounds (h.retry, h.error) result)
