-- ===== src/ClusterAgent/Syncs.antt =====
-- processOperation_SyncOperation of operation_event_loop.go, with runAppSync and
-- terminateExistingOperation. The functions of syncFuncs are parameters, as in the code; a round of
-- the loop reads the row and then whether the sync has ended.
pub mod Decision
pub mod Results
mod Tests
use Prim.Native.String.{◌++◌ as concat}
use managed_gitops.Base.{
  Bool, true, false, Option, none, some, List, [], ◌∷◌, String, ◌==◌, is_some, if◌then◌else◌,
}
use managed_gitops.Base.Client.{Result, ok, not_found, err}
use managed_gitops.Util.Operations.{Operation, OperationCr}
use managed_gitops.ClusterAgent.InfoCache.{Application}
use managed_gitops.ClusterAgent.Resources.{
  Effect, refresh_application, terminate_sync, sync_application, Handled, answered, after_effect,
  replied, Run, done, waiting,
}

-- db.SyncOperation and the two desired states
pub record SyncOperation : Type 0 where
  pub application_id : String
  pub revision : String
  pub desired_state : String

abbrev pub running : String
running = "Running"

abbrev pub terminated : String
terminated = "Terminated"

-- A round of runAppSync: the row, and the error of appSync if it has ended.
pub record Round : Type 0 where
  pub row : Result SyncOperation
  pub ended : Option (Option String)

-- What each call answers.
pub record Answers : Type 0 where
  pub get_sync_operation : Result SyncOperation
  pub get_application : String → Result Application
  pub refresh_app : Option String
  pub rounds : List Round
  -- whether the Application has an operation, and whether its status has a state of it
  pub get_operation : String → String → Result (Bool × Bool)
  pub terminate_operation : Option String

abbrev pub not_found_text : String
not_found_text = "not found"

-- The desired state after the query: that of an empty row if it failed.
abbrev pub desired : Result SyncOperation → String
desired (ok s) = s.desired_state
desired not_found = ""
desired (err e) = ""

-- What ends the loop, if this round does.
abbrev pub by_end : Option (Option String) → Option (Bool × Option String)
by_end none = none
by_end (some e) = some (is_some e, e)

abbrev pub by_state : String → Option (Option String) → Option (Bool × Option String)
by_state state ended = if state == running then by_end ended else some (false, none)

unfoldable pub round_ends : Round → Option (Bool × Option String)
round_ends r = elim r.row [
  | ok s ↦ by_state s.desired_state r.ended
  | not_found ↦ some (false, none)
  | err e ↦ by_state (desired r.row) r.ended
]

-- The loop of runAppSync: whether to retry, and the error.
unfoldable pub await_sync : List Round → Option (Bool × Option String)
unfolding round_ends
await_sync [] = none
await_sync (r ∷ rs) =
    let rest = await_sync rs in elim (round_ends r) [ some result ↦ some result | none ↦ rest ]

abbrev pub run_of : List Effect → Option (Bool × Option String) → Run
run_of es none = waiting es
run_of es (some (retry, error)) =
    done (record { effects = es; retry = retry; error = error; panicked = false })

module _ (a : Answers) (ns : String) where
  -- By the error of the refresh.
  unfoldable pub refreshed : SyncOperation → Application → Option String → Run
  unfolding await_sync
  refreshed s app none =
      run_of (refresh_application app.name ns ∷ sync_application app.name ns s.revision ∷ [])
        (await_sync a.rounds)
  refreshed s app (some e) =
      done (after_effect (refresh_application app.name ns) (answered true (some e)))

  -- isOperationRunning, and terminateExistingOperation by its answer.
  unfoldable pub terminate_existing : Application → Result (Bool × Bool) → Handled
  terminate_existing app (ok (has_operation, has_state)) =
      if has_operation
      then (if has_state
          then after_effect (terminate_sync app.name ns) (replied a.terminate_operation)
          else answered false none)
      else answered false none
  terminate_existing app not_found = answered true (some not_found_text)
  terminate_existing app (err e) = answered true (some e)

  -- By the Application's row.
  unfoldable pub with_application : SyncOperation → Result Application → Run
  unfolding refreshed terminate_existing
  with_application s (ok app) =
      if s.desired_state == running
      then refreshed s app a.refresh_app
      else if s.desired_state == terminated
      then done (terminate_existing app (a.get_operation app.name ns))
      else done (answered false none)
  with_application s not_found = done (answered false (some not_found_text))
  with_application s (err e) = done (answered true (some e))

  unfoldable pub with_sync_operation : Result SyncOperation → Run
  unfolding with_application
  with_sync_operation (ok s) = with_application s (a.get_application s.application_id)
  with_sync_operation not_found = done (answered false (some not_found_text))
  with_sync_operation (err e) = done (answered true (some e))

  -- processOperation_SyncOperation
  unfoldable pub process_sync_operation : Operation → OperationCr → Run
  unfolding with_sync_operation
  process_sync_operation op cr =
      if op.resource_id == ""
      then done (
          answered false (some (concat "resource id was nil while processing operation: " cr.name)))
      else with_sync_operation a.get_sync_operation
