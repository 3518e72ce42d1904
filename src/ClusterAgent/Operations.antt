-- ===== src/ClusterAgent/Operations.antt =====
-- cluster-agent/controllers/managed-gitops/eventloop/operation_event_loop.go: an Operation resource
-- becomes a task of the retry loop, whose attempts keep the state of the row. The handlers of the
-- five kinds of resource are arguments here; they are modelled in the modules beside this one.
pub mod Runs
pub mod States
pub mod Conclusion
pub mod Instances
mod Tests
use Prim.Native.String.{◌++◌ as concat}
use managed_gitops.Base.{
  ℕ, Bool, true, false, Option, none, some, List, [], ◌∷◌, ◌++◌, map, ◌&&◌, not, String, ◌==◌,
  if◌then◌else◌,
}
use managed_gitops.Base.Client.{Result, ok, not_found, err}
use managed_gitops.Util.Varchar.{truncate_varchar}
use managed_gitops.Util.Operations.{
  OperationState, waiting, in_progress, completed, failed, OperationResourceType,
  managed_environment_resource, sync_operation_resource, application_resource,
  repository_credentials_resource, gitops_engine_instance_resource, other_resource, Operation,
  OperationCr, GitopsEngineInstance, is_waiting, is_concluded,
}
use managed_gitops.ClusterAgent.Resources.{Effect, Handled}

-- The handlers of processOperation_*: the row, the resource, the namespace of Argo CD.
pub record Handlers : Type 0 where
  pub application : Operation → OperationCr → String → Handled
  pub managed_environment : Operation → OperationCr → String → Handled
  pub repository_credentials : Operation → OperationCr → String → Handled
  pub sync_operation : Operation → OperationCr → String → Handled
  pub engine_instance : Operation → OperationCr → String → Handled

-- What each call of an attempt answers, by its place in the code; an update answers with its error.
pub record Answers : Type 0 where
  pub database_error : Option String
  pub get_cr : Result OperationCr
  pub get_row : String → Result Operation
  pub get_instance : String → Result GitopsEngineInstance
  pub update_begun : Operation → Option String
  -- the UID of kube-system; the id of the cluster with it, if there is one
  pub get_kube_system : Result String
  pub get_cluster : String → Result (Option String)
  -- the UID of the namespace
  pub get_argo_namespace : String → Result String
  pub update_outcome : Operation → Option String
  pub now : ℕ

pub data Write : Type 0 where
  update_row : Operation → Write
  apply : Effect → Write

-- internalPerformTask: its writes and what it returns.
pub record Internal : Type 0 where
  pub writes : List Write
  pub row : Option Operation
  pub retry : Bool
  pub error : Option String
  pub panicked : Bool

abbrev pub stop : Option Operation → Bool → Option String → Internal
stop row retry error = record {
  writes = [];
  row = row;
  retry = retry;
  error = error;
  panicked = false;
}

abbrev pub handled : Option Operation → Handled → Internal
handled row h = record {
  writes = map apply h.effects;
  row = row;
  retry = h.retry;
  error = h.error;
  panicked = h.panicked;
}

-- The error of a call that does not find its object.
abbrev pub not_found_text : String
not_found_text = "not found"

-- Step 5: by the type of the resource.
unfoldable pub dispatch :
    Handlers → OperationResourceType → Operation → OperationCr → String → Internal
dispatch h application_resource row cr ns = handled (some row) (h.application row cr ns)
dispatch h managed_environment_resource row cr ns =
    handled (some row) (h.managed_environment row cr ns)
dispatch h repository_credentials_resource row cr ns =
    handled (some row) (h.repository_credentials row cr ns)
dispatch h sync_operation_resource row cr ns = handled (some row) (h.sync_operation row cr ns)
dispatch h gitops_engine_instance_resource row cr ns = handled none (h.engine_instance row cr ns)
dispatch h (other_resource t) row cr ns = stop (some row) false none

module _ (a : Answers) (h : Handlers) where
  -- Step 4: by the answer to the Get of the namespace.
  unfoldable pub in_namespace :
      Operation → OperationCr → GitopsEngineInstance → Result String → Internal
  unfolding dispatch
  in_namespace row cr i (ok uid) =
      if uid == i.namespace_uid
      then dispatch h row.resource_type row cr i.namespace_name
      else stop (some row) false none
  in_namespace row cr i not_found =
      stop (some row) true (some (concat "argo CD namespace doesn't exist: " i.namespace_name))
  in_namespace row cr i (err e) = stop (some row) true (some e)

  -- The cluster of the instance is this one.
  unfoldable pub on_cluster :
      Operation → OperationCr → GitopsEngineInstance → Result (Option String) → Internal
  unfolding in_namespace
  on_cluster row cr i (ok none) = stop (some row) true none
  on_cluster row cr i (ok (some id)) =
      if id == i.enginecluster_id
      then in_namespace row cr i (a.get_argo_namespace i.namespace_name)
      else stop (some row) true none
  on_cluster row cr i not_found = stop (some row) true (some not_found_text)
  on_cluster row cr i (err e) = stop (some row) true (some e)

  abbrev pub kube_system_error : String
  kube_system_error = "unable to retrieve kube-system namespace in internalPerformTask"

  unfoldable pub check_cluster :
      Operation → OperationCr → GitopsEngineInstance → Result String → Internal
  unfolding on_cluster
  check_cluster row cr i (ok uid) = on_cluster row cr i (a.get_cluster uid)
  check_cluster row cr i not_found = stop (some row) true (some kube_system_error)
  check_cluster row cr i (err e) = stop (some row) true (some kube_system_error)

  -- By the answer to the update of a waiting row.
  unfoldable pub begun : Operation → OperationCr → GitopsEngineInstance → Option String → Internal
  unfolding check_cluster
  begun row cr i none =
      let o = check_cluster row cr i a.get_kube_system in
      record o { writes = update_row row ∷ o.writes }
  begun row cr i (some e) = record {
    writes = update_row row ∷ [];
    row = none;
    retry = true;
    error = some (concat "unable to update Operation, err: " e);
    panicked = false;
  }

  unfoldable pub begin : Operation → OperationCr → GitopsEngineInstance → Internal
  unfolding begun
  begin row cr i =
      let row' = record row { state = in_progress } in
      if is_concluded row.state
      then stop (some row) false none
      else if is_waiting row.state
      then begun row' cr i (a.update_begun row')
      else check_cluster row cr i a.get_kube_system

  -- Step 3: by the instance of Argo CD.
  unfoldable pub with_instance : Operation → OperationCr → Result GitopsEngineInstance → Internal
  unfolding begin
  with_instance row cr (ok i) =
      if cr.namespace == i.namespace_name
      then begin row cr i
      else stop none false (
          some (
            concat
              "OperationCR namespace did not match with existing namespace of GitopsEngineInstance OperationNS: "
              (concat cr.namespace (concat " GitopsEngineInstanceNS: " i.namespace_name))))
  with_instance row cr not_found = stop none false none
  with_instance row cr (err e) = stop none true (some e)

  -- Step 2: by the row.
  unfoldable pub with_row : OperationCr → Result Operation → Internal
  unfolding with_instance
  with_row cr (ok row) = with_instance row cr (a.get_instance row.instance_id)
  with_row cr not_found = stop none false none
  with_row cr (err e) = stop none true (some e)

  -- Step 1: by the resource.
  unfoldable pub with_cr : Result OperationCr → Internal
  unfolding with_row
  with_cr (ok cr) = with_row cr (a.get_row cr.operation_id)
  with_cr not_found = stop none false none
  with_cr (err e) = stop none true (some (concat "unable to retrieve operation CR: " e))

  unfoldable pub internal_perform_task : Internal
  unfolding with_cr
  internal_perform_task = with_cr a.get_cr

-- What PerformTask writes and returns.
pub record Attempt : Type 0 where
  pub writes : List Write
  pub retry : Bool
  pub error : Option String
  pub panicked : Bool

abbrev pub attempt : List Write → Bool → Option String → Attempt
attempt writes retry error = record {
  writes = writes;
  retry = retry;
  error = error;
  panicked = false;
}

-- db.OperationHumanReadableStateLength
abbrev pub human_readable_state_length : ℕ
human_readable_state_length = 1024

abbrev pub readable : String → Option String → String
readable old none = old
readable old (some e) = truncate_varchar e human_readable_state_length

abbrev pub state_of : Bool → Option String → OperationState
state_of true error = in_progress
state_of false none = completed
state_of false (some e) = failed

-- The row that is stored after an attempt.
unfoldable pub outcome_row : ℕ → Bool → Option String → Operation → Operation
outcome_row now retry error row = record row {
  state = state_of retry error;
  last_state_update = now;
  human_readable_state = readable row.human_readable_state error;
}

-- By the answer to the last update.
abbrev pub reported : List Write → Bool → Option String → Option String → Attempt
reported writes retry error none = attempt writes retry error
reported writes retry error (some e) = attempt writes true (some e)

-- By the row that internalPerformTask returns.
unfoldable pub conclude : Answers → Internal → Option Operation → Attempt
unfolding outcome_row
conclude a o none = attempt o.writes o.retry o.error
conclude a o (some row) =
    let row' = outcome_row a.now o.retry o.error row in
    if is_concluded row.state
    then attempt o.writes false o.error
    else reported (o.writes ++ (update_row row' ∷ [])) o.retry o.error (a.update_outcome row')

-- A panic of the handler leaves PerformTask before the row is stored again.
unfoldable pub unwind : Answers → Internal → Bool → Attempt
unfolding conclude
unwind a o false = conclude a o o.row
unwind a o true = record { writes = o.writes; retry = false; error = none; panicked = true }

-- PerformTask, by the error of the connection.
unfoldable pub with_database : Answers → Handlers → Option String → Attempt
unfolding unwind internal_perform_task
with_database a h none = let o = internal_perform_task a h in unwind a o o.panicked
with_database a h (some e) =
    attempt [] true
      (some (concat "unable to instantiate database in operation controller loop: " e))

unfoldable pub perform_task : Answers → Handlers → Attempt
unfolding with_database
perform_task a h = with_database a h a.database_error
