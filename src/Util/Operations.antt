-- ===== src/Util/Operations.antt =====
-- backend-shared/util/operations/types.go, with the rows of backend-shared/db/types.go: the backend
-- asks the cluster agent for work by an Operation, a row of the database with a resource that names
-- it. The queries and the Kubernetes client are parameters; created_on, seq_id and
-- gc_expiration_time of a row are left out, which nothing here reads.
pub mod Creation
pub mod Waiting
mod Tests
use Prim.Native.String.{◌++◌ as concat}
use managed_gitops.Base.{
  ℕ, Bool, true, false, Option, none, some, List, [], ◌∷◌, not, String, ◌==◌, if◌then◌else◌,
}
use managed_gitops.Base.Client.{Result, ok, not_found, err}

pub data OperationState : Type 0 where
  waiting in_progress completed failed : OperationState
  other_state : String → OperationState

pub data OperationResourceType : Type 0 where
  managed_environment_resource sync_operation_resource application_resource : OperationResourceType
  repository_credentials_resource gitops_engine_instance_resource : OperationResourceType
  other_resource : String → OperationResourceType

-- db.Operation
pub record Operation : Type 0 where
  pub operation_id : String
  pub instance_id : String
  pub resource_id : String
  pub operation_owner_user_id : String
  pub resource_type : OperationResourceType
  pub last_state_update : ℕ
  pub state : OperationState
  pub human_readable_state : String

-- The resource Operation; `annotations` is whether it has the annotation of the periodic clean-up.
pub record OperationCr : Type 0 where
  pub name : String
  pub namespace : String
  pub operation_id : String
  pub periodic_cleanup : Bool

pub record GitopsEngineInstance : Type 0 where
  pub gitopsengineinstance_id : String
  pub namespace_name : String
  pub namespace_uid : String
  pub enginecluster_id : String

-- GenerateOperationCRName
abbrev pub operation_cr_name : Operation → String
operation_cr_name row = concat "operation-" row.operation_id

abbrev pub is_waiting : OperationState → Bool
is_waiting waiting = true
is_waiting _ = false

-- Completed or Failed
abbrev pub is_concluded : OperationState → Bool
is_concluded completed = true
is_concluded failed = true
is_concluded _ = false

-- db.SpecialClusterUserName
abbrev pub special_cluster_user_name : String
special_cluster_user_name = "cluster-agent-application-sync-user"

-- What each call of createOperationInternal answers, by its place in the code. When the query for
-- the list fails, the list stays empty.
pub record Answers : Type 0 where
  pub get_instance : String → Result GitopsEngineInstance
  pub list_operations : List Operation
  -- name and namespace
  pub get_cr : String → String → Result OperationCr
  -- the row that the database has stored, with its id
  pub create_row : Operation → Result Operation
  pub create_cr : OperationCr → Result OperationCr
  pub now : ℕ

pub data Write : Type 0 where
  create_row : Operation → Write
  create_cr : OperationCr → Write

-- The writes of a call, and the resource and the row that it returns, or its error.
pub record Created : Type 0 where
  pub writes : List Write
  pub result : Result (OperationCr × Operation)

abbrev pub no_writes : Result (OperationCr × Operation) → Created
no_writes r = record { writes = []; result = r }

-- The loop over the rows: the first that waits and whose resource the client finds.
unfoldable pub find_waiting : Answers → String → List Operation → Option (OperationCr × Operation)
find_waiting a namespace [] = none
find_waiting a namespace (row ∷ rows) =
    let rest = find_waiting a namespace rows in
    if is_waiting row.state
    then elim (a.get_cr (operation_cr_name row) namespace) [
      | ok cr ↦ some (cr, row)
      | not_found ↦ rest
      | err e ↦ rest
    ]
    else rest

unfoldable pub new_row : Answers → Operation → String → Operation
new_row a param user = record param {
  operation_id = "";
  operation_owner_user_id = user;
  last_state_update = a.now;
  state = waiting;
  human_readable_state = "";
}

unfoldable pub new_cr : Operation → String → String → OperationCr
new_cr row user namespace = record {
  name = operation_cr_name row;
  namespace = namespace;
  operation_id = row.operation_id;
  periodic_cleanup = user == special_cluster_user_name;
}

-- By the answer to Create.
unfoldable pub with_cr : Operation → Result OperationCr → Result (OperationCr × Operation)
with_cr row (ok stored) = ok (stored, row)
with_cr row not_found = not_found
with_cr row (err e) = err e

-- By the answer to CreateOperation of the database.
unfoldable pub with_row : Answers → String → String → Operation → Result Operation → Created
unfolding new_cr with_cr
with_row a user namespace w (ok row) =
    let cr = new_cr row user namespace in
    record { writes = create_row w ∷ create_cr cr ∷ []; result = with_cr row (a.create_cr cr) }
with_row a user namespace w not_found = record { writes = create_row w ∷ []; result = not_found }
with_row a user namespace w (err e) = record { writes = create_row w ∷ []; result = err e }

-- By the row that is found.
unfoldable pub with_waiting :
    Answers → Operation → String → String → Option (OperationCr × Operation) → Created
unfolding with_row new_row
with_waiting a param user namespace (some found) = no_writes (ok found)
with_waiting a param user namespace none =
    with_row a user namespace (new_row a param user) (a.create_row (new_row a param user))

-- The namespaces are compared.
unfoldable pub with_instance :
    Answers → Operation → String → String → Result GitopsEngineInstance → Created
unfolding with_waiting
with_instance a param user namespace (ok i) =
    if i.namespace_name == ""
    then no_writes (err "invalid GitopsEngine namespace")
    else if namespace == ""
    then no_writes (err "invalid Operation namespace")
    else if not (namespace == i.namespace_name)
    then no_writes (
        err (
          concat
            "namespace mismatched in given OperationCR and existing GitopsEngineInstance OperationNS: "
            (concat namespace (concat " GitopsEngineInstanceNS: " i.namespace_name))))
    else with_waiting a param user namespace (find_waiting a namespace a.list_operations)
with_instance a param user namespace not_found =
    no_writes (err "unable to fetch GitopsEngineInstance")
with_instance a param user namespace (err e) =
    no_writes (err "unable to fetch GitopsEngineInstance")

-- createOperationInternal up to the wait: for the row of the caller, its user and the namespace.
unfoldable pub create_operation_internal : Answers → Operation → String → String → Created
unfolding with_instance
create_operation_internal a param user namespace =
    with_instance a param user namespace (a.get_instance param.instance_id)

-- One round of waitForOperationToComplete: what GetOperationById answers, and whether the context
-- is done after the delay.
pub record Poll : Type 0 where
  pub row : Result Operation
  pub done : Bool

-- The call returns, with an error or none, or it still waits when the rounds are used up.
pub data Waited : Type 0 where
  returned : Option String → Waited
  still_waiting : Waited

abbrev pub waiting_error : String → String
waiting_error e = concat "an error occurred on waiting for operation to complete: " e

unfoldable pub wait_for_operation_to_complete : List Poll → Waited
wait_for_operation_to_complete [] = still_waiting
wait_for_operation_to_complete (p ∷ ps) =
    let rest = wait_for_operation_to_complete ps in
    elim p.row [
      | ok row ↦
          if is_concluded row.state
          then returned none
          else if p.done
          then returned (some "operation context is Done() in waitForOperationToComplete")
          else rest
      | not_found ↦ returned (some (waiting_error "not found"))
      | err e ↦ returned (some (waiting_error e))
    ]
