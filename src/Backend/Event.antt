-- ===== src/Backend/Event.antt =====
-- backend/eventloop/eventlooptypes/types.go: the events that the loops exchange.
use managed_gitops.Base.{Bool, true, false, Option, none, some, String, ◌==◌, if◌then◌else◌, not}

-- Go's strings, with the constants that the code names.
pub data EventLoopEventType : Type 0 where
  deployment_modified repository_credential_modified managed_environment_modified :
      EventLoopEventType
  sync_run_modified update_deployment_status_tick : EventLoopEventType

pub data GitOpsResourceType : Type 0 where
  deployment_type sync_run_type repository_credential_type managed_environment_type :
      GitOpsResourceType
  -- the field is not set
  no_type : GitOpsResourceType

pub EventLoopEventType-discrete : Discrete EventLoopEventType
EventLoopEventType-discrete = hlevel

pub GitOpsResourceType-discrete : Discrete GitOpsResourceType
GitOpsResourceType-discrete = hlevel

-- The K8s client that an event carries is left out: it is always that of the one cluster.
pub record EventLoopEvent : Type 0 where
  pub event_type : EventLoopEventType
  pub namespace : String
  pub name : String
  pub req_resource : GitOpsResourceType
  pub workspace_id : String

pub data EventLoopMessageType : Type 0 where
  work_complete event_message status_check : EventLoopMessageType
  -- a number that is none of the constants
  unknown_message : EventLoopMessageType

abbrev pub is_tick : EventLoopEventType → Bool
is_tick update_deployment_status_tick = true
is_tick _ = false

abbrev decided : {A : Type 0} → Dec A → Bool
decided (yes a) = true
decided (no a) = false

pub same_type : EventLoopEventType → EventLoopEventType → Bool
same_type a b = decided (EventLoopEventType-discrete a b)

pub same_resource : GitOpsResourceType → GitOpsResourceType → Bool
same_resource a b = decided (GitOpsResourceType-discrete a b)

-- EventsMatch: "" if the events match, and otherwise the field that does not.
unfoldable pub events_match : Option EventLoopEvent → Option EventLoopEvent → String
unfolding same_type same_resource
events_match none none = ""
events_match none (some two) = "nil mismatch"
events_match (some one) none = "nil mismatch"
events_match (some one) (some two) =
    if not (same_type one.event_type two.event_type)
    then "eventtype mismatch"
    else if not (same_resource one.req_resource two.req_resource)
    then "reqresource mismatch"
    else if not (one.name == two.name)
    then "request name mismatch"
    else if not (one.namespace == two.namespace)
    then "request namespace mismatch"
    else if not (one.workspace_id == two.workspace_id)
    then "workspaceid mismatch"
    else ""
