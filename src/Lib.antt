-- ===== src/Lib.antt =====
-- managed-gitops: a GitOps service that runs Argo CD for its users.
--
-- The backend watches the resources of its users' namespaces. An event goes from the preprocess
-- loop to the controller loop, from there to the event loop of its namespace, and from that to the
-- event loop of its application, or to the resource loop of the namespace and, once it is
-- reconciled, back. The backend asks the cluster agent, which runs beside Argo CD, by Operations:
-- a row of the database and a resource that names it. The cluster agent makes Argo CD's objects
-- agree with the rows that an Operation names, and mirrors the state of its applications into the
-- database through a cache; the controllers of appstudio-controller bind claims to deployment
-- targets. They share the helpers of backend-shared: the retry loop runs the tasks of the backend
-- and of the cluster agent, and its delays come from the exponential backoff.
--
--   Util/Backoff       backend-shared/util/util.go: ExponentialBackoff and RunTaskUntilTrue.
--   Util/TaskRetry     backend-shared/util/task_retry_loop.go. `schedule` is the pass that starts
--                      waiting tasks, `handle` the ladder on the message type, `task_runner` the
--                      goroutine of a task. Its variables are the record `LoopState`; System puts
--                      the running goroutines beside it and is stepped by the messages.
--   Util/ArgoNames     backend-shared/util/argocd/util.go: the names of secrets and applications.
--   Util/Varchar       backend-shared/db/db_field_constants.go: TruncateVarchar.
--   Util/Operations    backend-shared/util/operations/types.go: an Operation is made, and waited for.
--                      `create_operation_internal` and `wait_for_operation_to_complete` take what the
--                      database, the client and the clock answer from the record `Answers` and from
--                      a list of rounds.
--   Backend/Event      backend/eventloop/eventlooptypes/types.go: events and their comparison.
--   Backend/AppLoop    backend/eventloop/application_event_loop/application_event_loop.go:
--                      `process` is processApplicationEventQueueLoopMessage. What it sends is a list
--                      of effects; a nil pointer that it dereferences is the outcome `panics`.
--   Backend/WorkspaceLoop
--                      backend/eventloop/workspace_event_loop.go: `process_message` is
--                      processWorkspaceEventLoopMessage. `World` holds the map of channels, the
--                      orphans, and the state of the application event loop behind each channel; a
--                      request to one is a call of `process` of Backend/AppLoop. An outcome is a
--                      crash, a wait that never ends, or a new world. System steps it together with
--                      the application event loops.
--   Backend/ResourceLoop
--                      backend/eventloop/workspace_resource_event_loop.go: `receive` makes a task
--                      of a message, `perform_task` is PerformTask, which the retry loop calls.
--   Backend/ControllerLoop
--                      backend/eventloop/controller_event_loop.go and preprocess_event_loop:
--                      `route_event` is one turn of controllerEventLoopRouter.
--   Backend/Condition  backend/condition/conditions.go: the conditions of a deployment's status.
--   ClusterAgent/InfoCache
--                      cluster-agent/controllers/argoproj.io/application_info_cache: `round` is one
--                      turn of applicationInfoCacheLoop, with a function per message; Requests has
--                      the methods that wait for an answer. The database is a parameter (the record
--                      `Queries`), and what the code relies on it for is the record `Lawful`.
--   ClusterAgent/Resources
--                      the objects that the cluster agent reads and writes, its writes (`Effect`)
--                      and what a handler of an Operation returns (`Handled`).
--   ClusterAgent/Operations
--                      cluster-agent/controllers/managed-gitops/eventloop/operation_event_loop.go:
--                      `perform_task` is PerformTask, and `internal_perform_task` what it calls. The
--                      handlers of the kinds of resource are the record `Handlers`; a panic in one
--                      leaves the attempt, as the retry loop catches it.
--   ClusterAgent/ClusterSecrets
--                      the same file: ensureManagedEnvironmentExists,
--                      generateExpectedClusterSecret and processOperation_ManagedEnvironment. The
--                      encoder of the secret's configuration is a parameter.
--   ClusterAgent/Projects
--                      the same file: buildAppProject, appProjectEqual and
--                      createOrUpdateAppProjectWithValidation.
--   ClusterAgent/RepoCreds
--                      repocred.go beside it: processOperation_RepositoryCredentials and the
--                      functions that it calls. A write to a nil map is the result `none`.
--   ClusterAgent/Applications
--                      operation_event_loop.go again: `process_application` is
--                      processOperation_Application, over the projects and the cluster secrets. The
--                      YAML decoder is a parameter.
--   ClusterAgent/Removals
--                      deleteArgoCDApplicationOfDeletedApplicationRow, over Deletions and Projects.
--   ClusterAgent/Syncs
--                      processOperation_SyncOperation, runAppSync and terminateExistingOperation. The
--                      loop of runAppSync is a list of rounds.
--   ClusterAgent/Comparison
--                      cluster-agent/controllers/util.go: CompareApplication.
--   ClusterAgent/Deletions
--                      DeleteArgoCDApplication, in the same file as CompareApplication. Each wait is a
--                      list of rounds, with the clock and the answer of the client.
--   AppStudio/Claims   appstudio-controller/controllers/appstudio.redhat.com/
--                      deploymenttargetclaim_controller.go: the matching of claims and targets, and
--                      finalizers, each by what the client answered.
--   AppStudio/Claims/Binding
--                      the same file: bindDeploymentTargetClaimToTarget,
--                      handleBoundedDeploymentTargetClaim and handleDynamicDTCProvisioning. The
--                      Kubernetes client is a parameter (the record `Client`), and what a server
--                      that stores its objects answers is the record `Faithful`.
--   AppStudio/ClaimDeletion
--                      the same file: handleDTCDeletion.
--   AppStudio/Targets  deploymenttarget_controller.go beside it: Reconcile, in Targets/Reporting, and
--                      reconcileInternal, in Targets/Reconcile, with one function per step. The
--                      record `Answers` has, for each place in the code that calls the client, what
--                      the call answers; the calls that write are listed in the outcome.
--   AppStudio/SpaceRequests
--                      spacerequest_controller.go, in the same way. It makes the targets that the
--                      claims are bound to, from the SpaceRequests that Provisioning asks for.
--   AppStudio/Provisioning
--                      handleProvisioningOfSpaceRequestForDTC, of the controller of the claims.
--   AppStudio/StatusConditions
--                      insertOrUpdateConditionsInSlice, of snapshotenvironmentbinding_controller.go.
--   Base               lists, association lists and their equality, integers, Boolean tests,
--                      interfaces for Boolean equality, and the results of the Kubernetes client.
--
-- Every function is structural recursion on its lists; no fuel is used. Times and durations are
-- integers, so the wrap-around of int64 nanoseconds (after 292 years) is not seen. A clock is a
-- function that the pass or the expiry loop reads at each of its turns. Go's maps are association
-- lists; the code ranges over one only to delete from it, where the order does not matter, or to send
-- a message for each entry, which the model does in the order of the list.
--
-- Not modelled: logging; the transport of messages over channels (a loop handles one message at a
-- time, and the messages come in any order; that the workspace event loop waits until the
-- resource loop receives its message is not seen); the timers (their ticks are messages); go-pg,
-- the Kubernetes client and the API types of the application API, which stand elsewhere; and the
-- components whose logic is the sequence of their calls of these, such as the event runners, the
-- shared resource loop and the reconcilers of the database. Of the cluster agent's handlers, that
-- of instances of Argo CD is an argument, and so are the functions that refresh, sync and
-- terminate an Application. A list of rounds that is used up leaves a handler waiting, which is a
-- result of its own; the theorems about a handler that ends say so.
pub mod Base
pub mod Util
pub mod Backend
pub mod ClusterAgent
pub mod AppStudio
