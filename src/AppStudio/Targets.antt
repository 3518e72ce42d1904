-- ===== src/AppStudio/Targets.antt =====
-- appstudio-controller/controllers/appstudio.redhat.com/deploymenttarget_controller.go: how a
-- deployment target is kept, and taken down with its SpaceRequest.
pub mod Reconcile
pub mod Writes
mod Deletion
pub mod Safety
pub mod Progress
pub mod Reporting
mod Tests
use Prim.Native.String.{◌++◌ as concat}
use managed_gitops.Base.{
  ℕ, ◌+◌, ltb, Bool, true, false, Option, none, some, List, [], ◌∷◌, ◌&&◌, ◌||◌, not, String, ◌==◌,
  is_some, if◌then◌else◌,
}
use managed_gitops.AppStudio.StatusConditions.{
  MetaCondition, create_condition, insert_or_update_conditions_in_slice,
}
use managed_gitops.AppStudio.Claims.{
  Result, ok, not_found, err, DeploymentTarget, DeploymentTargetClaim, TargetPhase, available,
  target_bound, released, target_failed, no_target_phase, other_target_phase, add_finalizer,
  remove_finalizer,
}

-- FinalizerDT, environmentTierName
abbrev pub finalizer_dt : String
finalizer_dt = "dt.appstudio.redhat.com/finalizer"

abbrev pub environment_tier_name : String
environment_tier_name = "appstudio-env"

pub data ReclaimPolicy : Type 0 where
  delete_policy retain_policy : ReclaimPolicy
  other_policy : String → ReclaimPolicy

-- The fields of the toolchain's SpaceRequest that are read.
pub record SpaceRequest : Type 0 where
  pub name : String
  pub namespace : String
  pub finalizers : List String
  pub deletion_timestamp : Option ℕ
  pub tier_name : String
  -- the labels DeploymentTargetClaimLabel and DeploymentTargetLabel
  pub claim_label : Option String
  pub target_label : Option String
  -- NamespaceAccess: name and secret
  pub namespace_access : List (String × String)
  pub target_cluster_url : String

-- What each call of the Kubernetes client answers, by its place in the code: no call is made twice
-- in one reconciliation. An update answers with the object that the server has stored.
pub record Answers : Type 0 where
  pub get_target : Result DeploymentTarget
  pub update_finalizer_added : DeploymentTarget → Result DeploymentTarget
  -- the name of the class, to its reclaim policy
  pub get_class : String → Result ReclaimPolicy
  pub get_claim : String → String → Result DeploymentTargetClaim
  pub update_claim_ref_unset : DeploymentTarget → Result DeploymentTarget
  -- namespace and label
  pub list_by_target : String → String → Result (List SpaceRequest)
  pub list_by_claim : String → String → Result (List SpaceRequest)
  pub update_finalizer_removed : DeploymentTarget → Result DeploymentTarget
  pub update_space_request : SpaceRequest → Result SpaceRequest
  pub delete_space_request : SpaceRequest → Option String
  pub update_phase : DeploymentTarget → Result DeploymentTarget
  -- the calls of updateStatusConditionOfDeploymentTarget
  pub get_target_again : Result DeploymentTarget
  pub update_conditions : DeploymentTarget → Result DeploymentTarget
  -- the clock of the reconciler
  pub now : ℕ
  -- FinalizerName, ConditionReady with FindConditionByType (the reason of the condition, if it is
  -- found) and SpaceTerminatingFailedReason of the toolchain
  pub space_request_finalizer : String
  pub ready_reason : SpaceRequest → Option String
  pub terminating_failed_reason : String

-- The calls that write, of the controllers of targets, claims and SpaceRequests.
pub data Write : Type 0 where
  create_target update_target update_target_status delete_target : DeploymentTarget → Write
  create_request update_request delete_request : SpaceRequest → Write
  update_claim : DeploymentTargetClaim → Write

pub data Requeue : Type 0 where
  no_requeue requeue_now : Requeue
  -- nanoseconds
  requeue_after : ℕ → Requeue

-- The writes of reconcileInternal, and what it returns.
pub record Outcome : Type 0 where
  pub writes : List Write
  pub requeue : Requeue
  pub condition : Option MetaCondition
  pub error : Option String

abbrev pub finished : Requeue → Outcome
finished r = record { writes = []; requeue = r; condition = none; error = none }

abbrev pub failed : String → Outcome
failed e = record { writes = []; requeue = no_requeue; condition = none; error = some e }

abbrev pub error_condition : String → MetaCondition
error_condition message = create_condition "ErrorOccurred" "True" "ErrorOccurred" message

abbrev pub rejected : String → Outcome
rejected message = record {
  writes = [];
  requeue = no_requeue;
  condition = some (error_condition message);
  error = none;
}

abbrev pub after_write : Write → Outcome → Outcome
after_write w o = record o { writes = w ∷ o.writes }

-- The text of an error of the Kubernetes client that says that there is no such object.
abbrev pub not_found_text : String
not_found_text = "not found"

-- "failed to … N in namespace S: E"
abbrev pub about : String → String → String → String → String
about what name namespace e =
    concat what (concat name (concat " in namespace " (concat namespace (concat ": " e))))

-- `err` if the call fails, in the words of the first argument.
abbrev pub stored : {A : Type 0} → Result A → (String → String) → (A → Outcome) → Outcome
stored (ok x) words next = next x
stored not_found words next = failed (words not_found_text)
stored (err e) words next = failed (words e)

-- The first item of a tier, for an answer that has an item.
abbrev pub of_tier : List SpaceRequest → Option SpaceRequest
of_tier [] = none
of_tier (s ∷ ss) = if s.tier_name == environment_tier_name then some s else of_tier ss

-- findMatchingSpaceRequestForDT: by the claim, and by the answer to the first List.
unfoldable pub find_by_claim : Answers → DeploymentTarget → Result (Option SpaceRequest)
find_by_claim a dt =
    if dt.claim_ref == "" then ok none else elim (a.list_by_claim dt.namespace dt.claim_ref) [
      | ok srs ↦ ok (of_tier srs)
      | not_found ↦ not_found
      | err e ↦ err e
    ]

unfoldable pub find_matching_space_request :
    Answers → DeploymentTarget → Result (Option SpaceRequest)
unfolding find_by_claim
find_matching_space_request a dt = elim (a.list_by_target dt.namespace dt.name) [
  | ok [] ↦ find_by_claim a dt
  | ok (s ∷ srs) ↦ ok (of_tier (s ∷ srs))
  | not_found ↦ not_found
  | err e ↦ err e
]

abbrev pub is_failed : TargetPhase → Bool
is_failed target_failed = true
is_failed _ = false
