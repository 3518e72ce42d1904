-- ===== src/AppStudio/Provisioning.antt =====
-- handleProvisioningOfSpaceRequestForDTC of appstudio-
-- controller/controllers/appstudio.redhat.com/deploymenttargetclaim_controller.go: a claim that
-- waits for its provisioner gets a SpaceRequest.
pub mod Once
mod Tests
use Prim.Native.String.{◌++◌ as concat}
use managed_gitops.Base.{
  Bool, true, false, Option, none, some, List, [], ◌∷◌, ◌&&◌, not, String, ◌==◌, if◌then◌else◌,
}
use managed_gitops.AppStudio.Claims.{
  Result, ok, not_found, err, ClaimPhase, pending, bound, lost, other_claim_phase,
  DeploymentTargetClaim, is_marked_for_dynamic_provisioning,
}
use managed_gitops.AppStudio.Targets.{
  SpaceRequest, environment_tier_name, Write, create_request, Outcome, finished, failed,
  after_write, stored, not_found_text, no_requeue, of_tier,
}
use managed_gitops.AppStudio.SpaceRequests.{DeploymentTargetClass}

-- What each call of the Kubernetes client answers, by its place in the code.
pub record Answers : Type 0 where
  pub list_classes : Result (List DeploymentTargetClass)
  -- namespace and label
  pub list_by_claim : String → String → Result (List SpaceRequest)
  pub create_request : SpaceRequest → Result SpaceRequest

abbrev pub is_pending : ClaimPhase → Bool
is_pending pending = true
is_pending _ = false

-- The loop of findMatchingDTClassForDTC.
abbrev pub class_of : String → List DeploymentTargetClass → Option DeploymentTargetClass
class_of name [] = none
class_of name (c ∷ cs) = if c.name == name then some c else class_of name cs

-- The SpaceRequest of createSpaceRequestForDTC; the server makes its name from that of the claim.
unfoldable pub new_request : DeploymentTargetClaim → SpaceRequest
new_request dtc = record {
  name = "";
  namespace = dtc.namespace;
  finalizers = [];
  deletion_timestamp = none;
  tier_name = environment_tier_name;
  claim_label = some dtc.name;
  target_label = none;
  namespace_access = [];
  target_cluster_url = "";
}

-- By the SpaceRequest that findMatchingSpaceRequestForDTC finds, and createSpaceRequestForDTC.
unfoldable pub with_existing : Answers → DeploymentTargetClaim → Option SpaceRequest → Outcome
unfolding new_request
with_existing a dtc (some sr) = finished no_requeue
with_existing a dtc none =
    after_write (create_request (new_request dtc))
      (stored (a.create_request (new_request dtc)) (λ e. e) (λ sr. finished no_requeue))

-- By the answer to its List.
unfoldable pub with_listed : Answers → DeploymentTargetClaim → Result (List SpaceRequest) → Outcome
unfolding with_existing
with_listed a dtc (ok srs) = with_existing a dtc (of_tier srs)
with_listed a dtc not_found = failed not_found_text
with_listed a dtc (err e) = failed e

-- By the class of the claim.
unfoldable pub with_class : Answers → DeploymentTargetClaim → Option DeploymentTargetClass → Outcome
unfolding with_listed
with_class a dtc none = failed (
    concat "DeploymentTargetClaim " (
      concat dtc.name (
        concat " does not have a matching DeploymentTargetClass " (
          concat dtc.deployment_target_class_name
            ": the resource could not be found on the cluster"))))
with_class a dtc (some c) =
    if c.is_devsandbox
    then with_listed a dtc (a.list_by_claim dtc.namespace dtc.name)
    else finished no_requeue

-- By the answer to findMatchingDTClassForDTC.
unfoldable pub with_classes :
    Answers → DeploymentTargetClaim → Result (List DeploymentTargetClass) → Outcome
unfolding with_class
with_classes a dtc (ok cs) = with_class a dtc (class_of dtc.deployment_target_class_name cs)
with_classes a dtc not_found = failed not_found_text
with_classes a dtc (err e) = failed e

-- handleProvisioningOfSpaceRequestForDTC
unfoldable pub provision : Answers → DeploymentTargetClaim → Outcome
unfolding with_classes is_marked_for_dynamic_provisioning
provision a dtc =
    if is_pending dtc.phase
      && (is_marked_for_dynamic_provisioning dtc && not (dtc.deployment_target_class_name == ""))
    then with_classes a dtc a.list_classes
    else finished no_requeue
