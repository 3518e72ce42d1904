-- ===== src/AppStudio/Provisioning/Once.antt =====
-- A claim gets no second SpaceRequest: deploymenttargetclaim_controller.go.
use managed_gitops.Base.{◌≡◌, true, none, some, List}
use managed_gitops.AppStudio.Claims.{ok, DeploymentTargetClaim, is_marked_for_dynamic_provisioning}
use managed_gitops.AppStudio.Targets.{SpaceRequest, Write, create_request, of_tier}
use managed_gitops.AppStudio.SpaceRequests.{DeploymentTargetClass}
use managed_gitops.AppStudio.Provisioning.{Answers, is_pending, class_of, new_request}

-- What the creation of a SpaceRequest for a claim rests on.
pub data Requested (a : Answers) (dtc : DeploymentTargetClaim) : Write → Type 0 where
  requests :
      (classes : List DeploymentTargetClass) (class : DeploymentTargetClass)
      (srs : List SpaceRequest)
      → is_pending dtc.phase ≡ true
      → is_marked_for_dynamic_provisioning dtc ≡ true
      → a.list_classes ≡ ok classes
      → class_of dtc.deployment_target_class_name classes ≡ some class
      → class.is_devsandbox ≡ true
      → a.list_by_claim dtc.namespace dtc.name ≡ ok srs
      → of_tier srs ≡ none
      → Requested a dtc (create_request (new_request dtc))
