-- ===== src/AppStudio/Provisioning/Tests.antt =====
-- A witness of the provisioning of claims.
use managed_gitops.Base.{true, none, some, [], ◌∷◌, List}
use managed_gitops.AppStudio.Claims.{ok, DeploymentTargetClaim, pending}
use managed_gitops.AppStudio.Targets.{SpaceRequest, delete_policy}
use managed_gitops.AppStudio.Provisioning.{Answers, new_request}

abbrev claim : DeploymentTargetClaim
claim = record {
  name = "claim";
  namespace = "ns";
  annotations = record {
    bind_completed = none;
    bound_by_controller = none;
    target_provisioner = some "sandbox";
    other_annotations = [];
  };
  finalizers = [];
  deletion_timestamp = none;
  target_name = "";
  deployment_target_class_name = "sandbox";
  phase = pending;
  conditions = [];
}

abbrev answers : List SpaceRequest → Answers
answers srs = record {
  list_classes =
      ok (record { name = "sandbox"; is_devsandbox = true; reclaim_policy = delete_policy } ∷ []);
  list_by_claim = λ namespace label. ok srs;
  create_request = λ sr. ok sr;
}

abbrev made : List SpaceRequest
made = record (new_request claim) { name = "claim-x7" } ∷ []
