-- ===== src/AppStudio/SpaceRequests/Tests.antt =====
-- A witness and a run of the controller of SpaceRequests.
use managed_gitops.Base.{◌≡◌, refl, true, false, none, some, [], ◌∷◌, ◌==◌}
use managed_gitops.AppStudio.Claims.{
  ok, not_found, DeploymentTarget, DeploymentTargetClaim, bound, no_target_phase, available,
}
use managed_gitops.AppStudio.Targets.{
  SpaceRequest, delete_policy, environment_tier_name, create_target, update_target_status,
  update_request,
}
use managed_gitops.AppStudio.SpaceRequests.{Answers, reconcile_request}

abbrev space_request : SpaceRequest
space_request = record {
  name = "request";
  namespace = "ns";
  finalizers = [];
  deletion_timestamp = none;
  tier_name = environment_tier_name;
  claim_label = some "claim";
  target_label = none;
  namespace_access = ("env", "secret") ∷ [];
  target_cluster_url = "https://api";
}

abbrev claim : DeploymentTargetClaim
claim = record {
  name = "claim";
  namespace = "ns";
  annotations = record {
    bind_completed = some "yes";
    bound_by_controller = none;
    target_provisioner = none;
    other_annotations = [];
  };
  finalizers = [];
  deletion_timestamp = none;
  target_name = "";
  deployment_target_class_name = "sandbox";
  phase = bound;
  conditions = [];
}

-- The claim exists, and no target does.
abbrev answers : Answers
answers = record {
  get_request = ok space_request;
  list_classes =
      ok (record { name = "sandbox"; is_devsandbox = true; reclaim_policy = delete_policy } ∷ []);
  get_claim_of_orphan = λ namespace name. ok claim;
  delete_orphan = λ sr. none;
  get_labelled_target = λ namespace name. not_found;
  get_claim = λ namespace name. ok claim;
  list_targets = λ namespace. ok [];
  get_claim_of_new = λ namespace name. ok claim;
  create_target = λ dt. ok dt;
  update_phase = λ dt. ok dt;
  update_label = λ sr. ok sr;
  is_ready = λ sr. true;
  skips_tls_verify = false;
}

abbrev new_dt : DeploymentTarget
new_dt = record {
  name = "claim-dt";
  namespace = "ns";
  finalizers = [];
  deletion_timestamp = none;
  claim_ref = "claim";
  deployment_target_class_name = "sandbox";
  has_cluster_credentials = true;
  phase = no_target_phase;
  conditions = [];
}

creates_target :
    (reconcile_request answers).writes
    ≡ create_target new_dt
      ∷ update_target_status (record new_dt { phase = available })
      ∷ update_request (record space_request { target_label = some "claim-dt" })
      ∷ []
unfolding reconcile_request ◌==◌
creates_target = refl
