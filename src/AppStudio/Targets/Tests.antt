-- ===== src/AppStudio/Targets/Tests.antt =====
-- Witnesses and runs of the controller of deployment targets.
use managed_gitops.Base.{◌≡◌, refl, true, none, some, [], ◌∷◌, ◌==◌}
use managed_gitops.AppStudio.Claims.{
  ok, not_found, DeploymentTarget, target_bound, add_finalizer, has_finalizer,
}
use managed_gitops.AppStudio.Targets.{
  Answers, SpaceRequest, delete_policy, finalizer_dt, environment_tier_name,
  find_matching_space_request, delete_request, requeue_now,
}
use managed_gitops.AppStudio.Targets.Reconcile.{reconcile_internal}
use managed_gitops.AppStudio.Targets.Progress.{
  IsTakenDown, ComesAgain, reconcile_internal-ComesAgain,
}

abbrev target : DeploymentTarget
target = record {
  name = "target";
  namespace = "ns";
  finalizers = finalizer_dt ∷ [];
  deletion_timestamp = some 5;
  claim_ref = "";
  deployment_target_class_name = "sandbox";
  has_cluster_credentials = true;
  phase = target_bound;
  conditions = [];
}

abbrev space_request : SpaceRequest
space_request = record {
  name = "request";
  namespace = "ns";
  finalizers = "toolchain" ∷ [];
  deletion_timestamp = none;
  tier_name = environment_tier_name;
  claim_label = none;
  target_label = some "target";
  namespace_access = [];
  target_cluster_url = "";
}

-- Every call succeeds, and the server stores what it is given.
abbrev answers : Answers
answers = record {
  get_target = ok target;
  update_finalizer_added = λ dt. ok dt;
  get_class = λ name. ok delete_policy;
  get_claim = λ namespace name. not_found;
  update_claim_ref_unset = λ dt. ok dt;
  list_by_target = λ namespace name. ok (space_request ∷ []);
  list_by_claim = λ namespace name. ok [];
  update_finalizer_removed = λ dt. ok dt;
  update_space_request = λ sr. ok sr;
  delete_space_request = λ sr. none;
  update_phase = λ dt. ok dt;
  get_target_again = ok target;
  update_conditions = λ dt. ok dt;
  now = 7;
  space_request_finalizer = "toolchain";
  ready_reason = λ sr. some "Provisioned";
  terminating_failed_reason = "UnableToTerminate";
}

-- The SpaceRequest of the deleted target is deleted.
deletes_request : reconcile_internal answers ≡ record {
  writes = delete_request space_request ∷ [];
  requeue = requeue_now;
  condition = none;
  error = none;
}
unfolding reconcile_internal add_finalizer has_finalizer find_matching_space_request ◌==◌
deletes_request = refl

taken_down : IsTakenDown answers target space_request
unfolding add_finalizer has_finalizer find_matching_space_request ◌==◌
taken_down = record {
  deleted_at = 5;
  reason = "Provisioned";
  got = refl;
  kept = refl;
  class = refl;
  gone = refl;
  found = refl;
  held = refl;
  ready = refl;
}

reconcile_internal-ComesAgain_example : ComesAgain answers target (reconcile_internal answers)
reconcile_internal-ComesAgain_example =
    reconcile_internal-ComesAgain answers target space_request taken_down
