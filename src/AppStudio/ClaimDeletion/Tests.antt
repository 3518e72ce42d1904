-- ===== src/AppStudio/ClaimDeletion/Tests.antt =====
-- A witness and a run of the deletion of a claim.
use managed_gitops.Base.{◌≡◌, refl, true, none, some, [], ◌∷◌, ◌==◌}
use managed_gitops.AppStudio.Claims.{
  ok, DeploymentTarget, DeploymentTargetClaim, bound, target_bound, released, add_finalizer,
  has_finalizer, remove_finalizer, is_dtc_bound, is_dtc_binding_completed, get_dt_bound_by_dtc,
  check_for_binding_conflict,
}
use managed_gitops.AppStudio.Targets.{
  delete_policy, finalizer_dt, delete_target, update_target, update_target_status, update_claim,
}
use managed_gitops.AppStudio.ClaimDeletion.{Answers, handle_dtc_deletion}
use managed_gitops.AppStudio.ClaimDeletion.Order.{Ordered, handle_dtc_deletion-Ordered}

abbrev target : DeploymentTarget
target = record {
  name = "target";
  namespace = "ns";
  finalizers = finalizer_dt ∷ [];
  deletion_timestamp = none;
  claim_ref = "claim";
  deployment_target_class_name = "sandbox";
  has_cluster_credentials = true;
  phase = target_bound;
  conditions = [];
}

abbrev claim : DeploymentTargetClaim
claim = record {
  name = "claim";
  namespace = "ns";
  annotations = record {
    bind_completed = some "yes";
    bound_by_controller = none;
    target_provisioner = none;
    other_annotations = [];
  };
  finalizers = "binder" ∷ [];
  deletion_timestamp = some 3;
  target_name = "target";
  deployment_target_class_name = "sandbox";
  phase = bound;
  conditions = [];
}

-- Every call succeeds; the class has the policy Delete.
abbrev answers : Answers
answers = record {
  get_bound_target = ok target;
  list_targets = ok (target ∷ []);
  get_class = λ name. ok delete_policy;
  update_finalizer_added = λ dt. ok dt;
  delete_target = λ dt. none;
  get_target_again = λ namespace name. ok target;
  update_claim_ref_unset = λ dt. ok dt;
  update_phase = λ dt. ok dt;
  update_claim = λ d. ok d;
  finalizer_binder = "binder";
}

deletes_and_releases :
    (handle_dtc_deletion answers claim).writes
    ≡ delete_target target
      ∷ update_target (record target { claim_ref = "" })
      ∷ update_target_status (record target { claim_ref = ""; phase = released })
      ∷ update_claim (record claim { finalizers = [] })
      ∷ []
unfolding handle_dtc_deletion add_finalizer has_finalizer remove_finalizer is_dtc_bound
    is_dtc_binding_completed get_dt_bound_by_dtc check_for_binding_conflict ◌==◌
deletes_and_releases = refl

handle_dtc_deletion-Ordered_example :
    Ordered answers claim [] (handle_dtc_deletion answers claim).writes
handle_dtc_deletion-Ordered_example = handle_dtc_deletion-Ordered answers claim
