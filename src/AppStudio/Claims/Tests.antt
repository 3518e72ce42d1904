-- ===== src/AppStudio/Claims/Tests.antt =====
-- Runs of deploymenttargetclaim_controller.go on concrete objects.
use managed_gitops.Base.{◌≡◌, refl, ◌↔◌, true, none, some, List, [], ◌∷◌, String, ◌==◌}
use managed_gitops.AppStudio.Claims.{
  Annotations, DeploymentTargetClaim, DeploymentTarget, available, pending, released, bound,
  check_for_binding_conflict, does_dt_match_dtc, matcher, ok, find_matching_dt_for_dtc,
  is_marked_for_dynamic_provisioning, add_finalizer, first_match, already_claimed, not_available,
  find_objects_for_deployment_target, has_finalizer, is_dtc_bound, is_dtc_binding_completed,
}
use managed_gitops.AppStudio.Claims.Matching.{IsMatch, does_dt_match_dtc_iff}

abbrev no_annotations : Annotations
no_annotations = record {
  bind_completed = none;
  bound_by_controller = none;
  target_provisioner = none;
  other_annotations = [];
}

abbrev claim : String → DeploymentTargetClaim
claim target = record {
  name = "claim";
  namespace = "ns";
  annotations = no_annotations;
  finalizers = [];
  target_name = target;
  deployment_target_class_name = "sandbox";
  phase = pending;
  deletion_timestamp = none;
  conditions = [];
}

abbrev target : String → String → DeploymentTarget
target name claim_ref = record {
  name = name;
  namespace = "ns";
  finalizers = [];
  claim_ref = claim_ref;
  deployment_target_class_name = "sandbox";
  has_cluster_credentials = true;
  phase = available;
  deletion_timestamp = none;
  conditions = [];
}

abbrev released_target : DeploymentTarget
released_target = record (target "old" "") { phase = released }

abbrev targets : List DeploymentTarget
targets = target "taken" "other" ∷ released_target ∷ target "free" "" ∷ target "spare" "" ∷ []

unmatched_target :
    check_for_binding_conflict (claim "free") (target "spare" "") ≡ some already_claimed
unfolding check_for_binding_conflict ◌==◌
unmatched_target = refl

released_unmatched : does_dt_match_dtc released_target (claim "") ≡ some not_available
unfolding does_dt_match_dtc ◌==◌
released_unmatched = refl

completed_and_bound :
    is_dtc_bound (record (claim "free") {
      phase = bound;
      annotations = record no_annotations { bind_completed = some "" };
    })
    ≡ true
unfolding is_dtc_bound is_dtc_binding_completed
completed_and_bound = refl

reconciled_claims :
    find_objects_for_deployment_target (ok (claim "free" ∷ claim "spare" ∷ [])) (target "free" "")
    ≡ ("ns", "claim") ∷ []
unfolding find_objects_for_deployment_target ◌==◌
reconciled_claims = refl

found_free : find_matching_dt_for_dtc (ok targets) (claim "") ≡ ok (some (target "free" ""))
unfolding find_matching_dt_for_dtc first_match matcher does_dt_match_dtc check_for_binding_conflict
    is_marked_for_dynamic_provisioning ◌==◌
found_free = refl

found_none : find_matching_dt_for_dtc (ok targets) (claim "gone") ≡ ok none
unfolding find_matching_dt_for_dtc first_match matcher does_dt_match_dtc check_for_binding_conflict
    is_marked_for_dynamic_provisioning ◌==◌
found_none = refl

does_dt_match_dtc_iff_example :
    (does_dt_match_dtc (target "free" "") (claim "") ≡ none) ↔ IsMatch (target "free" "") (claim "")
does_dt_match_dtc_iff_example = does_dt_match_dtc_iff (target "free" "") (claim "")

added_finalizer : (add_finalizer "f" ("g" ∷ [])).0 ≡ true
unfolding add_finalizer has_finalizer ◌==◌
added_finalizer = refl
