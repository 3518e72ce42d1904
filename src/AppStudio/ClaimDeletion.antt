-- ===== src/AppStudio/ClaimDeletion.antt =====
-- handleDTCDeletion of appstudio-
-- controller/controllers/appstudio.redhat.com/deploymenttargetclaim_controller.go: a claim that is
-- being deleted lets go of its target.
pub mod Order
mod Tests
use Prim.Native.String.{◌++◌ as concat}
use managed_gitops.Base.{
  ℕ, Bool, true, false, Option, none, some, List, [], ◌∷◌, String, ◌==◌, if◌then◌else◌,
}
use managed_gitops.AppStudio.Claims.{
  Result, ok, not_found, err, DeploymentTarget, DeploymentTargetClaim, TargetPhase, available,
  target_bound, released, target_failed, no_target_phase, other_target_phase, get_dt_bound_by_dtc,
  is_dtc_bound, add_finalizer, remove_finalizer,
}
use managed_gitops.AppStudio.Targets.{
  ReclaimPolicy, delete_policy, retain_policy, other_policy, Write, update_target,
  update_target_status, delete_target, update_claim, Outcome, finished, failed, after_write, stored,
  about, not_found_text, error_condition, no_requeue, requeue_now, finalizer_dt,
}

-- What each call of the Kubernetes client answers, by its place in the code: none is made twice.
pub record Answers : Type 0 where
  -- the calls of getDTBoundByDTC
  pub get_bound_target : Result DeploymentTarget
  pub list_targets : Result (List DeploymentTarget)
  -- the name of the class, to its reclaim policy
  pub get_class : String → Result ReclaimPolicy
  pub update_finalizer_added : DeploymentTarget → Result DeploymentTarget
  pub delete_target : DeploymentTarget → Option String
  -- namespace and name
  pub get_target_again : String → String → Result DeploymentTarget
  pub update_claim_ref_unset : DeploymentTarget → Result DeploymentTarget
  pub update_phase : DeploymentTarget → Result DeploymentTarget
  pub update_claim : DeploymentTargetClaim → Result DeploymentTargetClaim
  -- FinalizerBinder of the application API
  pub finalizer_binder : String

-- A condition for the user, and the error.
abbrev pub rejected_with : String → String → Outcome
rejected_with message e = record {
  writes = [];
  requeue = no_requeue;
  condition = some (error_condition message);
  error = some e;
}

-- A target that is gone makes the reconciliation come again, to remove the finalizer of the claim.
abbrev pub stored_or_gone : {A : Type 0} → Result A → (String → String) → (A → Outcome) → Outcome
stored_or_gone (ok x) words next = next x
stored_or_gone not_found words next = finished requeue_now
stored_or_gone (err e) words next = failed (words e)

-- The end of the function: the finalizer of the claim is removed.
unfoldable pub drop_finalizer : Answers → DeploymentTargetClaim → Outcome
drop_finalizer a dtc =
    let (changed, fs) = remove_finalizer a.finalizer_binder dtc.finalizers in
    let dtc' = record dtc { finalizers = fs } in
    if changed
    then after_write (update_claim dtc') (
        stored (a.update_claim dtc')
          (about
            (concat "failed to remove finalizer "
              (concat a.finalizer_binder " from DeploymentTargetClaim "))
            dtc.name dtc.namespace)
          (λ d. finished no_requeue))
    else finished no_requeue

abbrev pub is_released : TargetPhase → Bool
is_released released = true
is_released _ = false

-- updateDTStatusPhase with the phase Released.
unfoldable pub release_target : Answers → DeploymentTargetClaim → DeploymentTarget → Outcome
unfolding drop_finalizer
release_target a dtc dt =
    let dt' = record dt { phase = released } in
    if is_released dt.phase
    then drop_finalizer a dtc
    else after_write (update_target_status dt') (
        stored_or_gone (a.update_phase dt')
          (λ e. "failed to update DeploymentTarget to Released status") (λ d. drop_finalizer a dtc))

unfoldable pub unclaim_target : Answers → DeploymentTargetClaim → DeploymentTarget → Outcome
unfolding release_target
unclaim_target a dtc dt =
    let dt' = record dt { claim_ref = "" } in
    after_write (update_target dt') (
      stored_or_gone (a.update_claim_ref_unset dt')
        (λ e. concat "failed to update the claimRef: " e) (release_target a dtc))

-- From the second Get of the target on.
unfoldable pub let_go : Answers → DeploymentTargetClaim → DeploymentTarget → Outcome
unfolding unclaim_target
let_go a dtc dt =
    stored_or_gone (a.get_target_again dt.namespace dt.name)
      (λ e. concat "failed to retrieve an updated copy of the DT: " e) (unclaim_target a dtc)

-- By the answer of Delete.
unfoldable pub after_delete :
    Answers → DeploymentTargetClaim → DeploymentTarget → Option String → Outcome
unfolding let_go
after_delete a dtc dt none = let_go a dtc dt
after_delete a dtc dt (some e) = failed e

-- By the reclaim policy.
unfoldable pub by_policy :
    Answers → DeploymentTargetClaim → ReclaimPolicy → DeploymentTarget → Outcome
unfolding after_delete let_go
by_policy a dtc delete_policy dt =
    after_write (delete_target dt) (after_delete a dtc dt (a.delete_target dt))
by_policy a dtc retain_policy dt = let_go a dtc dt
by_policy a dtc (other_policy p) dt = let_go a dtc dt

-- The finalizer of the target is added if it is absent.
unfoldable pub hold_target :
    Answers → DeploymentTargetClaim → ReclaimPolicy → DeploymentTarget → Outcome
unfolding by_policy
hold_target a dtc policy dt =
    let (changed, fs) = add_finalizer finalizer_dt dt.finalizers in
    let dt' = record dt { finalizers = fs } in
    if changed
    then after_write (update_target dt') (
        stored (a.update_finalizer_added dt')
          (about (concat "failed to add finalizer " (concat finalizer_dt " to DeploymentTarget "))
            dt.name dt.namespace)
          (by_policy a dtc policy))
    else by_policy a dtc policy dt

abbrev pub no_class : String → Outcome
no_class e = rejected_with "unable to locate matching DTClass for DT" e

-- By the answer to findMatchingDTClassForDT.
unfoldable pub with_class :
    Answers → DeploymentTargetClaim → DeploymentTarget → Result ReclaimPolicy → Outcome
unfolding hold_target
with_class a dtc dt (ok policy) = hold_target a dtc policy dt
with_class a dtc dt not_found = no_class not_found_text
with_class a dtc dt (err e) = no_class e

-- By the answer to getDTBoundByDTC.
unfoldable pub with_target :
    Answers → DeploymentTargetClaim → Result (Option DeploymentTarget) → Outcome
unfolding with_class drop_finalizer
with_target a dtc (ok (some dt)) = with_class a dtc dt (a.get_class dt.deployment_target_class_name)
with_target a dtc (ok none) = drop_finalizer a dtc
with_target a dtc not_found = drop_finalizer a dtc
with_target a dtc (err e) = rejected_with e e

unfoldable pub bound_target : Answers → DeploymentTargetClaim → Result (Option DeploymentTarget)
unfolding get_dt_bound_by_dtc
bound_target a dtc = get_dt_bound_by_dtc a.get_bound_target a.list_targets dtc

-- By the deletion timestamp.
unfoldable pub deletion_at : Answers → DeploymentTargetClaim → Option ℕ → Outcome
unfolding with_target drop_finalizer is_dtc_bound bound_target
deletion_at a dtc none = finished no_requeue
deletion_at a dtc (some since) =
    if is_dtc_bound dtc then with_target a dtc (bound_target a dtc) else drop_finalizer a dtc

unfoldable pub handle_dtc_deletion : Answers → DeploymentTargetClaim → Outcome
unfolding deletion_at
handle_dtc_deletion a dtc = deletion_at a dtc dtc.deletion_timestamp
