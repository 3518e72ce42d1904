-- ===== src/AppStudio/Targets/Reconcile.antt =====
-- reconcileInternal of deploymenttarget_controller.go, one function for each of its steps.
use Prim.Native.String.{◌++◌ as concat}
use managed_gitops.Base.{
  ℕ, ◌+◌, ltb, Option, none, some, ◌&&◌, not, String, ◌==◌, is_some, if◌then◌else◌,
}
use managed_gitops.AppStudio.Claims.{
  Result, ok, not_found, err, DeploymentTarget, DeploymentTargetClaim, target_failed, add_finalizer,
  remove_finalizer,
}
use managed_gitops.AppStudio.Targets.{
  ReclaimPolicy, delete_policy, retain_policy, other_policy, SpaceRequest, Answers, update_target,
  update_target_status, update_request, delete_request, Outcome, no_requeue, requeue_now,
  requeue_after, finished, failed, rejected, after_write, about, stored,
  find_matching_space_request, is_failed, finalizer_dt,
}

-- Two minutes, and thirty seconds.
abbrev pub two_minutes : ℕ
two_minutes = 120000000000

abbrev pub thirty_seconds : ℕ
thirty_seconds = 30000000000

-- A SpaceRequest that is being deleted since some time.
unfoldable pub await_termination : Answers → DeploymentTarget → ℕ → String → Outcome
await_termination a dt since reason =
    let dt' = record dt { phase = target_failed } in
    if is_failed dt.phase
    then finished no_requeue
    else if ltb (since + two_minutes) a.now && reason == a.terminating_failed_reason
    then after_write (update_target_status dt')
        (stored (a.update_phase dt') (λ e. e) (λ stored_dt. finished no_requeue))
    else finished (requeue_after thirty_seconds)

-- By the answer of Delete.
abbrev pub deleted : Option String → Outcome
deleted none = finished requeue_now
deleted (some e) = failed e

-- By the deletion timestamp of the SpaceRequest.
unfoldable pub terminate_at :
    Answers → DeploymentTarget → SpaceRequest → String → Option ℕ → Outcome
unfolding await_termination
terminate_at a dt sr reason none =
    after_write (delete_request sr) (deleted (a.delete_space_request sr))
terminate_at a dt sr reason (some since) = await_termination a dt since reason

-- By the reason of its condition Ready.
unfoldable pub terminate_for : Answers → DeploymentTarget → SpaceRequest → Option String → Outcome
unfolding terminate_at
terminate_for a dt sr none =
    rejected (concat "failed to find ConditionReady for SpaceRequest: " sr.name)
terminate_for a dt sr (some reason) = terminate_at a dt sr reason sr.deletion_timestamp

-- A SpaceRequest with its finalizer, of a class whose policy is Delete.
unfoldable pub terminate : Answers → DeploymentTarget → SpaceRequest → Outcome
unfolding terminate_for
terminate a dt sr = terminate_for a dt sr (a.ready_reason sr)

-- The finalizer of the SpaceRequest is added if it is absent.
unfoldable pub take_down : Answers → DeploymentTarget → SpaceRequest → Outcome
unfolding terminate
take_down a dt sr =
    let (changed, fs) = add_finalizer a.space_request_finalizer sr.finalizers in
    let sr' = record sr { finalizers = fs } in
    if changed
    then after_write (update_request sr') (
        stored (a.update_space_request sr')
          (about
            (concat "failed to add finalizer "
              (concat a.space_request_finalizer " for SpaceRequest "))
            sr.name sr.namespace)
          (terminate a dt))
    else terminate a dt sr

unfoldable pub release : Answers → DeploymentTarget → Outcome
release a dt =
    let (changed, fs) = remove_finalizer finalizer_dt dt.finalizers in
    let dt' = record dt { finalizers = fs } in
    if changed
    then after_write (update_target dt') (
        stored (a.update_finalizer_removed dt')
          (about
            (concat "failed to remove finalizer " (concat finalizer_dt " from DeploymentTarget "))
            dt.name dt.namespace)
          (λ stored_dt. finished no_requeue))
    else finished no_requeue

-- By the SpaceRequest of the target, and the policy.
unfoldable pub with_request :
    Answers → DeploymentTarget → ReclaimPolicy → Option SpaceRequest → Outcome
unfolding release take_down
with_request a dt policy none = release a dt
with_request a dt retain_policy (some sr) = release a dt
with_request a dt delete_policy (some sr) = take_down a dt sr
with_request a dt (other_policy p) (some sr) =
    rejected "unexpected reclaimPolicy: neither Retain nor Delete."

-- By the answer to findMatchingSpaceRequestForDT.
unfoldable pub with_found :
    Answers → ReclaimPolicy → DeploymentTarget → Result (Option SpaceRequest) → Outcome
unfolding with_request
with_found a policy dt (ok sr) = with_request a dt policy sr
with_found a policy dt not_found = with_request a dt policy none
with_found a policy dt (err e) = failed e

-- The part of reconcileInternal after the check of the claim, by the deletion timestamp.
unfoldable pub deletion_at : Answers → ReclaimPolicy → DeploymentTarget → Option ℕ → Outcome
unfolding find_matching_space_request with_found
deletion_at a policy dt none = finished no_requeue
deletion_at a policy dt (some since) = with_found a policy dt (find_matching_space_request a dt)

unfoldable pub handle_deletion : Answers → ReclaimPolicy → DeploymentTarget → Outcome
unfolding deletion_at
handle_deletion a policy dt = deletion_at a policy dt dt.deletion_timestamp

-- The claim of the target is gone.
unfoldable pub claim_missing : Answers → ReclaimPolicy → DeploymentTarget → Outcome
unfolding handle_deletion
claim_missing a retain_policy dt =
    let dt' = record dt { claim_ref = "" } in
    after_write (update_target dt')
      (stored (a.update_claim_ref_unset dt') (λ e. e) (handle_deletion a retain_policy))
claim_missing a delete_policy dt = handle_deletion a delete_policy dt
claim_missing a (other_policy p) dt = handle_deletion a (other_policy p) dt

-- By the answer to the Get of the claim.
unfoldable pub with_claim :
    Answers → ReclaimPolicy → DeploymentTarget → Result DeploymentTargetClaim → Outcome
unfolding handle_deletion claim_missing
with_claim a policy dt (ok dtc) = handle_deletion a policy dt
with_claim a policy dt not_found = claim_missing a policy dt
with_claim a policy dt (err e) = failed e

unfoldable pub check_claim : Answers → ReclaimPolicy → DeploymentTarget → Outcome
unfolding handle_deletion with_claim
check_claim a policy dt =
    if not (dt.claim_ref == "") && not (is_some dt.deletion_timestamp)
    then with_claim a policy dt (a.get_claim dt.namespace dt.claim_ref)
    else handle_deletion a policy dt

-- By the answer to findMatchingDTClassForDT, with the check of the policy.
unfoldable pub with_class : Answers → DeploymentTarget → Result ReclaimPolicy → Outcome
unfolding check_claim
with_class a dt not_found = finished no_requeue
with_class a dt (err e) = rejected "failed to retrieve DeploymentTargetClass of DeploymentTarget"
with_class a dt (ok (other_policy p)) =
    rejected "unexpected reclaim policy value on DeploymentTargetClass"
with_class a dt (ok delete_policy) = check_claim a delete_policy dt
with_class a dt (ok retain_policy) = check_claim a retain_policy dt

unfoldable pub check_class : Answers → DeploymentTarget → Outcome
unfolding with_class
check_class a dt = with_class a dt (a.get_class dt.deployment_target_class_name)

-- The finalizer of the target is added if it is absent.
unfoldable pub add_target_finalizer : Answers → DeploymentTarget → Outcome
unfolding check_class
add_target_finalizer a dt =
    let (changed, fs) = add_finalizer finalizer_dt dt.finalizers in
    let dt' = record dt { finalizers = fs } in
    if changed
    then after_write (update_target dt') (
        stored (a.update_finalizer_added dt')
          (about (concat "failed to add finalizer " (concat finalizer_dt " to DeploymentTarget "))
            dt.name dt.namespace)
          (check_class a))
    else check_class a dt

unfoldable pub reconcile_internal : Answers → Outcome
unfolding add_target_finalizer
reconcile_internal a = elim a.get_target [
  | ok dt ↦ add_target_finalizer a dt
  | not_found ↦ finished no_requeue
  | err e ↦ failed e
]
