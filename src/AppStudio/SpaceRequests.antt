-- ===== src/AppStudio/SpaceRequests.antt =====
-- appstudio-controller/controllers/appstudio.redhat.com/spacerequest_controller.go: a SpaceRequest
-- whose namespace is ready gets a deployment target, and one without its claim is deleted.
pub mod Writes
mod Tests
use Prim.Native.String.{◌++◌ as concat}
use managed_gitops.Base.{
  Bool, true, false, Option, none, some, List, [], ◌∷◌, ◌&&◌, ◌||◌, not, String, ◌==◌, is_some,
  if◌then◌else◌,
}
use managed_gitops.AppStudio.Claims.{
  Result, ok, not_found, err, DeploymentTarget, DeploymentTargetClaim, available, no_target_phase,
}
use managed_gitops.AppStudio.Targets.{
  ReclaimPolicy, delete_policy, retain_policy, other_policy, SpaceRequest, Write, create_target,
  update_target_status, update_request, delete_request, Outcome, finished, failed, after_write,
  stored, not_found_text, no_requeue,
}

pub record DeploymentTargetClass : Type 0 where
  pub name : String
  -- whether the provisioner is Provisioner_Devsandbox
  pub is_devsandbox : Bool
  pub reclaim_policy : ReclaimPolicy

-- What each call of the Kubernetes client answers, by its place in the code: none is made twice.
-- The arguments of a Get are the namespace and the name.
pub record Answers : Type 0 where
  pub get_request : Result SpaceRequest
  pub list_classes : Result (List DeploymentTargetClass)
  pub get_claim_of_orphan : String → String → Result DeploymentTargetClaim
  pub delete_orphan : SpaceRequest → Option String
  pub get_labelled_target : String → String → Result DeploymentTarget
  pub get_claim : String → String → Result DeploymentTargetClaim
  pub list_targets : String → Result (List DeploymentTarget)
  pub get_claim_of_new : String → String → Result DeploymentTargetClaim
  pub create_target : DeploymentTarget → Result DeploymentTarget
  pub update_phase : DeploymentTarget → Result DeploymentTarget
  pub update_label : SpaceRequest → Result SpaceRequest
  -- IsTrue of the toolchain, for ConditionReady
  pub is_ready : SpaceRequest → Bool
  -- whether the variable of the environment asks to skip the check of certificates
  pub skips_tls_verify : Bool

-- The loop over the classes: the last one of the provisioner.
abbrev pub devsandbox_class : List DeploymentTargetClass → Option DeploymentTargetClass
devsandbox_class [] = none
devsandbox_class (c ∷ cs) = elim (devsandbox_class cs) [
  | some d ↦ some d
  | none ↦ if c.is_devsandbox then some c else none
]

-- The target has a name, or is looked for: the label is that of the target.
unfoldable pub ensure_label : Answers → SpaceRequest → DeploymentTarget → Outcome
ensure_label a sr dt =
    let sr' = record sr { target_label = some dt.name } in
    if elim sr.target_label [ none ↦ false | some l ↦ l == dt.name ]
    then finished no_requeue
    else after_write (update_request sr')
        (stored (a.update_label sr') (λ e. e) (λ s. finished no_requeue))

-- The target that createDeploymentTargetForSpaceRequest creates for the access to a namespace, by
-- its name and its secret. Its labels and annotations are left out.
unfoldable pub new_target :
    Answers → SpaceRequest → String × String → DeploymentTargetClaim → DeploymentTarget
new_target a sr (name, secret) dtc = record {
  name = concat dtc.name "-dt";
  namespace = dtc.namespace;
  finalizers = [];
  deletion_timestamp = none;
  claim_ref = dtc.name;
  deployment_target_class_name = dtc.deployment_target_class_name;
  has_cluster_credentials =
      not (name == "")
      || (not (sr.target_cluster_url == "") || (not (secret == "") || a.skips_tls_verify));
  phase = no_target_phase;
  conditions = [];
}

-- The status update of a created target, and the label.
unfoldable pub mark_available : Answers → SpaceRequest → DeploymentTarget → Outcome
unfolding ensure_label
mark_available a sr dt =
    let dt' = record dt { phase = available } in
    after_write (update_target_status dt') (
      stored (a.update_phase dt') (λ e. "failed to update DeploymentTarget to Available status")
        (ensure_label a sr))

-- createDeploymentTargetForSpaceRequest, by the answer to the Get of the claim.
unfoldable pub create_for :
    Answers → SpaceRequest → String × String → Result DeploymentTargetClaim → Outcome
unfolding mark_available new_target
create_for a sr access not_found =
    failed (concat "unable to locate matching DTC for SpaceRequest: " not_found_text)
create_for a sr access (err e) =
    failed (concat "unable to locate matching DTC for SpaceRequest: " e)
create_for a sr access (ok dtc) =
    let dt = new_target a sr access dtc in
    after_write (create_target dt) (stored (a.create_target dt) (λ e. e) (mark_available a sr))

-- The loop of findMatchingDTForSpaceRequest.
abbrev pub first_claimed : String → List DeploymentTarget → Option DeploymentTarget
first_claimed claim [] = none
first_claimed claim (dt ∷ dts) = if claim == dt.claim_ref then some dt else first_claimed claim dts

abbrev pub claimed_in : String → Result (List DeploymentTarget) → Result (Option DeploymentTarget)
claimed_in claim (ok dts) = ok (first_claimed claim dts)
claimed_in claim not_found = not_found
claimed_in claim (err e) = err e

-- By the answer to findMatchingDTCForSpaceRequest.
unfoldable pub of_claim :
    Answers → SpaceRequest → Result DeploymentTargetClaim → Result (Option DeploymentTarget)
of_claim a sr (ok dtc) = claimed_in dtc.name (a.list_targets sr.namespace)
of_claim a sr not_found = not_found
of_claim a sr (err e) = err e

-- findMatchingDTForSpaceRequest, by the answer to the Get of the labelled target, which is
-- not_found as well if there is no label. The label of the claim has been read before.
unfoldable pub find_matching_dt :
    Answers → SpaceRequest → String → Result DeploymentTarget → Result (Option DeploymentTarget)
unfolding of_claim
find_matching_dt a sr claim (ok dt) = ok (some dt)
find_matching_dt a sr claim not_found = of_claim a sr (a.get_claim sr.namespace claim)
find_matching_dt a sr claim (err e) = err e

abbrev pub labelled_target : Answers → SpaceRequest → Result DeploymentTarget
labelled_target a sr = elim sr.target_label [
  | none ↦ not_found
  | some l ↦ a.get_labelled_target sr.namespace l
]

-- By the target that was found.
unfoldable pub with_match :
    Answers → SpaceRequest → String → String × String → Result (Option DeploymentTarget) → Outcome
unfolding ensure_label create_for
with_match a sr claim access (ok (some dt)) = ensure_label a sr dt
with_match a sr claim access (ok none) =
    create_for a sr access (a.get_claim_of_new sr.namespace claim)
with_match a sr claim access not_found = failed not_found_text
with_match a sr claim access (err e) = failed e

-- The part of Reconcile for a SpaceRequest that is no orphan, by its NamespaceAccess.
unfoldable pub with_access : Answers → SpaceRequest → String → List (String × String) → Outcome
unfolding with_match find_matching_dt
with_access a sr claim [] = finished no_requeue
with_access a sr claim (x ∷ y ∷ xs) = finished no_requeue
with_access a sr claim (x ∷ []) =
    if a.is_ready sr
    then with_match a sr claim x (find_matching_dt a sr claim (labelled_target a sr))
    else finished no_requeue

-- deleteSpaceRequestIfOrphaned, by the answer to the Get of the claim.
unfoldable pub with_claim : Answers → SpaceRequest → String → Result DeploymentTargetClaim → Outcome
unfolding with_access
with_claim a sr claim (ok dtc) = with_access a sr claim sr.namespace_access
with_claim a sr claim (err e) = failed e
with_claim a sr claim not_found =
    after_write (delete_request sr)
      (elim (a.delete_orphan sr) [ none ↦ finished no_requeue | some e ↦ failed e ])

-- By the class of the provisioner.
unfoldable pub with_sandbox :
    Answers → SpaceRequest → String → Option DeploymentTargetClass → Outcome
unfolding with_access with_claim
with_sandbox a sr claim none =
    failed "unable to locate dev sandbox provisioner DeploymentTargetClass"
with_sandbox a sr claim (some c) = elim c.reclaim_policy [
  | delete_policy ↦ with_claim a sr claim (a.get_claim_of_orphan sr.namespace claim)
  | retain_policy ↦ with_access a sr claim sr.namespace_access
  | other_policy p ↦ with_access a sr claim sr.namespace_access
]

unfoldable pub with_classes :
    Answers → SpaceRequest → String → Result (List DeploymentTargetClass) → Outcome
unfolding with_sandbox
with_classes a sr claim (ok cs) = with_sandbox a sr claim (devsandbox_class cs)
with_classes a sr claim not_found = failed not_found_text
with_classes a sr claim (err e) = failed e

-- By the label of the claim.
unfoldable pub with_label : Answers → SpaceRequest → Option String → Outcome
unfolding with_classes
with_label a sr none = finished no_requeue
with_label a sr (some claim) = with_classes a sr claim a.list_classes

unfoldable pub with_request : Answers → Result SpaceRequest → Outcome
unfolding with_label
with_request a not_found = finished no_requeue
with_request a (err e) = failed e
with_request a (ok sr) =
    if is_some sr.deletion_timestamp then finished no_requeue else with_label a sr sr.claim_label

-- Reconcile
unfoldable pub reconcile_request : Answers → Outcome
unfolding with_request
reconcile_request a = with_request a a.get_request
