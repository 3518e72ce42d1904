-- ===== src/AppStudio/Claims/Binding.antt =====
-- deploymenttargetclaim_controller.go: how a claim is bound to a target, kept bound, or marked for
-- a provisioner. The Kubernetes client and the values of the API's constants are parameters.
pub mod Phases
mod Tests
use managed_gitops.Base.{
  Bool, true, false, Option, none, some, List, ◌&&◌, ◌||◌, not, String, ◌==◌, is_some,
  if◌then◌else◌,
}
use managed_gitops.AppStudio.Claims.{
  ClaimPhase, pending, bound, lost, other_claim_phase, TargetPhase, available, target_bound,
  released, target_failed, no_target_phase, other_target_phase, Annotations, DeploymentTargetClaim,
  DeploymentTarget, Result, ok, not_found, err, get_dt_bound_by_dtc, is_dtc_binding_completed,
}

-- A call gives the cluster after it, and the object that the server answers with, which the client
-- writes over the caller's object.
pub record Client (K : Type 0) : Type 0 where
  pub update_claim : DeploymentTargetClaim → K → K × Result DeploymentTargetClaim
  pub update_claim_status : DeploymentTargetClaim → K → K × Result DeploymentTargetClaim
  pub update_target_status : DeploymentTarget → K → K × Result DeploymentTarget
  pub get_target : String → String → K → Result DeploymentTarget
  pub list_targets : String → K → Result (List DeploymentTarget)
  -- AnnBinderValueTrue
  pub ann_binder_value_true : String

-- The cluster, and the objects that `dtc` and `dt` point to.
pub record Memory (K : Type 0) : Type 0 where
  pub cluster : K
  pub dtc : DeploymentTargetClaim
  pub dt : Option DeploymentTarget

-- The memory after a step, and the error that it returns.
abbrev pub Step : Type 0 → Type 0
Step K = Memory K × Option String

-- `if err := ...; err != nil { return err }`
unfoldable pub and_then : {K : Type 0} → Step K → (Memory K → Step K) → Step K
and_then (m, some e) f = (m, some e)
and_then (m, none) f = f m

abbrev pub same_claim_phase : ClaimPhase → ClaimPhase → Bool
same_claim_phase pending pending = true
same_claim_phase bound bound = true
same_claim_phase lost lost = true
same_claim_phase (other_claim_phase p) (other_claim_phase q) = p == q
same_claim_phase _ _ = false

abbrev pub is_target_bound : TargetPhase → Bool
is_target_bound target_bound = true
is_target_bound _ = false

-- The answer to an update of the claim.
unfoldable pub store_claim : {K : Type 0} → K × Result DeploymentTargetClaim → Memory K → Step K
store_claim (k, ok dtc) m = (record m { cluster = k; dtc = dtc }, none)
store_claim (k, not_found) m = (record m { cluster = k }, some "not found")
store_claim (k, err e) m = (record m { cluster = k }, some e)

unfoldable pub store_target : {K : Type 0} → K × Result DeploymentTarget → Memory K → Step K
store_target (k, ok dt) m = (record m { cluster = k; dt = some dt }, none)
store_target (k, not_found) m = (record m { cluster = k }, some "not found")
store_target (k, err e) m = (record m { cluster = k }, some e)

module _ {K : Type 0} (cl : Client K) where
  -- `k8sClient.Update(ctx, dtc)`
  unfoldable pub update_claim_to : DeploymentTargetClaim → Memory K → Step K
  unfolding store_claim
  update_claim_to dtc m = store_claim (cl.update_claim dtc m.cluster) (record m { dtc = dtc })

  unfoldable pub update_dtc_status_phase : ClaimPhase → Memory K → Step K
  unfolding store_claim
  update_dtc_status_phase p m =
      let dtc = record m.dtc { phase = p } in
      if same_claim_phase m.dtc.phase p
      then (m, none)
      else store_claim (cl.update_claim_status dtc m.cluster) (record m { dtc = dtc })

  -- updateDTStatusPhase, which is only called with the phase Bound in the functions below.
  unfoldable pub update_dt_status_bound : DeploymentTarget → Memory K → Step K
  unfolding store_target
  update_dt_status_bound dt m =
      let dt' = record dt { phase = target_bound } in
      if is_target_bound dt.phase
      then (record m { dt = some dt }, none)
      else store_target (cl.update_target_status dt' m.cluster) (record m { dt = some dt' })

  unfoldable pub mark_bound_by_controller : DeploymentTarget → Memory K → Step K
  unfolding update_claim_to
  mark_bound_by_controller dt m =
      let marked = is_some m.dtc.annotations.bound_by_controller in
      let dtc = record m.dtc {
        target_name = dt.name;
        annotations =
            if marked
            then m.dtc.annotations
            else record m.dtc.annotations { bound_by_controller = some cl.ann_binder_value_true };
      } in
      if not (m.dtc.target_name == dt.name) || not marked then update_claim_to dtc m else (m, none)

  unfoldable pub mark_bind_completed : Memory K → Step K
  unfolding update_claim_to
  mark_bind_completed m =
      if is_some m.dtc.annotations.bind_completed
      then (m, none)
      else update_claim_to
          (record m.dtc {
            annotations = record m.dtc.annotations {
              bind_completed = some cl.ann_binder_value_true;
            };
          })
          m

  -- bindDeploymentTargetClaimToTarget
  unfoldable pub bind_claim_to_target : Bool → DeploymentTarget → Memory K → Step K
  unfolding and_then mark_bound_by_controller update_dtc_status_phase update_dt_status_bound
      mark_bind_completed
  bind_claim_to_target by_controller dt m =
      and_then (if by_controller then mark_bound_by_controller dt m else (m, none)) (λ m1.
        and_then (update_dtc_status_phase bound m1)
          (λ m2. and_then (update_dt_status_bound dt m2) mark_bind_completed))

  -- The provisioner annotation of a bound claim is made to match its class.
  unfoldable pub correct_provisioner : Memory K → Step K
  unfolding update_claim_to
  correct_provisioner m = elim m.dtc.annotations.target_provisioner [
    | none ↦ (m, none)
    | some p ↦
        if m.dtc.deployment_target_class_name == ""
        then update_claim_to
            (record m.dtc { annotations = record m.dtc.annotations { target_provisioner = none } })
            m
        else if not (p == m.dtc.deployment_target_class_name)
        then update_claim_to
            (record m.dtc {
              annotations = record m.dtc.annotations {
                target_provisioner = some m.dtc.deployment_target_class_name;
              };
            })
            m
        else (m, none)
  ]

  unfoldable pub bound_target : Memory K → Result (Option DeploymentTarget)
  unfolding get_dt_bound_by_dtc
  bound_target m =
      get_dt_bound_by_dtc (cl.get_target m.dtc.namespace m.dtc.target_name m.cluster)
        (cl.list_targets m.dtc.namespace m.cluster) m.dtc

  abbrev lost_target : Option String
  lost_target = some "DeploymentTarget not found for a bounded DeploymentTargetClaim"

  unfoldable pub lose_target : Memory K → Step K
  unfolding and_then update_dtc_status_phase
  lose_target m = and_then (update_dtc_status_phase lost m) (λ m1. (m1, lost_target))

  unfoldable pub keep_bound : Result (Option DeploymentTarget) → Memory K → Step K
  unfolding and_then update_dt_status_bound update_dtc_status_phase lose_target
  keep_bound (err e) m =
      (m, some "failed to get a DeploymentTarget for the given DeploymentTargetClaim")
  keep_bound not_found m = lose_target m
  keep_bound (ok none) m = lose_target m
  keep_bound (ok (some dt)) m =
      and_then (update_dt_status_bound dt m) (update_dtc_status_phase bound)

  -- handleBoundedDeploymentTargetClaim
  unfoldable pub handle_bounded_claim : Memory K → Step K
  unfolding and_then correct_provisioner keep_bound bound_target is_dtc_binding_completed
  handle_bounded_claim m =
      if not (is_dtc_binding_completed m.dtc)
      then (m, some "bound DTC could not be processed")
      else and_then (correct_provisioner m) (λ m1. keep_bound (bound_target m1) m1)

  -- handleDynamicDTCProvisioning
  unfoldable pub handle_dynamic_provisioning : Memory K → Step K
  unfolding and_then update_claim_to update_dtc_status_phase
  handle_dynamic_provisioning m =
      if m.dtc.deployment_target_class_name == ""
      then update_dtc_status_phase pending m
      else and_then
          (update_claim_to
            (record m.dtc {
              annotations = record m.dtc.annotations {
                target_provisioner = some m.dtc.deployment_target_class_name;
              };
            })
            m)
          (update_dtc_status_phase pending)
