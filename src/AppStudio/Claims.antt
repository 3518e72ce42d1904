-- ===== src/AppStudio/Claims.antt =====
-- appstudio-controller/controllers/appstudio.redhat.com/deploymenttargetclaim_controller.go: claims
-- of deployment targets. The API types stand in another repository: of their strings the model has
-- the fields that the code reads, and the phases and annotation keys are the constants it names.
pub mod Matching
pub mod Finalizers
pub mod Binding
mod Tests
use managed_gitops.Base.{
  ℕ, Bool, true, false, Option, none, some, List, [], ◌∷◌, ◌++◌, ◌&&◌, ◌||◌, not, String, ◌==◌,
  is_some, if◌then◌else◌,
}
use managed_gitops.Base.Map.{Map}
use managed_gitops.AppStudio.StatusConditions.{MetaCondition}
pub use managed_gitops.Base.Client.{Result, ok, not_found, err}

pub data ClaimPhase : Type 0 where
  pending bound lost : ClaimPhase
  -- the empty string, or any other
  other_claim_phase : String → ClaimPhase

pub data TargetPhase : Type 0 where
  available target_bound released target_failed no_target_phase : TargetPhase
  other_target_phase : String → TargetPhase

-- The annotations by their keys: AnnBindCompleted, AnnBoundByController, AnnTargetProvisioner.
pub record Annotations : Type 0 where
  pub bind_completed : Option String
  pub bound_by_controller : Option String
  pub target_provisioner : Option String
  pub other_annotations : Map String

pub record DeploymentTargetClaim : Type 0 where
  pub name : String
  pub namespace : String
  pub annotations : Annotations
  pub finalizers : List String
  -- in nanoseconds, as every time here
  pub deletion_timestamp : Option ℕ
  pub target_name : String
  pub deployment_target_class_name : String
  pub phase : ClaimPhase
  pub conditions : List MetaCondition

pub record DeploymentTarget : Type 0 where
  pub name : String
  pub namespace : String
  pub finalizers : List String
  pub deletion_timestamp : Option ℕ
  pub claim_ref : String
  pub deployment_target_class_name : String
  -- whether .spec.kubernetesCredentials differs from the zero value of its struct
  pub has_cluster_credentials : Bool
  pub phase : TargetPhase
  pub conditions : List MetaCondition

abbrev pub claimed_elsewhere : DeploymentTarget → DeploymentTargetClaim → Bool
claimed_elsewhere dt dtc = not (dt.claim_ref == "") && not (dt.claim_ref == dtc.name)

pub data Mismatch : Type 0 where
  already_referenced class_differs not_available no_credentials : Mismatch
  claimed_by_another already_claimed : Mismatch

-- checkForBindingConflict
unfoldable pub check_for_binding_conflict :
    DeploymentTargetClaim → DeploymentTarget → Option Mismatch
check_for_binding_conflict dtc dt =
    if (dtc.target_name == dt.name || dtc.target_name == "") && claimed_elsewhere dt dtc
    then some claimed_by_another
    else if (dt.claim_ref == dtc.name || dt.claim_ref == "")
        && not (dtc.target_name == "")
        && not (dtc.target_name == dt.name)
    then some already_claimed
    else none

-- `dt.Status.Phase != "" && dt.Status.Phase != DeploymentTargetPhase_Available`
abbrev pub is_unavailable : TargetPhase → Bool
is_unavailable available = false
is_unavailable no_target_phase = false
is_unavailable _ = true

-- doesDTMatchDTC
unfoldable pub does_dt_match_dtc : DeploymentTarget → DeploymentTargetClaim → Option Mismatch
unfolding check_for_binding_conflict
does_dt_match_dtc dt dtc =
    if claimed_elsewhere dt dtc
    then some already_referenced
    else if not (dt.deployment_target_class_name == dtc.deployment_target_class_name)
    then some class_differs
    else if is_unavailable dt.phase
    then some not_available
    else if not dt.has_cluster_credentials
    then some no_credentials
    else check_for_binding_conflict dtc dt

unfoldable pub is_dtc_binding_completed : DeploymentTargetClaim → Bool
is_dtc_binding_completed dtc = is_some dtc.annotations.bind_completed

unfoldable pub is_dtc_bound : DeploymentTargetClaim → Bool
unfolding is_dtc_binding_completed
is_dtc_bound dtc = is_dtc_binding_completed dtc && elim dtc.phase [ bound ↦ true | _ ↦ false ]

unfoldable pub is_marked_for_dynamic_provisioning : DeploymentTargetClaim → Bool
is_marked_for_dynamic_provisioning dtc = is_some dtc.annotations.target_provisioner

-- The matcher of findMatchingDTForDTC.
unfoldable pub matcher : DeploymentTargetClaim → DeploymentTarget → Bool
matcher dtc dt =
    if is_marked_for_dynamic_provisioning dtc
    then dt.claim_ref == dtc.name && not (is_some (does_dt_match_dtc dt dtc))
    else not (is_some (does_dt_match_dtc dt dtc))

first_match : DeploymentTargetClaim → List DeploymentTarget → Option DeploymentTarget
first_match dtc [] = none
first_match dtc (dt ∷ dts) = if matcher dtc dt then some dt else first_match dtc dts

-- findMatchingDTForDTC, by the answer to its List call.
unfoldable pub find_matching_dt_for_dtc :
    Result (List DeploymentTarget) → DeploymentTargetClaim → Result (Option DeploymentTarget)
unfolding first_match
find_matching_dt_for_dtc (ok dts) dtc = ok (first_match dtc dts)
find_matching_dt_for_dtc not_found dtc = not_found
find_matching_dt_for_dtc (err e) dtc = err e

-- The loop of getDTBoundByDTC over the targets of the namespace, with the target found so far;
-- `none` is the error that more than one target claims.
only_claiming :
    DeploymentTargetClaim
    → Option DeploymentTarget
    → List DeploymentTarget
    → Option (Option DeploymentTarget)
only_claiming dtc found [] = some found
only_claiming dtc found (dt ∷ dts) = elim (dt.claim_ref == dtc.name) [
  | false ↦ only_claiming dtc found dts
  | true ↦ elim found [ none ↦ only_claiming dtc (some dt) dts | some other ↦ none ]
]

abbrev pub multiple_found : Result (Option DeploymentTarget)
multiple_found = err "multiple DeploymentTargets found for a bounded DeploymentTargetClaim"

abbrev checked : Option Mismatch → DeploymentTarget → Result (Option DeploymentTarget)
checked none dt = ok (some dt)
checked (some m) dt = err "cannot bind DeploymentTargetClaim to DeploymentTarget"

-- getDTBoundByDTC, by the answers to its Get call and to its List call.
unfoldable pub get_dt_bound_by_dtc :
    Result DeploymentTarget
    → Result (List DeploymentTarget)
    → DeploymentTargetClaim
    → Result (Option DeploymentTarget)
unfolding only_claiming
get_dt_bound_by_dtc got listed dtc =
    if not (dtc.target_name == "")
    then elim got [
      | ok dt ↦ checked (check_for_binding_conflict dtc dt) dt
      | not_found ↦ not_found
      | err e ↦ err e
    ]
    else elim listed [
      | ok dts ↦ elim (only_claiming dtc none dts) [ none ↦ multiple_found | some found ↦ ok found ]
      | not_found ↦ not_found
      | err e ↦ err e
    ]

-- The requests of findObjectsForDeploymentTarget: the claims to reconcile for a target.
unfoldable pub find_objects_for_deployment_target :
    Result (List DeploymentTargetClaim) → DeploymentTarget → List (String × String)
find_objects_for_deployment_target not_found dt = []
find_objects_for_deployment_target (err e) dt = []
find_objects_for_deployment_target (ok []) dt = []
find_objects_for_deployment_target (ok (dtc ∷ dtcs)) dt =
    let rest = find_objects_for_deployment_target (ok dtcs) dt in
    if dtc.target_name == dt.name || dt.claim_ref == dtc.name
    then (dtc.namespace, dtc.name) ∷ rest
    else rest

unfoldable pub has_finalizer : String → List String → Bool
has_finalizer f [] = false
has_finalizer f (x ∷ xs) = x == f || has_finalizer f xs

-- addFinalizer: whether the list changed, and the list.
unfoldable pub add_finalizer : String → List String → Bool × List String
unfolding has_finalizer
add_finalizer f fs = if has_finalizer f fs then (false, fs) else (true, fs ++ (f ∷ []))

-- removeFinalizer: the first occurrence goes.
unfoldable pub remove_finalizer : String → List String → Bool × List String
remove_finalizer f [] = (false, [])
remove_finalizer f (x ∷ xs) =
    let (b, ys) = remove_finalizer f xs in if x == f then (true, xs) else (b, x ∷ ys)
