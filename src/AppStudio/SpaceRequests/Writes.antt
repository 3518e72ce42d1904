-- ===== src/AppStudio/SpaceRequests/Writes.antt =====
-- What the controller of SpaceRequests writes: spacerequest_controller.go.
use managed_gitops.Base.{◌≡◌, true, false, some, List, [], ◌∷◌, String, ◌==◌, ◌⊎◌, All}
use managed_gitops.AppStudio.Claims.{
  ok, not_found, DeploymentTarget, DeploymentTargetClaim, available,
}
use managed_gitops.AppStudio.Targets.{
  delete_policy, SpaceRequest, Write, create_target, update_target_status, update_request,
  delete_request, Outcome,
}
use managed_gitops.AppStudio.SpaceRequests.{
  DeploymentTargetClass, Answers, devsandbox_class, new_target, find_matching_dt, labelled_target,
}

-- No target of the list refers to the claim.
abbrev pub NoneClaims : String → List DeploymentTarget → Type 0
NoneClaims claim dts = All (λ dt. (claim == dt.claim_ref) ≡ false) dts

-- What the server made of the target that was created for the claim and one namespace.
abbrev pub IsCreated : Answers → SpaceRequest → String → DeploymentTarget → Type 0
IsCreated a sr claim dt =
    (access : String × String) × (dtc : DeploymentTargetClaim) × (sr.namespace_access ≡ access ∷ [])
    × (a.get_claim_of_new sr.namespace claim ≡ ok dtc)
    × (a.create_target (new_target a sr access dtc) ≡ ok dt)

-- The target of a SpaceRequest: the one that was found, or the one that was created for it and
-- then stored as available.
abbrev pub IsTargetOf : Answers → SpaceRequest → String → DeploymentTarget → Type 0
IsTargetOf a sr claim dt =
    (find_matching_dt a sr claim (labelled_target a sr) ≡ ok (some dt))
    ⊎ ((created : DeploymentTarget) × IsCreated a sr claim created
        × (a.update_phase (record created { phase = available }) ≡ ok dt))

-- The writes that a reconciliation of the SpaceRequest sr may make.
pub data Permitted (a : Answers) (sr : SpaceRequest) : Write → Type 0 where
  -- it is deleted, since its claim is gone and the class of the sandbox has the policy Delete
  deletes :
      (claim : String) (classes : List DeploymentTargetClass) (class : DeploymentTargetClass)
      → sr.claim_label ≡ some claim
      → a.list_classes ≡ ok classes
      → devsandbox_class classes ≡ some class
      → class.reclaim_policy ≡ delete_policy
      → a.get_claim_of_orphan sr.namespace claim ≡ not_found
      → Permitted a sr (delete_request sr)
  -- a target is created for its one namespace and the claim of its label, since it is ready, its
  -- label leads to no target, and none of the targets of its Kubernetes namespace refers to the claim
  creates :
      (claim : String) (access : String × String) (old dtc : DeploymentTargetClaim)
      (dts : List DeploymentTarget)
      → sr.claim_label ≡ some claim
      → sr.namespace_access ≡ access ∷ []
      → a.is_ready sr ≡ true
      → labelled_target a sr ≡ not_found
      → a.get_claim sr.namespace claim ≡ ok old
      → a.list_targets sr.namespace ≡ ok dts
      → NoneClaims old.name dts
      → a.get_claim_of_new sr.namespace claim ≡ ok dtc
      → Permitted a sr (create_target (new_target a sr access dtc))
  -- the target that has been created for the claim of its label becomes available
  marks :
      (claim : String) (dt : DeploymentTarget)
      → sr.claim_label ≡ some claim
      → IsCreated a sr claim dt
      → Permitted a sr (update_target_status (record dt { phase = available }))
  -- its label is that of its target
  labels :
      (claim : String) (dt : DeploymentTarget)
      → sr.claim_label ≡ some claim
      → IsTargetOf a sr claim dt
      → Permitted a sr (update_request (record sr { target_label = some dt.name }))

module _ (a : Answers) (sr : SpaceRequest) where
  abbrev AllPermitted : Outcome → Type 0
  AllPermitted o = All (Permitted a sr) o.writes
