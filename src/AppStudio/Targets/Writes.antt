-- ===== src/AppStudio/Targets/Writes.antt =====
-- What the controller of deployment targets may write: deploymenttarget_controller.go.
use managed_gitops.Base.{ℕ, ◌+◌, ◌<◌, ◌≡◌, true, false, ◌==◌, none, some, ◌⊎◌, All}
use managed_gitops.AppStudio.Claims.{
  ok, not_found, DeploymentTarget, target_failed, add_finalizer, remove_finalizer,
}
use managed_gitops.AppStudio.Targets.{
  finalizer_dt, ReclaimPolicy, delete_policy, retain_policy, SpaceRequest, Answers, Write,
  update_target, update_target_status, update_request, delete_request, Outcome,
  find_matching_space_request,
}
use managed_gitops.AppStudio.Targets.Reconcile.{two_minutes}

-- The target as the first Get found it, or as the server stored it when its finalizer was added.
abbrev pub IsRead : Answers → DeploymentTarget → Type 0
IsRead a dt =
    (a.get_target ≡ ok dt)
    ⊎ ((old : DeploymentTarget) × (a.get_target ≡ ok old)
        × (a.update_finalizer_added
              (record old { finalizers = (add_finalizer finalizer_dt old.finalizers).1 })
            ≡ ok dt))

-- A target that was read, and the class that it names has the policy.
abbrev pub HasClass : Answers → DeploymentTarget → ReclaimPolicy → Type 0
HasClass a dt policy = IsRead a dt × (a.get_class dt.deployment_target_class_name ≡ ok policy)

-- Such a target, or what the server made of it when it was unclaimed.
abbrev pub HasPolicy : Answers → DeploymentTarget → ReclaimPolicy → Type 0
HasPolicy a dt policy =
    (read : DeploymentTarget) × HasClass a read policy
    × ((dt ≡ read) ⊎ (a.update_claim_ref_unset (record read { claim_ref = "" }) ≡ ok dt))

-- The target is being deleted.
abbrev pub IsDeleted : DeploymentTarget → Type 0
IsDeleted dt = (since : ℕ) × (dt.deletion_timestamp ≡ some since)

-- The target has no SpaceRequest.
abbrev pub HasNoRequest : Answers → DeploymentTarget → Type 0
HasNoRequest a dt =
    (find_matching_space_request a dt ≡ ok none) ⊎ (find_matching_space_request a dt ≡ not_found)

-- A SpaceRequest of the target: the one that was found, or what the server has made of it when its
-- finalizer was added.
abbrev pub IsRequestOf : Answers → DeploymentTarget → SpaceRequest → Type 0
IsRequestOf a dt sr =
    (found : SpaceRequest) × (find_matching_space_request a dt ≡ ok (some found))
    × ((sr ≡ found)
        ⊎ (a.update_space_request (record found {
          finalizers = (add_finalizer a.space_request_finalizer found.finalizers).1;
        })
            ≡ ok sr))

-- The writes that a reconciliation may make.
pub data Allowed (a : Answers) : Write → Type 0 where
  -- the finalizer of the target is added
  adds :
      (dt : DeploymentTarget)
      → a.get_target ≡ ok dt
      → (add_finalizer finalizer_dt dt.finalizers).0 ≡ true
      → Allowed a
          (update_target (record dt { finalizers = (add_finalizer finalizer_dt dt.finalizers).1 }))
  -- a target whose policy is Retain and whose claim is gone is unclaimed
  unclaims :
      (dt : DeploymentTarget)
      → HasClass a dt retain_policy
      → dt.deletion_timestamp ≡ none
      → (dt.claim_ref == "") ≡ false
      → a.get_claim dt.namespace dt.claim_ref ≡ not_found
      → Allowed a (update_target (record dt { claim_ref = "" }))
  -- a deleted target that has no SpaceRequest, or whose policy is Retain, is let go
  releases :
      (dt : DeploymentTarget) (policy : ReclaimPolicy)
      → IsDeleted dt
      → HasPolicy a dt policy
      → HasNoRequest a dt ⊎ (policy ≡ retain_policy)
      → Allowed a (
          update_target
            (record dt { finalizers = (remove_finalizer finalizer_dt dt.finalizers).1 }))
  -- the SpaceRequest of a deleted target whose policy is Delete gets a finalizer
  prepares :
      (dt : DeploymentTarget) (sr : SpaceRequest)
      → IsDeleted dt
      → HasPolicy a dt delete_policy
      → find_matching_space_request a dt ≡ ok (some sr)
      → Allowed a (
          update_request
            (record sr { finalizers = (add_finalizer a.space_request_finalizer sr.finalizers).1 }))
  -- it is deleted, if it is not yet
  deletes :
      (dt : DeploymentTarget) (sr : SpaceRequest)
      → IsDeleted dt
      → HasPolicy a dt delete_policy
      → IsRequestOf a dt sr
      → sr.deletion_timestamp ≡ none
      → Allowed a (delete_request sr)
  -- the target fails, if its SpaceRequest could not be terminated in two minutes
  fails :
      (dt : DeploymentTarget) (sr : SpaceRequest) (since : ℕ)
      → IsDeleted dt
      → HasPolicy a dt delete_policy
      → IsRequestOf a dt sr
      → sr.deletion_timestamp ≡ some since
      → since + two_minutes < a.now
      → a.ready_reason sr ≡ some a.terminating_failed_reason
      → Allowed a (update_target_status (record dt { phase = target_failed }))

abbrev pub AllAllowed : Answers → Outcome → Type 0
AllAllowed a o = All (Allowed a) o.writes
