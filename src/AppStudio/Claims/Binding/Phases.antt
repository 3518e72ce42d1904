-- ===== src/AppStudio/Claims/Binding/Phases.antt =====
-- What deploymenttargetclaim_controller.go leaves of a claim and its target when it reports no
-- error.
use managed_gitops.Base.{◌≡◌, Bool, true, some, ◌||◌, not, is_some, if◌then◌else◌}
use managed_gitops.AppStudio.Claims.{DeploymentTargetClaim, DeploymentTarget, ok}
use managed_gitops.AppStudio.Claims.Binding.{Client, Memory}

-- The claim and the target that the cluster holds. A server that accepts an update stores all of the
-- object but its status, and one that accepts an update of the status stores nothing else; it
-- answers with the object as it then holds it, and leaves the other object as it is.
pub record Faithful {K : Type 0} (cl : Client K) : Type 0 where
  pub claim_at : K → DeploymentTargetClaim
  pub target_at : K → DeploymentTarget
  pub claim :
      (d e : DeploymentTargetClaim) (k l : K)
      → cl.update_claim d k ≡ (l, ok e)
      → (e ≡ record d { phase = (claim_at k).phase; conditions = (claim_at k).conditions })
        × (claim_at l ≡ e)
        × (target_at l ≡ target_at k)
  pub claim_status :
      (d e : DeploymentTargetClaim) (k l : K)
      → cl.update_claim_status d k ≡ (l, ok e)
      → (e ≡ record (claim_at k) { phase = d.phase; conditions = d.conditions })
        × (claim_at l ≡ e)
        × (target_at l ≡ target_at k)
  pub target_status :
      (d e : DeploymentTarget) (k l : K)
      → cl.update_target_status d k ≡ (l, ok e)
      → (e ≡ record (target_at k) { phase = d.phase; conditions = d.conditions })
        × (claim_at l ≡ claim_at k)
        × (target_at l ≡ e)

module _ {K : Type 0} (cl : Client K) (law : Faithful cl) where
  -- The cluster holds the claim that the memory has, and the target.
  abbrev pub Holds : DeploymentTargetClaim → DeploymentTarget → Memory K → Type 0
  Holds d dt m = (m.dtc ≡ d) × (law.claim_at m.cluster ≡ d) × (law.target_at m.cluster ≡ dt)

  -- The claim after markDTCAsBoundByController, and after the annotation of its binding.
  abbrev named : DeploymentTargetClaim → DeploymentTarget → DeploymentTargetClaim
  named c dt = record c {
    target_name = dt.name;
    annotations =
        if is_some c.annotations.bound_by_controller
        then c.annotations
        else record c.annotations { bound_by_controller = some cl.ann_binder_value_true };
  }

  -- The cluster and the memory agree on a claim with the property P.
  abbrev HoldsSome : (DeploymentTargetClaim → Type 0) → DeploymentTarget → Memory K → Type 0
  HoldsSome P dt r = (d : DeploymentTargetClaim) × P d × Holds d dt r

  -- What the first step leaves of the claim.
  abbrev IsMarked : Bool → DeploymentTargetClaim → DeploymentTarget → DeploymentTargetClaim → Type 0
  IsMarked b c dt d =
      (d.target_name ≡ (if b then dt.name else c.target_name))
      × ((not b || is_some d.annotations.bound_by_controller) ≡ true)
