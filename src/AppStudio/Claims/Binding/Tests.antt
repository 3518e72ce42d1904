-- ===== src/AppStudio/Claims/Binding/Tests.antt =====
-- Bindings over a cluster with one claim and one target, whose server stores what it is sent.
use managed_gitops.Base.{◌≡◌, refl, sym, ap, ◌∙◌, true, none, some, [], ◌∷◌, ◌==◌, if◌then◌else◌}
use managed_gitops.AppStudio.Claims.{
  DeploymentTargetClaim, DeploymentTarget, pending, available, ok, is_dtc_binding_completed, Result,
  get_dt_bound_by_dtc, check_for_binding_conflict, not_found, err,
}
use managed_gitops.AppStudio.Claims.Binding.{
  Client, Memory, handle_bounded_claim, correct_provisioner, bound_target,
  handle_dynamic_provisioning, and_then, update_claim_to, update_dtc_status_phase,
  update_dt_status_bound, store_claim, store_target, keep_bound,
}
use managed_gitops.AppStudio.Claims.Binding.Phases.{Faithful}

-- The stored claim and the stored target.
abbrev Cluster : Type 0
Cluster = DeploymentTargetClaim × DeploymentTarget

-- What is stored by an update, and by an update of the status.
abbrev with_status_of : DeploymentTargetClaim → DeploymentTargetClaim → DeploymentTargetClaim
with_status_of old d = record d { phase = old.phase; conditions = old.conditions }

abbrev with_target_status : DeploymentTarget → DeploymentTarget → DeploymentTarget
with_target_status d old = record old { phase = d.phase; conditions = d.conditions }

abbrev server : Client Cluster
server = record {
  update_claim = λ d k. ((with_status_of k.0 d, k.1), ok (with_status_of k.0 d));
  update_claim_status = λ d k. ((with_status_of d k.0, k.1), ok (with_status_of d k.0));
  update_target_status = λ d k. ((k.0, with_target_status d k.1), ok (with_target_status d k.1));
  get_target = λ ns name k. if k.1.name == name then ok k.1 else not_found;
  list_targets = λ ns k. ok (k.1 ∷ []);
  ann_binder_value_true = "true";
}

answer : {A : Type 0} → A → Result A → A
answer d (ok a) = a
answer d not_found = d
answer d (err e) = d

answered :
    {A : Type 0} (d e : A) (k l : Cluster)
    → ◌≡◌ {A = Cluster × Result A} (k, ok d) (l, ok e)
    → (e ≡ d) × (l ≡ k)
unfolding answer
answered d e k l p = (sym (ap (λ x. answer d x.1) p), sym (ap (λ x. x.0) p))

claim_answered :
    (d e : DeploymentTargetClaim) (t : DeploymentTarget) (l : Cluster)
    → ◌≡◌ {A = Cluster × Result DeploymentTargetClaim} ((d, t), ok d) (l, ok e)
    → (e ≡ d) × (l.0 ≡ e) × (l.1 ≡ t)
claim_answered d e t l p =
    let (same, new) = answered d e (d, t) l p in
    (same, ap (λ x. x.0) new ∙ sym same, ap (λ x. x.1) new)

abbrev server-Faithful : Faithful server
server-Faithful = record {
  claim_at = λ k. k.0;
  target_at = λ k. k.1;
  claim = λ d e k l p. claim_answered (with_status_of k.0 d) e k.1 l p;
  claim_status = λ d e k l p. claim_answered (with_status_of d k.0) e k.1 l p;
  target_status = λ d e k l p.
      let (same, new) = answered (with_target_status d k.1) e (k.0, with_target_status d k.1) l p in
      (same, ap (λ x. x.0) new, ap (λ x. x.1) new ∙ sym same);
}

abbrev claim : DeploymentTargetClaim
claim = record {
  name = "claim";
  namespace = "ns";
  annotations = record {
    bind_completed = none;
    bound_by_controller = none;
    target_provisioner = none;
    other_annotations = [];
  };
  finalizers = [];
  target_name = "";
  deployment_target_class_name = "sandbox";
  phase = pending;
  deletion_timestamp = none;
  conditions = [];
}

abbrev target : DeploymentTarget
target = record {
  name = "target";
  namespace = "ns";
  finalizers = [];
  claim_ref = "";
  deployment_target_class_name = "sandbox";
  has_cluster_credentials = true;
  phase = available;
  deletion_timestamp = none;
  conditions = [];
}

abbrev memory : DeploymentTargetClaim → Memory Cluster
memory dtc = record { cluster = (dtc, target); dtc = dtc; dt = none }

abbrev bound_claim : DeploymentTargetClaim
bound_claim = record claim {
  target_name = "target";
  annotations = record {
    bind_completed = some "true";
    bound_by_controller = none;
    target_provisioner = none;
    other_annotations = [];
  };
}

stays : (handle_bounded_claim server (memory bound_claim)).1 ≡ none
unfolding handle_bounded_claim is_dtc_binding_completed correct_provisioner and_then bound_target
    get_dt_bound_by_dtc check_for_binding_conflict keep_bound update_dtc_status_phase
    update_dt_status_bound store_claim store_target ◌==◌
stays = refl

marks : (handle_dynamic_provisioning server (memory claim)).1 ≡ none
unfolding handle_dynamic_provisioning and_then update_claim_to update_dtc_status_phase store_claim
    ◌==◌
marks = refl
