-- ===== src/AppStudio/Targets/Progress.antt =====
-- A deleted target is not forgotten: deploymenttarget_controller.go.
use mathlib.Core.Path.{subst}
use managed_gitops.Base.{
  sym, ℕ, ◌+◌, ltb, ◌≡◌, ◌≢◌, refl, ap, ◌∙◌, true, false, Option, none, some, [], ◌∷◌, ◌&&◌, String,
  ◌==◌, is_some, ◌⊎◌, inl, inr, Bool-cases, arith,
}
use managed_gitops.AppStudio.Claims.{
  Result, ok, not_found, err, DeploymentTarget, target_failed, add_finalizer,
}
use managed_gitops.AppStudio.Targets.{
  finalizer_dt, delete_policy, SpaceRequest, Answers, update_target_status, delete_request, Outcome,
  finished, stored, find_matching_space_request, no_requeue, after_write, is_failed,
}
use managed_gitops.AppStudio.Targets.Reconcile.{
  await_termination, terminate, terminate_at, terminate_for, deleted, with_found, deletion_at,
  take_down, with_request, handle_deletion, check_claim, with_class, check_class,
  add_target_finalizer, reconcile_internal, two_minutes,
}

module _ (a : Answers) (dt : DeploymentTarget) (sr : SpaceRequest) (deleted_at : ℕ)
    (reason : String) (got : a.get_target ≡ ok dt)
    (kept : (add_finalizer finalizer_dt dt.finalizers).0 ≡ false)
    (class : a.get_class dt.deployment_target_class_name ≡ ok delete_policy)
    (gone : dt.deletion_timestamp ≡ some deleted_at)
    (found : find_matching_space_request a dt ≡ ok (some sr))
    (held : (add_finalizer a.space_request_finalizer sr.finalizers).0 ≡ false)
    (ready : a.ready_reason sr ≡ some reason) where
  reconciled : reconcile_internal a ≡ check_class a dt
  unfolding reconcile_internal add_target_finalizer
  reconciled = rw (got, reconcile_internal) (rw kept refl)

  classified : check_class a dt ≡ check_claim a delete_policy dt
  unfolding check_class with_class
  classified = ap (with_class a dt) class

  unchecked : check_claim a delete_policy dt ≡ handle_deletion a delete_policy dt
  unfolding check_claim
  unchecked = ground (arith, gone)

  taken_down : handle_deletion a delete_policy dt ≡ take_down a dt sr
  unfolding handle_deletion deletion_at with_found with_request
  taken_down = ap (deletion_at a delete_policy dt) gone ∙ ap (with_found a delete_policy dt) found

  terminated : take_down a dt sr ≡ terminate_at a dt sr reason sr.deletion_timestamp
  unfolding take_down terminate terminate_for
  terminated = rw held (ap (terminate_for a dt sr) ready)

  goes_on : reconcile_internal a ≡ terminate_at a dt sr reason sr.deletion_timestamp
  goes_on = reconciled ∙ (classified ∙ (unchecked ∙ (taken_down ∙ terminated)))

-- A deleted target with its finalizer, whose policy is Delete, and its SpaceRequest, which has its
-- finalizer and the condition Ready.
pub record IsTakenDown (a : Answers) (dt : DeploymentTarget) (sr : SpaceRequest) : Type 0 where
  pub deleted_at : ℕ
  pub reason : String
  pub got : a.get_target ≡ ok dt
  pub kept : (add_finalizer finalizer_dt dt.finalizers).0 ≡ false
  pub class : a.get_class dt.deployment_target_class_name ≡ ok delete_policy
  pub gone : dt.deletion_timestamp ≡ some deleted_at
  pub found : find_matching_space_request a dt ≡ ok (some sr)
  pub held : (add_finalizer a.space_request_finalizer sr.finalizers).0 ≡ false
  pub ready : a.ready_reason sr ≡ some reason

-- The reconciliation comes again, by its result or by its error; or the target has been reported as
-- failed before, or the server now accepts the status update that reports it, the only write.
abbrev pub ComesAgain : Answers → DeploymentTarget → Outcome → Type 0
ComesAgain a dt o =
    (o.requeue ≢ no_requeue)
    ⊎ ((is_some o.error ≡ true)
        ⊎ ((is_failed dt.phase ≡ true)
            ⊎ ((o.writes ≡ update_target_status (record dt { phase = target_failed }) ∷ [])
                × ((accepted : DeploymentTarget) × (a.update_phase
                        (record dt { phase = target_failed })
                      ≡ ok accepted)))))

awaited :
    (a : Answers) (dt : DeploymentTarget) (since : ℕ) (reason : String)
    → ComesAgain a dt (await_termination a dt since reason)
unfolding await_termination
awaited a dt since reason = elim (Bool-cases (is_failed dt.phase)) [
  | inl b ↦ inr (inr (inl b))
  | inr b ↦
      elim (Bool-cases (ltb (since + two_minutes) a.now && reason == a.terminating_failed_reason)) [
        | inl c ↦
            rw (b, c)
              (elim (reported (a.update_phase (record dt { phase = target_failed })) refl) [
                | inl e ↦ inr (inl e)
                | inr w ↦ inr (inr (inr w))
              ])
        | inr c ↦ inl (rw (b, c) (λ p. cc p))
      ]
]
  where
    reported :
        (r : Result DeploymentTarget)
        → a.update_phase (record dt { phase = target_failed }) ≡ r
        → let w = update_target_status (record dt { phase = target_failed }) in
          let o = stored r (λ e. e) (λ stored_dt. finished no_requeue) in
          (is_some o.error ≡ true)
          ⊎ ((w ∷ o.writes ≡ w ∷ [])
              × ((x : DeploymentTarget) × (a.update_phase (record dt { phase = target_failed })
                    ≡ ok x)))
    reported (ok x) e = inr (refl, (x, e))
    reported not_found e = inl refl
    reported (err x) e = inl refl

-- The controller does not forget a deleted target that keeps its finalizer and whose SpaceRequest
-- is still there: the reconciliation is queued again or ends in an error, or the target had been
-- reported as failed before, or this reconciliation makes that report and the server accepts it. (The policy of its class is Delete, the
-- SpaceRequest has its finalizer and the condition Ready.)
pub reconcile_internal-ComesAgain :
    (a : Answers) (dt : DeploymentTarget) (sr : SpaceRequest)
    → IsTakenDown a dt sr
    → ComesAgain a dt (reconcile_internal a)
unfolding terminate_at
reconcile_internal-ComesAgain a dt sr t =
    subst (ComesAgain a dt)
      (sym
        (goes_on a dt sr t.deleted_at t.reason t.got t.kept t.class t.gone t.found t.held t.ready))
      (at_time sr.deletion_timestamp)
  where
    of_delete : (e : Option String) → ComesAgain a dt (after_write (delete_request sr) (deleted e))
    of_delete none = inl (λ p. cc p)
    of_delete (some e) = inr (inl refl)

    at_time : (s : Option ℕ) → ComesAgain a dt (terminate_at a dt sr t.reason s)
    at_time none = of_delete (a.delete_space_request sr)
    at_time (some since) = awaited a dt since t.reason
