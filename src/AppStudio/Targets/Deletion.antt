-- ===== src/AppStudio/Targets/Deletion.antt =====
-- The writes for a deleted target: deploymenttarget_controller.go.
use managed_gitops.Base.{
  ℕ, ◌+◌, ltb, ◌≡◌, refl, ap, ◌∙◌, Option, none, some, ◌&&◌, String, ◌==◌, eq_iff, ◌⊎◌, inl, inr,
  Bool-cases, arith,
}
use managed_gitops.AppStudio.Claims.{
  Result, ok, not_found, err, DeploymentTarget, target_failed, add_finalizer, remove_finalizer,
}
use managed_gitops.AppStudio.Targets.{
  finalizer_dt, ReclaimPolicy, delete_policy, retain_policy, other_policy, SpaceRequest, Answers,
  Outcome, stored, find_matching_space_request, is_failed,
}
use managed_gitops.AppStudio.Targets.Reconcile.{
  await_termination, terminate, terminate_at, terminate_for, deleted, with_found, deletion_at,
  take_down, release, with_request, handle_deletion, two_minutes,
}
use managed_gitops.AppStudio.Targets.Writes.{
  HasPolicy, IsDeleted, HasNoRequest, IsRequestOf, releases, prepares, deletes, fails, AllAllowed,
}

pub stored-All :
    (a : Answers) {A : Type 0} (r : Result A) (words : String → String) (next : A → Outcome)
    → ((x : A) → r ≡ ok x → AllAllowed a (next x))
    → AllAllowed a (stored r words next)
stored-All a (ok x) words next h = h x refl
stored-All a not_found words next h = tt
stored-All a (err e) words next h = tt

await-Allowed :
    (a : Answers) (dt : DeploymentTarget) (sr : SpaceRequest) (since : ℕ) (reason : String)
    → IsDeleted dt
    → HasPolicy a dt delete_policy
    → IsRequestOf a dt sr
    → sr.deletion_timestamp ≡ some since
    → a.ready_reason sr ≡ some reason
    → AllAllowed a (await_termination a dt since reason)
unfolding await_termination
await-Allowed a dt sr since reason d p q s r = elim (Bool-cases (is_failed dt.phase)) [
  | inl b ↦ rw b tt
  | inr b ↦
      elim (Bool-cases (ltb (since + two_minutes) a.now && reason == a.terminating_failed_reason)) [
        | inl c ↦
            rw (b, c)
              (
                fails dt sr since d p q s (ground (arith, c)) (
                    r
                    ∙ ap some ((eq_iff reason a.terminating_failed_reason).0 (ground (arith, c)))),
                stored-All a (a.update_phase (record dt { phase = target_failed })) _ _ (λ x e. tt),
              )
        | inr c ↦ rw (b, c) tt
      ]
]

terminate-Allowed :
    (a : Answers) (dt : DeploymentTarget) (sr : SpaceRequest)
    → IsDeleted dt
    → HasPolicy a dt delete_policy
    → IsRequestOf a dt sr
    → AllAllowed a (terminate a dt sr)
unfolding terminate terminate_for terminate_at
terminate-Allowed a dt sr d p q = for_reason (a.ready_reason sr) refl
  where
    of_delete : (e : Option String) → AllAllowed a (deleted e)
    of_delete none = tt
    of_delete (some e) = tt

    at_time :
        (reason : String) (t : Option ℕ)
        → a.ready_reason sr ≡ some reason
        → sr.deletion_timestamp ≡ t
        → AllAllowed a (terminate_at a dt sr reason t)
    at_time reason none r s = (deletes dt sr d p q s, of_delete (a.delete_space_request sr))
    at_time reason (some since) r s = await-Allowed a dt sr since reason d p q s r

    for_reason :
        (r : Option String) → a.ready_reason sr ≡ r → AllAllowed a (terminate_for a dt sr r)
    for_reason none r = tt
    for_reason (some reason) r = at_time reason sr.deletion_timestamp r refl

take_down-Allowed :
    (a : Answers) (dt : DeploymentTarget) (sr : SpaceRequest)
    → IsDeleted dt
    → HasPolicy a dt delete_policy
    → find_matching_space_request a dt ≡ ok (some sr)
    → AllAllowed a (take_down a dt sr)
unfolding take_down
take_down-Allowed a dt sr d p q =
    elim (Bool-cases (add_finalizer a.space_request_finalizer sr.finalizers).0) [
      | inl b ↦ rw b (
        prepares dt sr d p q,
        stored-All a (a.update_space_request _) _ _
            (λ x e. terminate-Allowed a dt x d p (sr, q, inr e)),
      )
      | inr b ↦ rw b (terminate-Allowed a dt sr d p (sr, q, inl refl))
    ]

release-Allowed :
    (a : Answers) (dt : DeploymentTarget) (policy : ReclaimPolicy)
    → IsDeleted dt
    → HasPolicy a dt policy
    → HasNoRequest a dt ⊎ (policy ≡ retain_policy)
    → AllAllowed a (release a dt)
unfolding release
release-Allowed a dt policy d p n =
    elim (Bool-cases (remove_finalizer finalizer_dt dt.finalizers).0) [
      | inl b ↦
          rw b
            (releases dt policy d p n, stored-All a (a.update_finalizer_removed _) _ _ (λ x e. tt))
      | inr b ↦ rw b tt
    ]

with_found-Allowed :
    (a : Answers) (policy : ReclaimPolicy) (dt : DeploymentTarget)
    (r : Result (Option SpaceRequest))
    → IsDeleted dt
    → HasPolicy a dt policy
    → find_matching_space_request a dt ≡ r
    → AllAllowed a (with_found a policy dt r)
unfolding with_found with_request
with_found-Allowed a policy dt (err e) d p q = tt
with_found-Allowed a policy dt not_found d p q = release-Allowed a dt policy d p (inl (inr q))
with_found-Allowed a policy dt (ok none) d p q = release-Allowed a dt policy d p (inl (inl q))
with_found-Allowed a delete_policy dt (ok (some sr)) d p q = take_down-Allowed a dt sr d p q
with_found-Allowed a retain_policy dt (ok (some sr)) d p q =
    release-Allowed a dt retain_policy d p (inr refl)
with_found-Allowed a (other_policy x) dt (ok (some sr)) d p q = tt

pub handle_deletion-Allowed :
    (a : Answers) (policy : ReclaimPolicy) (dt : DeploymentTarget)
    → HasPolicy a dt policy
    → AllAllowed a (handle_deletion a policy dt)
unfolding handle_deletion deletion_at
handle_deletion-Allowed a policy dt p = at_time dt.deletion_timestamp refl
  where
    at_time : (t : Option ℕ) → dt.deletion_timestamp ≡ t → AllAllowed a (deletion_at a policy dt t)
    at_time none e = tt
    at_time (some since) e =
        with_found-Allowed a policy dt (find_matching_space_request a dt) (since, e) p refl
