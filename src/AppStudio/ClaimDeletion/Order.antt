-- ===== src/AppStudio/ClaimDeletion/Order.antt =====
-- In what order a deleted claim lets go of its target: deploymenttargetclaim_controller.go.
use mathlib.Core.List.{append_assoc, append-nil}
use mathlib.Core.Path.{subst}
use managed_gitops.Base.{
  ◌≡◌, refl, sym, ap, Bool, true, false, Option, none, some, List, [], ◌∷◌, ◌++◌, String,
  if◌then◌else◌, ◌⊎◌, inl, inr, Bool-cases, All, ℕ,
}
use managed_gitops.AppStudio.Claims.{
  Result, ok, not_found, err, DeploymentTarget, DeploymentTargetClaim, released, is_dtc_bound,
  add_finalizer, remove_finalizer,
}
use managed_gitops.AppStudio.Targets.{
  ReclaimPolicy, delete_policy, retain_policy, other_policy, Write, update_target,
  update_target_status, delete_target, update_claim, Outcome, after_write, stored, finalizer_dt,
  finished, no_requeue,
}
use managed_gitops.AppStudio.ClaimDeletion.{
  Answers, stored_or_gone, drop_finalizer, is_released, release_target, unclaim_target, let_go,
  after_delete, by_policy, hold_target, with_class, with_target, bound_target, handle_dtc_deletion,
  deletion_at,
}

abbrev pub is_claim_update : Write → Bool
is_claim_update (update_claim d) = true
is_claim_update _ = false

abbrev pub NoClaimUpdate : List Write → Type 0
NoClaimUpdate ws = All (λ w. is_claim_update w ≡ false) ws

-- The target that was found for the claim, or what the server stored when it got the finalizer.
abbrev pub IsHeld : Answers → DeploymentTargetClaim → DeploymentTarget → Type 0
IsHeld a dtc dt =
    (bound_target a dtc ≡ ok (some dt))
    ⊎ ((old : DeploymentTarget) × (bound_target a dtc ≡ ok (some old))
        × (a.update_finalizer_added
              (record old { finalizers = (add_finalizer finalizer_dt old.finalizers).1 })
            ≡ ok dt))

-- The target t that was got again by the namespace and name of the claim's target lost its claim
-- by the last write of ws, or by the last but one and then the phase Released was stored for it;
-- it needs no such write if the server had answered that it has this phase.
abbrev pub HasReleased : Answers → DeploymentTargetClaim → List Write → Type 0
HasReleased a dtc ws =
    (dt : DeploymentTarget) × (t : DeploymentTarget) × (u : DeploymentTarget) × (earlier : List
      Write)
    × IsHeld a dtc dt
    × (a.get_target_again dt.namespace dt.name ≡ ok t)
    × (a.update_claim_ref_unset (record t { claim_ref = "" }) ≡ ok u)
    × (((is_released u.phase ≡ true)
          × (ws ≡ earlier ++ (update_target (record t { claim_ref = "" }) ∷ [])))
        ⊎ ((stored_dt : DeploymentTarget) × (a.update_phase (record u { phase = released })
              ≡ ok stored_dt)
            × (ws
                ≡ earlier
                  ++ (update_target (record t { claim_ref = "" })
                      ∷ update_target_status (record u { phase = released })
                      ∷ []))))

-- A claim that needs to let go of nothing, or has let go of its target.
abbrev pub IsFree : Answers → DeploymentTargetClaim → List Write → Type 0
IsFree a dtc ws =
    (is_dtc_bound dtc ≡ false)
    ⊎ ((bound_target a dtc ≡ ok none) ⊎ ((bound_target a dtc ≡ not_found) ⊎ HasReleased a dtc ws))

-- The claim without the finalizer of the binder.
abbrev pub without_finalizer : Answers → DeploymentTargetClaim → DeploymentTargetClaim
without_finalizer a dtc = record dtc {
  finalizers = (remove_finalizer a.finalizer_binder dtc.finalizers).1;
}

-- After the writes `before`, the writes ws do not update the claim, or only the last one does, and
-- then the claim is free by the writes before that one.
abbrev pub Ordered : Answers → DeploymentTargetClaim → List Write → List Write → Type 0
Ordered a dtc before ws =
    NoClaimUpdate ws
    ⊎ ((us : List Write) × (ws ≡ us ++ (update_claim (without_finalizer a dtc) ∷ []))
        × NoClaimUpdate us
        × IsFree a dtc (before ++ us))

module _ (a : Answers) (dtc : DeploymentTargetClaim) where
  after_write-Ordered :
      (before : List Write) (w : Write) (o : Outcome)
      → is_claim_update w ≡ false
      → Ordered a dtc (before ++ (w ∷ [])) o.writes
      → Ordered a dtc before (after_write w o).writes
  after_write-Ordered before w o n (inl h) = inl (n, h)
  after_write-Ordered before w o n (inr (us, e, h, free)) = inr (
    w ∷ us,
    ap (λ ws. w ∷ ws) e,
    (n, h),
    subst (IsFree a dtc) (append_assoc before (w ∷ []) us) free,
  )

  stored-Ordered :
      {A : Type 0} (before : List Write) (r : Result A) (words : String → String)
      (next : A → Outcome)
      → ((x : A) → r ≡ ok x → Ordered a dtc before (next x).writes)
      → Ordered a dtc before (stored r words next).writes
  stored-Ordered before (ok x) words next h = h x refl
  stored-Ordered before not_found words next h = inl tt
  stored-Ordered before (err e) words next h = inl tt

  stored_or_gone-Ordered :
      {A : Type 0} (before : List Write) (r : Result A) (words : String → String)
      (next : A → Outcome)
      → ((x : A) → r ≡ ok x → Ordered a dtc before (next x).writes)
      → Ordered a dtc before (stored_or_gone r words next).writes
  stored_or_gone-Ordered before (ok x) words next h = h x refl
  stored_or_gone-Ordered before not_found words next h = inl tt
  stored_or_gone-Ordered before (err e) words next h = inl tt

  drop_finalizer-Ordered :
      (before : List Write)
      → IsFree a dtc before
      → Ordered a dtc before (drop_finalizer a dtc).writes
  unfolding drop_finalizer
  drop_finalizer-Ordered before free =
      elim (Bool-cases (remove_finalizer a.finalizer_binder dtc.finalizers).0) [
        | inl b ↦ rw b (
            inr (
              [],
              ap
                  (λ ws.
                    update_claim (record dtc {
                      finalizers = (remove_finalizer a.finalizer_binder dtc.finalizers).1;
                    })
                    ∷ ws)
                  (nothing _ (a.update_claim _)),
              tt,
              subst (IsFree a dtc) (sym (append-nil before)) free,
            ))
        | inr b ↦ rw b (inl tt)
      ]
    where
      nothing :
          (words : String → String) (r : Result DeploymentTargetClaim)
          → (stored r words (λ d. finished no_requeue)).writes ≡ []
      nothing words (ok x) = refl
      nothing words not_found = refl
      nothing words (err e) = refl

  release_target-Ordered :
      (earlier : List Write) (dt t u : DeploymentTarget)
      → IsHeld a dtc dt
      → a.get_target_again dt.namespace dt.name ≡ ok t
      → a.update_claim_ref_unset (record t { claim_ref = "" }) ≡ ok u
      → let before = earlier ++ (update_target (record t { claim_ref = "" }) ∷ []) in
        Ordered a dtc before (release_target a dtc u).writes
  unfolding release_target
  release_target-Ordered earlier dt t u i g e = elim (Bool-cases (is_released u.phase)) [
    | inl b ↦ rw b (
        drop_finalizer-Ordered (earlier ++ (update_target (record t { claim_ref = "" }) ∷ []))
          (inr (inr (inr (dt, t, u, earlier, i, g, e, inl (b, refl))))))
    | inr b ↦
        let v = update_target (record t { claim_ref = "" }) in
        let w = update_target_status (record u { phase = released }) in
        let before = earlier ++ (v ∷ []) in
        let both = append_assoc earlier (v ∷ []) (w ∷ []) in
        let free : (x : DeploymentTarget)
            → a.update_phase (record u { phase = released }) ≡ ok x
            → IsFree a dtc (before ++ (w ∷ [])) =
          λ x f. inr (inr (inr (dt, t, u, earlier, i, g, e, inr (x, f, both)))) in
        rw b (
          after_write-Ordered before w
            (stored_or_gone (a.update_phase (record u { phase = released })) _
              (λ d. drop_finalizer a dtc))
            refl
            (stored_or_gone-Ordered (before ++ (w ∷ []))
              (a.update_phase (record u { phase = released })) _ (λ d. drop_finalizer a dtc)
              (λ x f. drop_finalizer-Ordered (before ++ (w ∷ [])) (free x f))))
  ]

  let_go-Ordered :
      (before : List Write) (dt : DeploymentTarget)
      → IsHeld a dtc dt
      → Ordered a dtc before (let_go a dtc dt).writes
  unfolding let_go unclaim_target
  let_go-Ordered before dt i =
      stored_or_gone-Ordered before (a.get_target_again dt.namespace dt.name) _
        (unclaim_target a dtc)
        (λ t e.
          let w = update_target (record t { claim_ref = "" }) in
          after_write-Ordered before w
            (stored_or_gone (a.update_claim_ref_unset (record t { claim_ref = "" })) _
              (release_target a dtc))
            refl
            (stored_or_gone-Ordered (before ++ (w ∷ []))
              (a.update_claim_ref_unset (record t { claim_ref = "" })) _ (release_target a dtc)
              (λ u f. release_target-Ordered before dt t u i e f)))

  by_policy-Ordered :
      (before : List Write) (policy : ReclaimPolicy) (dt : DeploymentTarget)
      → IsHeld a dtc dt
      → Ordered a dtc before (by_policy a dtc policy dt).writes
  unfolding by_policy after_delete
  by_policy-Ordered before delete_policy dt i =
      after_write-Ordered before (delete_target dt) (after_delete a dtc dt (a.delete_target dt))
        refl (of_delete (a.delete_target dt))
    where
      of_delete :
          (e : Option String)
          → Ordered a dtc (before ++ (delete_target dt ∷ [])) (after_delete a dtc dt e).writes
      of_delete none = let_go-Ordered (before ++ (delete_target dt ∷ [])) dt i
      of_delete (some e) = inl tt
  by_policy-Ordered before retain_policy dt i = let_go-Ordered before dt i
  by_policy-Ordered before (other_policy p) dt i = let_go-Ordered before dt i

  hold_target-Ordered :
      (policy : ReclaimPolicy) (dt : DeploymentTarget)
      → bound_target a dtc ≡ ok (some dt)
      → Ordered a dtc [] (hold_target a dtc policy dt).writes
  unfolding hold_target
  hold_target-Ordered policy dt q = elim (Bool-cases (add_finalizer finalizer_dt dt.finalizers).0) [
    | inl b ↦
        let dt' = record dt { finalizers = (add_finalizer finalizer_dt dt.finalizers).1 } in
        rw b (
          after_write-Ordered [] (update_target dt')
            (stored (a.update_finalizer_added dt') _ (by_policy a dtc policy)) refl
            (stored-Ordered (update_target dt' ∷ []) (a.update_finalizer_added dt') _
              (by_policy a dtc policy)
              (λ x e. by_policy-Ordered (update_target dt' ∷ []) policy x (inr (dt, q, e)))))
    | inr b ↦ rw b (by_policy-Ordered [] policy dt (inl q))
  ]

  with_target-Ordered :
      (r : Result (Option DeploymentTarget))
      → bound_target a dtc ≡ r
      → Ordered a dtc [] (with_target a dtc r).writes
  unfolding with_target with_class
  with_target-Ordered (ok none) e = drop_finalizer-Ordered [] (inr (inl e))
  with_target-Ordered not_found e = drop_finalizer-Ordered [] (inr (inr (inl e)))
  with_target-Ordered (err x) e = inl tt
  with_target-Ordered (ok (some dt)) e = by_class (a.get_class dt.deployment_target_class_name)
    where
      by_class : (r : Result ReclaimPolicy) → Ordered a dtc [] (with_class a dtc dt r).writes
      by_class (ok policy) = hold_target-Ordered policy dt e
      by_class not_found = inl tt
      by_class (err x) = inl tt

  -- Whatever the API answers to the handling of a deleted claim, the claim is updated at most once,
  -- as the last write, to lose the finalizer of the binder, and only if it is not bound, or no target is found for it, or the writes
  -- just before that one have let go of its target: the target was got again by the namespace and
  -- name of the one that was found for the claim, the server stored it without the reference to
  -- the claim, and the server then stored it with the phase Released, unless it had that phase.
  pub handle_dtc_deletion-Ordered : Ordered a dtc [] (handle_dtc_deletion a dtc).writes
  unfolding handle_dtc_deletion deletion_at
  handle_dtc_deletion-Ordered = at_time dtc.deletion_timestamp
    where
      bound_or_not :
          (b : Bool)
          → is_dtc_bound dtc ≡ b
          → Ordered a dtc []
              (if b then with_target a dtc (bound_target a dtc) else drop_finalizer a dtc).writes
      bound_or_not true e = with_target-Ordered (bound_target a dtc) refl
      bound_or_not false e = drop_finalizer-Ordered [] (inl e)

      at_time : (t : Option ℕ) → Ordered a dtc [] (deletion_at a dtc t).writes
      at_time none = inl tt
      at_time (some since) = bound_or_not (is_dtc_bound dtc) refl
