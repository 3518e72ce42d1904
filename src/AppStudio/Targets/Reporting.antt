-- ===== src/AppStudio/Targets/Reporting.antt =====
-- How the outcome is reported in the conditions of the target: deploymenttarget_controller.go.
use managed_gitops.Base.{
  ℕ, ◌≡◌, true, false, Option, none, some, List, [], ◌∷◌, ◌++◌, ◌||◌, String, is_some,
  if◌then◌else◌, ◌⊎◌,
}
use managed_gitops.AppStudio.StatusConditions.{
  MetaCondition, create_condition, insert_or_update_conditions_in_slice, find_condition,
  same_content,
}
use managed_gitops.AppStudio.Claims.{Result, ok, not_found, err, DeploymentTarget}
use managed_gitops.AppStudio.Targets.{
  Answers, Write, update_target_status, Outcome, Requeue, no_requeue, error_condition,
  not_found_text,
}
use managed_gitops.AppStudio.Targets.Reconcile.{reconcile_internal}

-- The writes of updateStatusConditionOfDeploymentTarget, and its error.
abbrev pub update_error : Result DeploymentTarget → Option String
update_error (ok dt) = none
update_error not_found = some not_found_text
update_error (err e) = some e

-- By the answer to the Get, whose errors are only logged. metav1.Now() is a parameter.
unfoldable pub update_conditions_of :
    Answers → ℕ → MetaCondition → Result DeploymentTarget → List Write × Option String
update_conditions_of a time c not_found = ([], none)
update_conditions_of a time c (err e) = ([], none)
update_conditions_of a time c (ok dt) =
    let (changed, cs) = insert_or_update_conditions_in_slice time c dt.conditions in
    let dt' = record dt { conditions = cs } in
    if changed
    then (update_target_status dt' ∷ [], update_error (a.update_conditions dt'))
    else ([], none)

unfoldable pub update_status_condition : Answers → ℕ → MetaCondition → List Write × Option String
unfolding update_conditions_of
update_status_condition a time c = update_conditions_of a time c a.get_target_again

-- What Reconcile writes and returns.
pub record Reconciled : Type 0 where
  pub writes : List Write
  pub requeue : Requeue
  pub error : Option String

-- The return of Reconcile, if the status is updated and if it is not.
abbrev pub returned : List Write → Requeue → Option String → List Write × Option String → Reconciled
returned ws r e (vs, none) = record { writes = ws ++ vs; requeue = r; error = e }
returned ws r e (vs, some e') = record { writes = ws ++ vs; requeue = no_requeue; error = some e' }

-- By the condition and the error of reconcileInternal.
unfoldable pub report :
    Answers → ℕ → List Write → Requeue → Option MetaCondition → Option String → Reconciled
unfolding update_status_condition
report a time ws r (some c) e = returned ws no_requeue e (update_status_condition a time c)
report a time ws r none (some e) = returned ws no_requeue (some e) (
    update_status_condition a time
      (error_condition "unexpected internal error occurred in DT controller"))
report a time ws r none none =
    returned ws r none
      (update_status_condition a time (create_condition "ErrorOccurred" "False" "Success" ""))

-- Reconcile
unfoldable pub reconcile : Answers → ℕ → Reconciled
unfolding report
reconcile a time =
    let o = reconcile_internal a in report a time o.writes o.requeue o.condition o.error

-- The condition that tells of an outcome.
abbrev pub condition_for : Option MetaCondition → Option String → MetaCondition
condition_for (some c) e = c
condition_for none (some e) = error_condition "unexpected internal error occurred in DT controller"
condition_for none none = create_condition "ErrorOccurred" "False" "Success" ""

-- The target dt is left with conditions in which c is found under its type, by the writes vs after
-- the writes ws, or since it was so before.
abbrev pub Tells : MetaCondition → DeploymentTarget → List Write → List Write → Type 0
Tells c dt ws vs =
    (cs : List MetaCondition) × (d : MetaCondition) × (find_condition c.type cs ≡ some d)
    × (same_content d c ≡ true)
    × ((vs ≡ ws ++ (update_target_status (record dt { conditions = cs }) ∷ []))
        ⊎ ((vs ≡ ws ++ []) × (cs ≡ dt.conditions)))

-- A reconciliation whose outcome has a condition or an error is not queued again by its result, and
-- an error of reconcileInternal stays an error.
abbrev pub KeepsErrors : Outcome → Reconciled → Type 0
KeepsErrors o r =
    (((is_some o.condition || is_some o.error) ≡ false) ⊎ (r.requeue ≡ no_requeue))
    × ((is_some o.error ≡ false) ⊎ (is_some r.error ≡ true))
