-- ===== src/Backend/Condition/Tests.antt =====
-- Runs of backend/condition/conditions.go.
use managed_gitops.Base.{◌≡◌, refl, none, List, [], ◌∷◌, ◌==◌}
use managed_gitops.Base.Int.{pos}
use managed_gitops.Backend.Condition.{
  GitOpsDeploymentCondition, empty_condition, find_condition, write_condition,
}

abbrev synced : List GitOpsDeploymentCondition
synced = record (empty_condition "SyncError") { message = "ok"; status = "False" } ∷ []

appended : (find_condition "ErrorOccurred" synced).1 ≡ 1
unfolding find_condition ◌==◌
appended = refl

same_values_keep_the_time :
    (write_condition (pos 5) "SyncError" "False" "" "ok" (record (empty_condition "SyncError") {
      message = "ok";
      status = "False";
    })).last_transition_time
    ≡ none
unfolding write_condition ◌==◌
same_values_keep_the_time = refl
