-- ===== src/Backend/Condition.antt =====
-- backend/condition/conditions.go: the conditions of a GitOpsDeployment's status.
pub mod Setting
mod Tests
use managed_gitops.Base.{
  ℕ, zero, suc, Bool, true, false, Option, none, some, List, [], ◌∷◌, ◌++◌, ◌&&◌, ◌||◌, not, String,
  ◌==◌, length, if◌then◌else◌,
}
use managed_gitops.Base.Int.{ℤ}

-- A time is `none` where the Go value is the zero time, or a nil pointer to a time.
pub record GitOpsDeploymentCondition : Type 0 where
  pub condition_type : String
  pub last_probe_time : Option ℤ
  pub last_transition_time : Option ℤ
  pub message : String
  pub reason : String
  pub status : String

abbrev pub empty_condition : String → GitOpsDeploymentCondition
empty_condition t = record {
  condition_type = t;
  last_probe_time = none;
  last_transition_time = none;
  message = "";
  reason = "";
  status = "";
}

-- FindCondition: the conditions after it, the index that its pointer points to, and whether a
-- condition of the type was there before.
unfoldable pub find_condition :
    String → List GitOpsDeploymentCondition → List GitOpsDeploymentCondition × ℕ × Bool
find_condition t [] = (empty_condition t ∷ [], 0, false)
find_condition t (c ∷ cs) =
    let (ds, i, found) = find_condition t cs in
    if c.condition_type == t then (c ∷ cs, 0, true) else (c ∷ ds, suc i, found)

unfoldable pub has_condition : String → List GitOpsDeploymentCondition → Bool
has_condition t [] = false
has_condition t (c ∷ cs) = if c.condition_type == t then true else has_condition t cs

-- The writes through the pointer.
unfoldable pub write_condition :
    ℤ → String → String → String → String → GitOpsDeploymentCondition → GitOpsDeploymentCondition
write_condition now t status reason message c =
    let changed =
      not (message == c.message)
      || not (status == c.status)
      || not (reason == c.reason)
      || not (t == c.condition_type) in
    record c {
      last_transition_time = if changed then some now else c.last_transition_time;
      message = message;
      last_probe_time = some now;
      reason = reason;
      status = status;
    }

unfoldable pub write_at :
    ℕ
    → (GitOpsDeploymentCondition → GitOpsDeploymentCondition)
    → List GitOpsDeploymentCondition
    → List GitOpsDeploymentCondition
write_at i f [] = []
write_at zero f (c ∷ cs) = f c ∷ cs
write_at (suc i) f (c ∷ cs) = c ∷ write_at i f cs

unfoldable pub set_condition :
    ℤ
    → String
    → String
    → String
    → String
    → List GitOpsDeploymentCondition
    → List GitOpsDeploymentCondition
unfolding find_condition write_at write_condition
set_condition now t status reason message cs =
    let (ds, i, found) = find_condition t cs in
    write_at i (write_condition now t status reason message) ds
