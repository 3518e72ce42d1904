-- ===== src/AppStudio/StatusConditions.antt =====
-- The conditions in the status of the environment APIs: insertOrUpdateConditionsInSlice of
-- appstudio-controller/controllers/appstudio.redhat.com/snapshotenvironmentbinding_controller.go.
use managed_gitops.Base.{
  ℕ, ◌≡◌, refl, Bool, true, false, Option, none, some, List, [], ◌∷◌, ◌&&◌, not, String, ◌==◌,
  eq_iff, eq_refl, if◌then◌else◌, arith, is_some,
}

-- metav1.Condition
pub record MetaCondition : Type 0 where
  pub type : String
  pub status : String
  pub reason : String
  pub message : String
  pub last_transition_time : ℕ

-- Message, reason and status are those of the other condition.
abbrev pub same_content : MetaCondition → MetaCondition → Bool
same_content c d = c.message == d.message && (c.reason == d.reason && c.status == d.status)

-- insertOrUpdateConditionsInSlice, whose loop looks for the first condition of the type: whether
-- the conditions have changed, and the conditions.
unfoldable pub insert_or_update_conditions_in_slice :
    ℕ → MetaCondition → List MetaCondition → Bool × List MetaCondition
insert_or_update_conditions_in_slice now c [] = (true, record c { last_transition_time = now } ∷ [])
insert_or_update_conditions_in_slice now c (d ∷ ds) =
    let (changed, rest) = insert_or_update_conditions_in_slice now c ds in
    if d.type == c.type
    then (if same_content d c
        then (false, d ∷ ds)
        else (true, record c { last_transition_time = now } ∷ ds))
    else (changed, d ∷ rest)

-- createCondition
abbrev pub create_condition : String → String → String → String → MetaCondition
create_condition type status reason message = record {
  type = type;
  status = status;
  reason = reason;
  message = message;
  last_transition_time = 0;
}

-- The first condition of a type.
abbrev pub find_condition : String → List MetaCondition → Option MetaCondition
find_condition t [] = none
find_condition t (d ∷ ds) = if d.type == t then some d else find_condition t ds

-- The condition that was there for the type of c, if it has the content of c.
abbrev pub unless_same : MetaCondition → Option MetaCondition → Option MetaCondition
unless_same c none = none
unless_same c (some d) = if same_content d c then some d else none

abbrev pub or_new : ℕ → MetaCondition → Option MetaCondition → MetaCondition
or_new now c none = record c { last_transition_time = now }
or_new now c (some d) = d

-- Under the type of the new condition stands, afterwards, the condition that was found there if
-- its content is that of the new one, and the new one with the time of the call if not; under
-- every other type stands what stood there. The conditions are reported as changed exactly in the
-- latter case.
pub insert_or_update_found :
    (now : ℕ) (c : MetaCondition) (t : String) (ds : List MetaCondition)
    → let (changed, es) = insert_or_update_conditions_in_slice now c ds in
      let kept = unless_same c (find_condition c.type ds) in
      (find_condition t es
        ≡ (if c.type == t then some (or_new now c kept) else find_condition t ds))
      × (changed ≡ not (is_some kept))
unfolding insert_or_update_conditions_in_slice
insert_or_update_found now c t [] = (refl, refl)
insert_or_update_found now c t (d ∷ ds) = ground (
  arith,
  insert_or_update_found now c t ds,
  eq_iff d.type c.type,
  eq_iff d.type t,
  eq_iff c.type t,
)

-- Conditions that are not reported as changed are as they were.
pub insert_or_update_unchanged :
    (now : ℕ) (c : MetaCondition) (ds : List MetaCondition)
    → (insert_or_update_conditions_in_slice now c ds).0 ≡ false
    → (insert_or_update_conditions_in_slice now c ds).1 ≡ ds
unfolding insert_or_update_conditions_in_slice
insert_or_update_unchanged now c [] h = cc h
insert_or_update_unchanged now c (d ∷ ds) h = ground (arith, insert_or_update_unchanged now c ds)

pub or_new-same :
    (now : ℕ) (c : MetaCondition) (o : Option MetaCondition)
    → same_content (or_new now c (unless_same c o)) c ≡ true
or_new-same now c none = ground (arith, eq_refl c.message, eq_refl c.reason, eq_refl c.status)
or_new-same now c (some d) = ground (arith, eq_refl c.message, eq_refl c.reason, eq_refl c.status)
