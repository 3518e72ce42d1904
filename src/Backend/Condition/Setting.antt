-- ===== src/Backend/Condition/Setting.antt =====
-- What SetCondition of backend/condition/conditions.go changes.
use managed_gitops.Base.{
  ◌≡◌, refl, ap, sym, ◌∙◌, is_some, Option, none, some, List, [], ◌∷◌, ◌||◌, String, ◌==◌, eq_iff,
  eq_refl, if◌then◌else◌, arith,
}
use managed_gitops.Base.Int.{ℤ}
use managed_gitops.Backend.Condition.{
  GitOpsDeploymentCondition, empty_condition, find_condition, has_condition, write_condition,
  write_at, set_condition,
}

-- The condition that a reader finds under a type: the first.
abbrev pub first_of : String → List GitOpsDeploymentCondition → Option GitOpsDeploymentCondition
first_of t [] = none
first_of t (c ∷ cs) = if c.condition_type == t then some c else first_of t cs

abbrev pub or_empty : String → Option GitOpsDeploymentCondition → GitOpsDeploymentCondition
or_empty t none = empty_condition t
or_empty t (some c) = c

written-type :
    (now : ℤ) (t status reason message : String) (c : GitOpsDeploymentCondition)
    → (write_condition now t status reason message c).condition_type ≡ c.condition_type
unfolding write_condition
written-type now t status reason message c = refl

write_at-first :
    (f : GitOpsDeploymentCondition → GitOpsDeploymentCondition) (t u : String)
    (cs : List GitOpsDeploymentCondition)
    → ((c : GitOpsDeploymentCondition) → (f c).condition_type ≡ c.condition_type)
    → let (ds, i, found) = find_condition t cs in
      first_of u (write_at i f ds)
      ≡ (if t == u then some (f (or_empty t (first_of t cs))) else first_of u cs)
unfolding find_condition write_at
write_at-first f t u [] h = ground (arith, h (empty_condition t))
write_at-first f t u (c ∷ cs) h = ground (
  arith,
  h c,
  write_at-first f t u cs h,
  eq_iff c.condition_type t,
  eq_iff c.condition_type u,
  eq_iff t u,
)

-- SetCondition writes the condition that is found under its type, an empty one if there is none,
-- and leaves what is found under every other type as it was.
pub set_condition_first :
    (now : ℤ) (t status reason message u : String) (cs : List GitOpsDeploymentCondition)
    → first_of u (set_condition now t status reason message cs) ≡ (
        if t == u
        then some (write_condition now t status reason message (or_empty t (first_of t cs)))
        else first_of u cs)
unfolding set_condition
set_condition_first now t status reason message u cs =
    write_at-first (write_condition now t status reason message) t u cs
      (written-type now t status reason message)

has_condition-first_of :
    (t : String) (cs : List GitOpsDeploymentCondition)
    → has_condition t cs ≡ is_some (first_of t cs)
unfolding has_condition
has_condition-first_of t [] = refl
has_condition-first_of t (c ∷ cs) = ground (arith, has_condition-first_of t cs)

-- After SetCondition, HasCondition finds the type that was set, and otherwise what it found before.
pub has_condition-set_condition :
    (now : ℤ) (t status reason message u : String) (cs : List GitOpsDeploymentCondition)
    → has_condition u (set_condition now t status reason message cs)
      ≡ ((t == u) || has_condition u cs)
has_condition-set_condition now t status reason message u cs =
    rw
      (
        has_condition-first_of u (set_condition now t status reason message cs),
        has_condition-first_of u cs,
        set_condition_first now t status reason message u cs,
      )
      (ground arith)

found-type :
    (t : String) (cs : List GitOpsDeploymentCondition)
    → (or_empty t (first_of t cs)).condition_type ≡ t
found-type t [] = refl
found-type t (c ∷ cs) = ground (arith, found-type t cs, eq_iff c.condition_type t)

abbrev pub probed : ℤ → Option GitOpsDeploymentCondition → Option GitOpsDeploymentCondition
probed now none = none
probed now (some c) = some (record c { last_probe_time = some now })

write_again :
    (now later : ℤ) (t status reason message : String) (c : GitOpsDeploymentCondition)
    → c.condition_type ≡ t
    → write_condition later t status reason message (write_condition now t status reason message c)
      ≡ record (write_condition now t status reason message c) { last_probe_time = some later }
unfolding write_condition
write_again now later t status reason message c h =
    ground (arith, eq_refl message, eq_refl status, eq_refl reason, eq_iff t c.condition_type)

set_first :
    (now : ℤ) (t status reason message : String) (cs : List GitOpsDeploymentCondition)
    → first_of t (set_condition now t status reason message cs)
      ≡ some (write_condition now t status reason message (or_empty t (first_of t cs)))
set_first now t status reason message cs =
    set_condition_first now t status reason message t cs ∙ rw (eq_refl t) refl

-- Setting a condition again to the status, reason and message that it has just been set to changes
-- its last probe time only: the last transition time stays.
pub set_condition_again :
    (now later : ℤ) (t status reason message : String) (cs : List GitOpsDeploymentCondition)
    → let ds = set_condition now t status reason message cs in
      first_of t (set_condition later t status reason message ds) ≡ probed later (first_of t ds)
set_condition_again now later t status reason message cs =
    let ds = set_condition now t status reason message cs in
    let e = set_first now t status reason message cs in
    set_first later t status reason message ds
    ∙ ap (λ o. some (write_condition later t status reason message (or_empty t o))) e
    ∙ ap some (write_again now later t status reason message _ (found-type t cs))
    ∙ ap (probed later) (sym e)
