-- ===== src/ClusterAgent/Removals/Order.antt =====
-- What is removed for a row that is gone, and in which order.
use mathlib.Core.Path.{subst}
use managed_gitops.Base.{
  ℕ, ◌+◌, ◌<◌, ◌≡◌, refl, sym, ap, ◌∙◌, false, Option, none, some, List, [], ◌∷◌, ◌++◌, String, eqb,
  Bool-cases, inl, inr, arith,
}
use managed_gitops.Base.Client.{Result, ok, not_found, err}
use managed_gitops.ClusterAgent.Resources.{
  ArgoApplication, AppProject, Effect, delete_project, Handled, answered, after_effects, replied,
  Run, done, waiting, after_effect,
}
use managed_gitops.ClusterAgent.Deletions
use managed_gitops.ClusterAgent.Deletions.{
  Outcome, finished, still_waiting, delete_argocd_application,
}
use managed_gitops.ClusterAgent.Projects.{project_name, create_or_update_app_project}
use managed_gitops.ClusterAgent.Removals.{
  Answers, application_label, first_error, go_on, delete_all, remove_project, after_counts,
  with_repositories, all_deleted, after_deletions, with_listed, with_label,
  delete_applications_of_deleted_row,
}

-- Each Application is deleted without an error, with these effects in their order.
pub data Deleted (a : Answers) : List ArgoApplication → List Effect → Type 0 where
  none_left : Deleted a [] []
  one_more :
      {apps : List ArgoApplication} {fs : List Effect} (app : ArgoApplication) (es : List Effect)
      → delete_argocd_application (a.deletion app) ≡ finished es none
      → Deleted a apps fs
      → Deleted a (app ∷ apps) (es ++ fs)

-- The AppProject of the user, after the deletions.
pub data Cleaned (a : Answers) (user ns : String) (m n : ℕ) : Handled → Type 0 where
  brought_up_to_date :
      0 < m + n → Cleaned a user ns m n (create_or_update_app_project a.projects user ns)
  absent :
      m + n ≡ 0
      → a.projects.get_project (project_name user) ns ≡ not_found
      → Cleaned a user ns m n (answered false none)
  removed :
      (p : AppProject)
      → m + n ≡ 0
      → a.projects.get_project (project_name user) ns ≡ ok p
      → a.delete_project p ≡ none
      → Cleaned a user ns m n (record {
        effects = delete_project p ∷ [];
        retry = false;
        error = none;
        panicked = false;
      })

prepended :
    (es fs : List Effect) (o : Outcome)
    → Deletions.after_effects es o ≡ finished fs none
    → (gs : List Effect) × (o ≡ finished gs none) × (fs ≡ es ++ gs)
prepended es fs (still_waiting gs) h = cc h
prepended es fs (finished gs e) h =
    let q : e ≡ none = cc h in let r : fs ≡ es ++ gs = cc h in (gs, rw q refl, r)

first_none : (first e : Option String) → first_error first e ≡ none → (first ≡ none) × (e ≡ none)
first_none none e h = (refl, h)
first_none (some x) e h = cc h

delete_all-Deleted :
    (a : Answers) (apps : List ArgoApplication) (first : Option String) (es : List Effect)
    → delete_all a apps first ≡ finished es none
    → (first ≡ none) × Deleted a apps es
unfolding delete_all
delete_all-Deleted a [] first es h =
    let q : first ≡ none = cc h in let r : [] ≡ es = cc h in (q, subst (Deleted a []) r none_left)
delete_all-Deleted a (app ∷ apps) first es h =
    by_outcome (λ e gs. delete_all-Deleted a apps e gs) (delete_argocd_application (a.deletion app))
      refl h
  where
    by_outcome :
        ((e : Option String) (gs : List Effect)
          → delete_all a apps e ≡ finished gs none
          → (e ≡ none) × Deleted a apps gs)
        → (o : Outcome) → delete_argocd_application (a.deletion app) ≡ o
        → go_on o (λ e. delete_all a apps (first_error first e)) ≡ finished es none
        → (first ≡ none) × Deleted a (app ∷ apps) es
    by_outcome ih (still_waiting fs) q k = cc k
    by_outcome ih (finished fs e) q k =
        let (gs, rest, split) = prepended fs es (delete_all a apps (first_error first e)) k in
        let (calm, deleted) = ih (first_error first e) gs rest in
        let (calm', calm'') = first_none first e calm in
        (
          calm',
          subst (Deleted a (app ∷ apps)) (sym split)
              (one_more app fs (q ∙ ap (finished fs) calm'') deleted),
        )

module _ (a : Answers) (user ns : String) where
  project_gone :
      (m n : ℕ) (r : Result AppProject)
      → m + n ≡ 0
      → a.projects.get_project (project_name user) ns ≡ r
      → (remove_project a user ns r).error ≡ none
      → Cleaned a user ns m n (remove_project a user ns r)
  project_gone m n not_found z q calm = absent z q
  project_gone m n (err e) z q calm = cc calm
  project_gone m n (ok p) z q calm = answer (a.delete_project p) refl calm
    where
      answer :
          (o : Option String)
          → a.delete_project p ≡ o
          → (after_effect (delete_project p) (replied o)).error ≡ none
          → Cleaned a user ns m n (after_effect (delete_project p) (replied o))
      answer none d calm = removed p z q d
      answer (some e) d calm = cc calm

  -- The counts, and what is done by them.
  pub record Counted (h : Handled) : Type 0 where
    pub repositories : ℕ
    pub environments : ℕ
    pub repositories_read : a.count_repositories user ≡ ok repositories
    pub environments_read : a.count_managed_envs user ≡ ok environments
    pub cleaned : Cleaned a user ns repositories environments h

  counts-Counted :
      (m : ℕ) (r : Result ℕ)
      → a.count_repositories user ≡ ok m
      → a.count_managed_envs user ≡ r
      → (after_counts a user ns m r).error ≡ none
      → Counted (after_counts a user ns m r)
  unfolding after_counts
  counts-Counted m not_found p q = λ calm. cc calm
  counts-Counted m (err e) p q = λ calm. cc calm
  counts-Counted m (ok n) p q = elim (Bool-cases (eqb (m + n) 0)) [
    | inl b ↦
        let z : m + n ≡ 0 = ground (arith, b) in
        rw b (λ calm. record {
          repositories = m;
          environments = n;
          repositories_read = p;
          environments_read = q;
          cleaned = project_gone m n (a.projects.get_project (project_name user) ns) z refl calm;
        })
    | inr b ↦
        let z : 0 < m + n = ground (arith, b) in
        rw b (λ calm. record {
          repositories = m;
          environments = n;
          repositories_read = p;
          environments_read = q;
          cleaned = brought_up_to_date z;
        })
  ]

  repositories-Counted :
      (r : Result ℕ)
      → a.count_repositories user ≡ r
      → (with_repositories a user ns r).error ≡ none
      → Counted (with_repositories a user ns r)
  unfolding with_repositories
  repositories-Counted not_found p = λ calm. cc calm
  repositories-Counted (err e) p = λ calm. cc calm
  repositories-Counted (ok m) p = counts-Counted m (a.count_managed_envs user) p refl

  -- A call that has ended without an error.
  pub record RowCleaned (id : String) (h : Handled) : Type 0 where
    pub apps : List ArgoApplication
    pub deletions : List Effect
    pub rest : Handled
    pub listed : a.list_applications ns application_label id ≡ ok apps
    pub deleted : Deleted a apps deletions
    pub counted : Counted rest
    pub in_order : h ≡ after_effects deletions rest

  -- The same of a call that may still wait.
  abbrev RunCleans : String → Run → Type 0
  RunCleans id (done h) = h.error ≡ none → RowCleaned id h
  RunCleans id (waiting es) = Unit {0}

  deletions-RunCleans :
      (id : String) (apps : List ArgoApplication) (o : Outcome)
      → a.list_applications ns application_label id ≡ ok apps
      → delete_all a apps none ≡ o
      → RunCleans id (after_deletions a user ns o)
  unfolding after_deletions all_deleted
  deletions-RunCleans id apps (still_waiting es) l q = tt
  deletions-RunCleans id apps (finished es (some e)) l q = λ calm. cc calm
  deletions-RunCleans id apps (finished es none) l q = λ calm. record {
    apps = apps;
    deletions = es;
    rest = with_repositories a user ns (a.count_repositories user);
    listed = l;
    deleted = (delete_all-Deleted a apps none es q).1;
    counted = repositories-Counted (a.count_repositories user) refl calm;
    in_order = refl;
  }

  listed-RunCleans :
      (id : String) (r : Result (List ArgoApplication))
      → a.list_applications ns application_label id ≡ r
      → RunCleans id (with_listed a user ns r)
  unfolding with_listed
  listed-RunCleans id (ok apps) q = deletions-RunCleans id apps (delete_all a apps none) q refl
  listed-RunCleans id not_found q = λ calm. cc calm
  listed-RunCleans id (err e) q = λ calm. cc calm

  label-RunCleans : (id : String) (o : Option String) → RunCleans id (with_label a user ns id o)
  unfolding with_label
  label-RunCleans id none = listed-RunCleans id (a.list_applications ns application_label id) refl
  label-RunCleans id (some e) = λ calm. cc calm

-- If the removal for a row that is gone ends without an error, then the server has listed
-- the Applications in the namespace whose label databaseID has the id of the row, and
-- DeleteArgoCDApplication has ended without an error for every one of them, one after the other; and after that the project of
-- the user was deleted, or is not there, if no repository and no environment is left for the user,
-- and was brought up to date otherwise.
pub delete_applications_of_deleted_row-RowCleaned :
    (a : Answers) (user ns id : String) (h : Handled)
    → delete_applications_of_deleted_row a user ns id ≡ done h
    → h.error ≡ none
    → RowCleaned a user ns id h
unfolding delete_applications_of_deleted_row
delete_applications_of_deleted_row-RowCleaned a user ns id h ran calm =
    subst (RunCleans a user ns id) ran
      (label-RunCleans a user ns id (a.label_error application_label id)) calm
