-- ===== src/ClusterAgent/Projects/Grants.antt =====
-- What the AppProject of a user grants: createOrUpdateAppProjectWithValidation.
use mathlib.Core.Path.{subst}
use managed_gitops.Base.{
  ◌≡◌, refl, sym, ap, ◌∙◌, true, Option, none, some, List, [], ◌∷◌, String, Bool-cases, inl, inr,
  arith, ◌↔◌,
}
use managed_gitops.Base.Equality.{Eq, string_eq, IsNodup, SameMembers, covers-SameMembers, contains}
use managed_gitops.Base.Client.{Result, ok, not_found, err}
use managed_gitops.ClusterAgent.Projects.Clusters.{IsReached, destinations_iff}
use managed_gitops.ClusterAgent.Resources.{
  AppProject, Destination, Effect, create_project, update_project,
}
use managed_gitops.ClusterAgent.Projects.{
  Answers, project_name, destination_eq, same_items, app_project_equal, destinations_of, project_of,
  rows_of, with_rows, with_envs, with_repos, build_app_project, with_existing, with_generated,
  create_or_update_app_project,
}

same_items-SameMembers :
    {A : Type 0} ⦃e : Eq A⦄ (existing generated : List A)
    → IsNodup generated
    → same_items existing generated ≡ true
    → SameMembers existing generated
unfolding same_items
same_items-SameMembers existing generated n h =
    covers-SameMembers existing generated (ground (arith, h)) n (ground (arith, h))

-- The project on the cluster after the calls that have succeeded.
abbrev pub on_cluster : Result AppProject → List Effect → Option AppProject
on_cluster (ok p) [] = some p
on_cluster not_found [] = none
on_cluster (err e) [] = none
on_cluster old (create_project p ∷ es) = some p
on_cluster old (update_project p ∷ es) = some p
on_cluster old (e ∷ es) = on_cluster old es

-- A project that grants exactly these repositories and the clusters of these environments.
pub record Grants (repos ids : List String) (o : Option AppProject) : Type 0 where
  pub project : AppProject
  pub there : o ≡ some project
  pub repositories : SameMembers project.source_repos repos
  pub clusters : (d : Destination) → (contains project.destinations d ≡ true) ↔ IsReached ids d

same_clusters :
    (ds : List Destination) (ids : List String)
    → SameMembers ds (destinations_of ids)
    → (d : Destination) → (contains ds d ≡ true) ↔ IsReached ids d
same_clusters ds ids same d =
    let (to, from) = destinations_iff ids d in (λ h. to (sym (same d) ∙ h), λ r. same d ∙ from r)

equal_parts :
    (old new : AppProject)
    → app_project_equal old new ≡ true
    → (same_items old.source_repos new.source_repos ≡ true)
      × (same_items old.destinations new.destinations ≡ true)
unfolding app_project_equal
equal_parts old new h = (ground (arith, h), ground (arith, h))

module _ (a : Answers) (user ns : String) (repos ids : List String) (once : IsNodup repos)
    (once_each : IsNodup (destinations_of ids)) where
  abbrev generated : AppProject
  generated = project_of user ns repos (destinations_of ids)

  with_existing-Grants :
      (r : Result AppProject)
      → (with_existing a generated r).error ≡ none
      → Grants repos ids (on_cluster r (with_existing a generated r).effects)
  unfolding with_existing
  with_existing-Grants (err e) h = cc h
  with_existing-Grants not_found h = record {
    project = generated;
    there = refl;
    repositories = λ x. refl;
    clusters = destinations_iff ids;
  }
  with_existing-Grants (ok old) h = elim (Bool-cases (app_project_equal old generated)) [
    | inl b ↦
        let q = equal_parts old generated b in
        rw b (record {
          project = old;
          there = refl;
          repositories = same_items-SameMembers old.source_repos repos once q.0;
          clusters =
              same_clusters old.destinations ids
                (same_items-SameMembers old.destinations (destinations_of ids) once_each q.1);
        })
    | inr b ↦ rw b (record {
      project = record old { source_repos = repos; destinations = destinations_of ids };
      there = refl;
      repositories = λ x. refl;
      clusters = destinations_iff ids;
    })
  ]

built :
    (a : Answers) (user ns : String) (repos envs ids : List String)
    → a.list_repositories user ≡ ok repos
    → a.list_managed_envs user ≡ ok envs
    → rows_of a envs ≡ ok ids
    → build_app_project a user ns ≡ ok (project_of user ns repos (destinations_of ids))
unfolding build_app_project with_repos with_envs with_rows
built a user ns repos envs ids r e i =
    ap (with_repos a user ns) r ∙ ap (with_envs a user ns repos) e ∙ ap (with_rows user ns repos) i

-- If the rows of a user name no repository and no cluster twice, and the project of the user is
-- reconciled without an error, then the project on the cluster (the one that was created, updated
-- or found equal) grants exactly the repositories of the rows, and exactly every namespace of the
-- local cluster and of the clusters of their environments. So a repository or cluster whose row is
-- gone is no longer granted.
pub create_or_update_app_project-Grants :
    (a : Answers) (user ns : String) (repos envs ids : List String)
    → a.list_repositories user ≡ ok repos
    → a.list_managed_envs user ≡ ok envs
    → rows_of a envs ≡ ok ids
    → IsNodup repos
    → IsNodup (destinations_of ids)
    → (create_or_update_app_project a user ns).error ≡ none
    → Grants repos ids (
        on_cluster
          (a.get_project (project_name user) ns)
          (create_or_update_app_project a user ns).effects)
unfolding create_or_update_app_project with_generated
create_or_update_app_project-Grants a user ns repos envs ids r e i once once_each calm =
    subst
      (λ (g : Result AppProject).
        (with_generated a user ns g).error ≡ none
        → Grants repos ids (
            on_cluster (a.get_project (project_name user) ns) (with_generated a user ns g).effects))
      (sym (built a user ns repos envs ids r e i))
      (with_existing-Grants a user ns repos ids once once_each
        (a.get_project (project_name user) ns))
      calm
