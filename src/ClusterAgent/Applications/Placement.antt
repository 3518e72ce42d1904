-- ===== src/ClusterAgent/Applications/Placement.antt =====
-- Which Application and which secret are written for a row.
use mathlib.Core.Path.{subst}
use managed_gitops.Base.{
  ◌≡◌, refl, sym, Option, none, some, List, [], ◌∷◌, String, ◌==◌, Bool-cases, ◌⊎◌, inl, inr, All,
  All-append,
}
use managed_gitops.Base.Client.{Result, ok, not_found, err}
use managed_gitops.Util.ArgoNames.{cluster_secret_name, in_cluster}
use managed_gitops.Util.Operations.{Operation, OperationCr}
use managed_gitops.ClusterAgent.InfoCache.{Application}
use managed_gitops.ClusterAgent.Resources.{
  ArgoApplication, Secret, Effect, Handled, Run, done, waiting, replied,
}
use managed_gitops.ClusterAgent.Comparison.{empty_application, compare_application}
use managed_gitops.ClusterAgent.ClusterSecrets.{Ensured, ensure_managed_environment_exists}
use managed_gitops.ClusterAgent.ClusterSecrets.Placement.{IsAt, ensure-IsAt}
use managed_gitops.ClusterAgent.Projects.{create_or_update_app_project}
use managed_gitops.ClusterAgent.Applications.Writes.{
  IsProjectWrite, IsAppAt, project-IsProjectWrite,
}
use managed_gitops.ClusterAgent.Applications.{
  Answers, ensured, with_environment, create, object_of, labelled, with_decoded,
  create_application_of, finish, updated, copied, with_difference, with_application, with_project,
  with_row, process_application,
}
use managed_gitops.ClusterAgent.Applications.Agreement.{Faithful}

-- A write of a project, of the Application of the row, or of the secret of its environment.
abbrev pub IsPlaced : String → Application → Effect → Type 0
IsPlaced ns row e =
    IsProjectWrite e
    ⊎ (IsAppAt row.name ns e ⊎ IsAt (cluster_secret_name row.managed_environment_id) ns e)

each : {P Q : Effect → Type 0} (es : List Effect) → ((e : Effect) → P e → Q e) → All P es → All Q es
each [] f q = tt
each (e ∷ es) f q = (f e q.0, each es f q.1)

replied_nothing : (o : Option String) → (replied o).effects ≡ []
replied_nothing none = refl
replied_nothing (some e) = refl

module _ (a : Answers) (ns : String) (row : Application) (secret : Option Secret)
    (f : Faithful a ns row secret) where
  abbrev AllPlaced : Handled → Type 0
  AllPlaced h = All (IsPlaced ns row) h.effects

  ensured-AllPlaced :
      (w : Ensured) (h : Handled)
      → All (IsPlaced ns row) w.0
      → AllPlaced h
      → AllPlaced (ensured w h)
  ensured-AllPlaced (es, none) h p q = All-append (IsPlaced ns row) es h.effects p q
  ensured-AllPlaced (es, some e) h p q = All-append (IsPlaced ns row) es [] p tt

  environment-AllPlaced :
      (app : ArgoApplication) (h : Handled)
      → AllPlaced h
      → AllPlaced (with_environment a ns row app h)
  unfolding with_environment
  environment-AllPlaced app h q = elim (Bool-cases (app.spec.destination_name == in_cluster)) [
    | inl b ↦ rw b q
    | inr b ↦
        let w = ensure_managed_environment_exists a.secrets ns row.managed_environment_id in
        rw b (
          ensured-AllPlaced w h
            (each w.0 (λ e p. inr (inr p))
              (ensure-IsAt a.secrets ns row.managed_environment_id secret f.secrets))
            q)
  ]

  decoded-AllPlaced :
      (r : Option ArgoApplication)
      → a.unmarshal row.spec_field (object_of a ns row) ≡ r
      → AllPlaced (with_decoded a ns row r)
  unfolding with_decoded create
  decoded-AllPlaced none q = tt
  decoded-AllPlaced (some decoded) q =
      let app = labelled a ns row decoded in
      let named = f.decoded_named (object_of a ns row) decoded refl refl q in
      environment-AllPlaced app (create a ns app)
        (inr (inl named), rw (replied_nothing (a.create_application app)) tt)

  create-AllPlaced : AllPlaced (create_application_of a ns row)
  unfolding create_application_of
  create-AllPlaced = elim (Bool-cases (row.managed_environment_id == "")) [
    | inl b ↦ rw b tt
    | inr b ↦ rw b (decoded-AllPlaced (a.unmarshal row.spec_field (object_of a ns row)) refl)
  ]

  finish-AllPlaced : (app : ArgoApplication) → AllPlaced (finish a ns row app)
  unfolding finish
  finish-AllPlaced app = environment-AllPlaced app _ tt

  updated-AllPlaced : (r : Result ArgoApplication) → AllPlaced (updated a ns row r)
  unfolding updated
  updated-AllPlaced (ok app) = finish-AllPlaced app
  updated-AllPlaced not_found = tt
  updated-AllPlaced (err e) = tt

  changed-AllPlaced :
      (old : ArgoApplication) (r : Option ArgoApplication)
      → (old.name ≡ row.name) × (old.namespace ≡ ns)
      → AllPlaced (with_difference a ns row old r)
  unfolding with_difference
  changed-AllPlaced old none named = tt
  changed-AllPlaced old (some decoded) named =
      (inr (inl named), updated-AllPlaced (a.update_application (copied a ns old decoded)))

  application-AllPlaced :
      (r : Result ArgoApplication)
      → a.get_application row.name ns ≡ r
      → AllPlaced (with_application a ns row r)
  unfolding with_application
  application-AllPlaced (ok old) q =
      elim (Bool-cases (compare_application a.unmarshal old row.spec_field == "")) [
        | inl b ↦ rw b (finish-AllPlaced old)
        | inr b ↦ rw b (
            changed-AllPlaced old (a.unmarshal row.spec_field empty_application)
              (f.found_named old q))
      ]
  application-AllPlaced not_found q = create-AllPlaced
  application-AllPlaced (err e) q = tt

  project-AllPlaced :
      (project : Handled) (e : Option String)
      → All IsProjectWrite project.effects
      → AllPlaced (with_project a ns row project e)
  unfolding with_project
  project-AllPlaced project (some e) w = each project.effects (λ x p. inl p) w
  project-AllPlaced project none w =
      let rest = with_application a ns row (a.get_application row.name ns) in
      All-append (IsPlaced ns row) project.effects rest.effects
        (each project.effects (λ x p. inl p) w)
        (application-AllPlaced (a.get_application row.name ns) refl)

-- The same of a handler that may still wait.
abbrev pub RunPlaced : String → Application → Run → Type 0
RunPlaced ns row (done h) = All (IsPlaced ns row) h.effects
RunPlaced ns row (waiting es) = Unit {0}

-- The handler for a row that is there writes nothing else.
pub process_application-RunPlaced :
    (a : Answers) (ns : String) (op : Operation) (cr : OperationCr) (row : Application)
    (secret : Option Secret)
    → Faithful a ns row secret
    → a.get_row op.resource_id ≡ ok row
    → RunPlaced ns row (process_application a ns op cr)
unfolding process_application with_row
process_application-RunPlaced a ns op cr row secret f there =
    elim (Bool-cases (op.resource_id == "")) [
      | inl b ↦ rw b tt
      | inr b ↦
          let user = op.operation_owner_user_id in
          let answers = (a.removal op.resource_id).projects in
          let project = create_or_update_app_project answers user ns in
          let placed : RunPlaced ns row (with_row a ns op.resource_id user (ok row)) =
            project-AllPlaced a ns row secret f project project.error
              (project-IsProjectWrite answers user ns) in
          rw b (
            subst
              (λ (r : Result Application). RunPlaced ns row (with_row a ns op.resource_id user r))
              (sym there) placed)
    ]
