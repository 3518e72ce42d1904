-- ===== src/ClusterAgent/Applications/Ending.antt =====
-- However the handler of an Application goes: if it ends without an error, all agrees.
use mathlib.Core.Path.{subst}
use managed_gitops.Base.{
  ◌≡◌, refl, sym, Option, none, some, [], String, ◌==◌, eq_iff, Bool-cases, inl, inr, All,
}
use managed_gitops.Base.Client.{Result, ok, not_found, err}
use managed_gitops.Util.ArgoNames.{in_cluster}
use managed_gitops.Util.Operations.{Operation, OperationCr}
use managed_gitops.ClusterAgent.InfoCache.{Application}
use managed_gitops.ClusterAgent.Resources.{
  ArgoApplication, Secret, Handled, Run, done, waiting, replied,
}
use managed_gitops.ClusterAgent.Comparison.{
  empty_application, compared, compare_application, SameSpec, spec_diff_iff,
}
use managed_gitops.ClusterAgent.ClusterSecrets.{Ensured, ensure_managed_environment_exists}
use managed_gitops.ClusterAgent.ClusterSecrets.Upkeep.{
  writes, Reconciled, ensure_managed_environment_exists-Reconciled,
}
use managed_gitops.ClusterAgent.Applications.Writes.{
  app_writes, app_writes-append, writes-append, IsProjectWrite, IsSecretWrite,
  project-IsProjectWrite, ensure-IsSecretWrite, app_writes-project, writes-project,
  app_writes-secret,
}
use managed_gitops.ClusterAgent.Projects.{create_or_update_app_project}
use managed_gitops.ClusterAgent.Applications.{
  Answers, ensured, with_environment, create, object_of, labelled, with_decoded,
  create_application_of, finish, updated, copied, with_difference, with_application, with_project,
  with_row, process_application,
}
use managed_gitops.ClusterAgent.Applications.Placement.{
  IsPlaced, RunPlaced, process_application-RunPlaced,
}
use managed_gitops.ClusterAgent.Applications.Agreement.{
  found, Faithful, Reaches, Agrees, Ends, unwanted, unreadable, created, kept,
}

module _ (a : Answers) (ns : String) (row : Application) (secret : Option Secret)
    (f : Faithful a ns row secret) where
  ensured-Ends :
      (app : ArgoApplication) (o : Option ArgoApplication) (h : Handled) (w : Ensured)
      → All IsSecretWrite w.0
      → (w.1 ≡ none → Reconciled a.secrets row.managed_environment_id secret (writes w.0 secret))
      → ((s : Option Secret)
          → Reaches a ns row secret app s
          → h.error ≡ none
          → Agrees a ns row secret (app_writes h.effects o) (writes h.effects s))
      → Ends a ns row secret o (ensured w h)
  ensured-Ends app o h (es, some e) q r k calm = cc calm
  ensured-Ends app o h (es, none) q r k calm =
      rw
        (
          app_writes-append es h.effects o,
          writes-append es h.effects secret,
          app_writes-secret es o q,
        )
        (k (writes es secret) (inr (r refl)) calm)

  environment-Ends :
      (app : ArgoApplication) (o : Option ArgoApplication) (h : Handled)
      → ((s : Option Secret)
          → Reaches a ns row secret app s
          → h.error ≡ none
          → Agrees a ns row secret (app_writes h.effects o) (writes h.effects s))
      → Ends a ns row secret o (with_environment a ns row app h)
  unfolding with_environment
  environment-Ends app o h k = elim (Bool-cases (app.spec.destination_name == in_cluster)) [
    | inl b ↦
        let local = (eq_iff app.spec.destination_name in_cluster).0 b in
        rw b (λ calm. k secret (inl (local, refl)) calm)
    | inr b ↦
        let id = row.managed_environment_id in
        rw b (
          ensured-Ends app o h (ensure_managed_environment_exists a.secrets ns id)
            (ensure-IsSecretWrite a.secrets ns id)
            (λ calm.
              (ensure_managed_environment_exists-Reconciled a.secrets ns id secret f.secrets
                calm).1)
            k)
  ]

  left_alone :
      (object : ArgoApplication) (r : Result ArgoApplication) (s : Option Secret)
      → a.get_application row.name ns ≡ r
      → a.unmarshal row.spec_field object ≡ none
      → Agrees a ns row secret (found r) s
  left_alone object r s got q =
      subst (λ (x : Result ArgoApplication). Agrees a ns row secret (found x) s) got
        (unreadable object s q)

  replied_error : (o : Option String) → (replied o).effects ≡ []
  replied_error none = refl
  replied_error (some e) = refl

  created-Ends :
      (r : Option ArgoApplication)
      → a.get_application row.name ns ≡ not_found
      → a.unmarshal row.spec_field (object_of a ns row) ≡ r
      → Ends a ns row secret none (with_decoded a ns row r)
  unfolding with_decoded create
  created-Ends none missing q = λ calm. left_alone (object_of a ns row) not_found secret missing q
  created-Ends (some decoded) missing q =
      let app = labelled a ns row decoded in
      environment-Ends app none (create a ns app) (λ s reach calm.
        rw (replied_error (a.create_application app))
          (created decoded app s missing q refl refl reach))

  create-Ends :
      a.get_application row.name ns ≡ not_found
      → Ends a ns row secret none (create_application_of a ns row)
  unfolding create_application_of
  create-Ends missing = elim (Bool-cases (row.managed_environment_id == "")) [
    | inl b ↦ rw b (λ calm. unwanted missing ((eq_iff row.managed_environment_id "").0 b))
    | inr b ↦ rw b (created-Ends (a.unmarshal row.spec_field (object_of a ns row)) missing refl)
  ]

  finish-Ends :
      (app : ArgoApplication) (o : Option ArgoApplication)
      → ((s : Option Secret) → Reaches a ns row secret app s → Agrees a ns row secret o s)
      → Ends a ns row secret o (finish a ns row app)
  unfolding finish
  finish-Ends app o k = environment-Ends app o _ (λ s reach calm. k s reach)

  module _ (old : ArgoApplication) (there : a.get_application row.name ns ≡ ok old) where
    updated-Ends :
        (decoded : ArgoApplication) (r : Result ArgoApplication)
        → a.unmarshal row.spec_field empty_application ≡ some decoded
        → a.update_application (copied a ns old decoded) ≡ r
        → Ends a ns row secret (some (copied a ns old decoded)) (updated a ns row r)
    unfolding updated
    updated-Ends decoded (ok stored) q u =
        let app = copied a ns old decoded in
        let same : SameSpec decoded.spec app.spec = record {
          source = refl;
          destination_name = refl;
          destination = refl;
          project = refl;
          policy = refl;
        } in
        let echo = f.echoed app stored u in
        finish-Ends stored (some app)
          (λ s reach. kept decoded old app s there q same refl (rw echo at reach))
    updated-Ends decoded not_found q u = λ calm. cc calm
    updated-Ends decoded (err e) q u = λ calm. cc calm

    changed-Ends :
        (r : Option ArgoApplication)
        → a.unmarshal row.spec_field empty_application ≡ r
        → Ends a ns row secret (some old) (with_difference a ns row old r)
    unfolding with_difference
    changed-Ends none q = λ calm. left_alone empty_application (ok old) secret there q
    changed-Ends (some decoded) q =
        updated-Ends decoded (a.update_application (copied a ns old decoded)) q refl

    unchanged :
        (r : Option ArgoApplication) (s : Option Secret)
        → a.unmarshal row.spec_field empty_application ≡ r
        → compared old r ≡ ""
        → Reaches a ns row secret old s
        → Agrees a ns row secret (some old) s
    unchanged none s q h reach = left_alone empty_application (ok old) s there q
    unchanged (some decoded) s q h reach =
        kept decoded old old s there q ((spec_diff_iff decoded.spec old.spec).0 h) refl reach

    existing-Ends : Ends a ns row secret (some old) (with_application a ns row (ok old))
    unfolding with_application compare_application
    existing-Ends = elim (Bool-cases (compare_application a.unmarshal old row.spec_field == "")) [
      | inl b ↦ rw b (
          finish-Ends old (some old) (λ s reach.
            unchanged (a.unmarshal row.spec_field empty_application) s refl
              ((eq_iff (compare_application a.unmarshal old row.spec_field) "").0 b) reach))
      | inr b ↦ rw b (changed-Ends (a.unmarshal row.spec_field empty_application) refl)
    ]

  application-Ends :
      (r : Result ArgoApplication)
      → a.get_application row.name ns ≡ r
      → Ends a ns row secret (found r) (with_application a ns row r)
  unfolding with_application
  application-Ends (ok old) q = existing-Ends old q
  application-Ends not_found q = create-Ends q
  application-Ends (err e) q = λ calm. cc calm

  project-Ends :
      (project : Handled) (e : Option String)
      → project.error ≡ e
      → All IsProjectWrite project.effects
      → Ends a ns row secret
          (found (a.get_application row.name ns))
          (with_project a ns row project e)
  unfolding with_project
  project-Ends project (some e) q w = λ calm. cc (q, calm)
  project-Ends project none q w =
      let o = found (a.get_application row.name ns) in
      let rest = with_application a ns row (a.get_application row.name ns) in
      rw
        (
          app_writes-append project.effects rest.effects o,
          writes-append project.effects rest.effects secret,
          app_writes-project project.effects o w,
          writes-project project.effects secret w,
        )
        (application-Ends (a.get_application row.name ns) refl)

-- The same of a handler that may still wait.
abbrev RunEnds : Answers → String → Application → Option Secret → Run → Type 0
RunEnds a ns row secret (done h) = Ends a ns row secret (found (a.get_application row.name ns)) h
RunEnds a ns row secret (waiting es) = Unit {0}

run-RunEnds :
    (a : Answers) (ns : String) (op : Operation) (cr : OperationCr) (row : Application)
    (secret : Option Secret)
    → Faithful a ns row secret
    → a.get_row op.resource_id ≡ ok row
    → RunEnds a ns row secret (process_application a ns op cr)
unfolding process_application with_row
run-RunEnds a ns op cr row secret f there = elim (Bool-cases (op.resource_id == "")) [
  | inl b ↦ rw b (λ calm. cc calm)
  | inr b ↦
      let user = op.operation_owner_user_id in
      let answers = (a.removal op.resource_id).projects in
      let project = create_or_update_app_project answers user ns in
      let ends : RunEnds a ns row secret (with_row a ns op.resource_id user (ok row)) =
        project-Ends a ns row secret f project project.error refl
          (project-IsProjectWrite answers user ns) in
      rw b (
        subst
          (λ (r : Result Application).
            RunEnds a ns row secret (with_row a ns op.resource_id user r))
          (sym there) ends)
]

-- The row of an Operation's Application is there, the server answers with what it has stored, the
-- spec of the row keeps the name and the namespace of the row's Application, and
-- processOperation_Application ends without an error. Then it has written nothing but projects, the
-- Application with the name of the row in Argo CD's namespace, and there the secret with the name
-- of its environment. Afterwards this Application has
-- the spec that the row decodes to, created with the label of the row or kept under its name, and
-- its environment's secret is reconciled with the rows of the environment, unless the destination
-- is the local cluster; or the row has no environment and no Application is made; or the spec of
-- the row cannot be decoded, and the Application is left as it was.
pub process_application-Agrees :
    (a : Answers) (ns : String) (op : Operation) (cr : OperationCr) (row : Application)
    (secret : Option Secret) (h : Handled)
    → Faithful a ns row secret
    → a.get_row op.resource_id ≡ ok row
    → process_application a ns op cr ≡ done h
    → h.error ≡ none
    → All (IsPlaced ns row) h.effects
      × Agrees a ns row secret
          (app_writes h.effects (found (a.get_application row.name ns)))
          (writes h.effects secret)
process_application-Agrees a ns op cr row secret h f there ran calm = (
  subst (RunPlaced ns row) ran (process_application-RunPlaced a ns op cr row secret f there),
  subst (RunEnds a ns row secret) ran (run-RunEnds a ns op cr row secret f there) calm,
)
