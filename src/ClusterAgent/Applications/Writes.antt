-- ===== src/ClusterAgent/Applications/Writes.antt =====
-- What the writes of a handler do to an Application, and which writes its parts make.
use managed_gitops.Base.{
  ◌≡◌, refl, ap, ◌∙◌, Option, none, some, List, [], ◌∷◌, ◌++◌, String, ◌==◌, Bool-cases, inl, inr,
  All,
}
use managed_gitops.Base.Client.{Result, ok, not_found, err}
use managed_gitops.ClusterAgent.Resources.{
  ArgoApplication, Secret, AppProject, Effect, create_application, update_application,
  delete_application, create_project, update_project, create_secret, update_secret, delete_secret,
}
use managed_gitops.ClusterAgent.Projects
use managed_gitops.ClusterAgent.Projects.{
  written, with_existing, with_generated, build_app_project, create_or_update_app_project,
  app_project_equal, project_name,
}
use managed_gitops.ClusterAgent.ClusterSecrets
use managed_gitops.ClusterAgent.ClusterSecrets.{
  Expected, expected, to_delete, failed, same_data, with_expected, generate_expected_cluster_secret,
  ensure_managed_environment_exists,
}
use managed_gitops.ClusterAgent.ClusterSecrets.Upkeep.{write, writes}

-- What becomes of an Application when the writes are carried out.
abbrev pub app_write : Effect → Option ArgoApplication → Option ArgoApplication
app_write (create_application app) stored = some app
app_write (update_application app) stored = some app
app_write (delete_application app) stored = none
app_write _ stored = stored

abbrev pub app_writes : List Effect → Option ArgoApplication → Option ArgoApplication
app_writes [] stored = stored
app_writes (e ∷ es) stored = app_writes es (app_write e stored)

pub app_writes-append :
    (es fs : List Effect) (o : Option ArgoApplication)
    → app_writes (es ++ fs) o ≡ app_writes fs (app_writes es o)
app_writes-append [] fs o = refl
app_writes-append (e ∷ es) fs o = app_writes-append es fs (app_write e o)

pub writes-append :
    (es fs : List Effect) (s : Option Secret) → writes (es ++ fs) s ≡ writes fs (writes es s)
writes-append [] fs s = refl
writes-append (e ∷ es) fs s = writes-append es fs (write e s)

abbrev pub IsProjectWrite : Effect → Type 0
IsProjectWrite (create_project p) = Unit {0}
IsProjectWrite (update_project p) = Unit {0}
IsProjectWrite _ = ⊥

-- A write of the Application with this name in this namespace.
abbrev pub IsAppAt : String → String → Effect → Type 0
IsAppAt name ns (create_application app) = (app.name ≡ name) × (app.namespace ≡ ns)
IsAppAt name ns (update_application app) = (app.name ≡ name) × (app.namespace ≡ ns)
IsAppAt name ns _ = ⊥

abbrev pub IsSecretWrite : Effect → Type 0
IsSecretWrite (create_secret s) = Unit {0}
IsSecretWrite (update_secret s) = Unit {0}
IsSecretWrite (delete_secret s) = Unit {0}
IsSecretWrite _ = ⊥

project_write_apart :
    (e : Effect) (o : Option ArgoApplication) (s : Option Secret)
    → IsProjectWrite e
    → (app_write e o ≡ o) × (write e s ≡ s)
project_write_apart (create_project p) o s q = (refl, refl)
project_write_apart (update_project p) o s q = (refl, refl)
project_write_apart _ o s q = absurd q

secret_write_apart : (e : Effect) (o : Option ArgoApplication) → IsSecretWrite e → app_write e o ≡ o
secret_write_apart (create_secret s) o q = refl
secret_write_apart (update_secret s) o q = refl
secret_write_apart (delete_secret s) o q = refl
secret_write_apart _ o q = absurd q

pub app_writes-secret :
    (es : List Effect) (o : Option ArgoApplication) → All IsSecretWrite es → app_writes es o ≡ o
app_writes-secret [] o q = refl
app_writes-secret (e ∷ es) o q =
    ap (app_writes es) (secret_write_apart e o q.0) ∙ app_writes-secret es o q.1

pub app_writes-project :
    (es : List Effect) (o : Option ArgoApplication) → All IsProjectWrite es → app_writes es o ≡ o
app_writes-project [] o q = refl
app_writes-project (e ∷ es) o q =
    ap (app_writes es) (project_write_apart e o none q.0).0 ∙ app_writes-project es o q.1

pub writes-project :
    (es : List Effect) (s : Option Secret) → All IsProjectWrite es → writes es s ≡ s
writes-project [] s q = refl
writes-project (e ∷ es) s q =
    ap (writes es) (project_write_apart e none s q.0).1 ∙ writes-project es s q.1

module _ (a : Projects.Answers) where
  written_quietly : (o : Option String) → (written o).effects ≡ []
  written_quietly none = refl
  written_quietly (some e) = refl

  existing-IsProjectWrite :
      (p : AppProject) (r : Result AppProject) → All IsProjectWrite (with_existing a p r).effects
  unfolding with_existing
  existing-IsProjectWrite p (ok old) = elim (Bool-cases (app_project_equal old p)) [
    | inl b ↦ rw b tt
    | inr b ↦ rw (b, written_quietly) (tt, tt)
  ]
  existing-IsProjectWrite p not_found = rw written_quietly (tt, tt)
  existing-IsProjectWrite p (err e) = tt

  generated-IsProjectWrite :
      (user ns : String) (r : Result AppProject)
      → All IsProjectWrite (with_generated a user ns r).effects
  unfolding with_generated
  generated-IsProjectWrite user ns (ok p) =
      existing-IsProjectWrite p (a.get_project (project_name user) ns)
  generated-IsProjectWrite user ns not_found = tt
  generated-IsProjectWrite user ns (err e) = tt

  pub project-IsProjectWrite :
      (user ns : String) → All IsProjectWrite (create_or_update_app_project a user ns).effects
  unfolding create_or_update_app_project
  project-IsProjectWrite user ns = generated-IsProjectWrite user ns (build_app_project a user ns)

module _ (a : ClusterSecrets.Answers) where
  stored-IsSecretWrite :
      (s : Secret) (r : Result Secret) → All IsSecretWrite (ClusterSecrets.with_existing a s r).0
  unfolding ClusterSecrets.with_existing
  stored-IsSecretWrite s (ok old) = elim (Bool-cases (same_data old.values s.values)) [
    | inl b ↦ rw b tt
    | inr b ↦ rw b (tt, tt)
  ]
  stored-IsSecretWrite s not_found = (tt, tt)
  stored-IsSecretWrite s (err e) = tt

  expected-IsSecretWrite :
      (ns id : String) (e : Expected) → All IsSecretWrite (with_expected a ns id e).0
  unfolding with_expected
  expected-IsSecretWrite ns id (expected s) = elim (Bool-cases (s.name == "")) [
    | inl b ↦ rw b tt
    | inr b ↦ rw b (stored-IsSecretWrite s (a.get_secret s.name s.namespace))
  ]
  expected-IsSecretWrite ns id to_delete = (tt, tt)
  expected-IsSecretWrite ns id (failed e) = tt

  pub ensure-IsSecretWrite :
      (ns id : String) → All IsSecretWrite (ensure_managed_environment_exists a ns id).0
  unfolding ensure_managed_environment_exists
  ensure-IsSecretWrite ns id = elim (Bool-cases (id == "")) [
    | inl b ↦ rw b tt
    | inr b ↦ rw b (expected-IsSecretWrite ns id (generate_expected_cluster_secret a ns id))
  ]
