-- ===== src/ClusterAgent/Resources.antt =====
-- What the cluster agent reads and writes beside Argo CD: Applications, AppProjects and secrets,
-- with the fields that the modelled code reads or sets, and the rows of the database that describe
-- them.
use managed_gitops.Base.{ℕ, Bool, true, false, Option, none, some, List, [], ◌∷◌, ◌++◌, String}
use managed_gitops.Base.Map.{Map}

-- ApplicationDestination
pub record Destination : Type 0 where
  pub server : String
  pub name : String
  pub namespace : String

-- SyncOptions, which may be nil, and the other fields of the policy as one text.
pub record SyncPolicy : Type 0 where
  pub sync_options : Option (List String)
  pub automated : String

-- The parts of an Application's spec that are copied: the source, the project and what the
-- destination has beside its name are opaque texts.
pub record ApplicationSpec : Type 0 where
  pub destination_name : String
  pub destination : String
  pub source : String
  pub project : String
  pub sync_policy : Option SyncPolicy

pub record ArgoApplication : Type 0 where
  pub name : String
  pub namespace : String
  pub finalizers : List String
  pub deletion_timestamp : Option ℕ
  -- the label databaseID
  pub database_id : Option String
  pub spec : ApplicationSpec

pub record AppProject : Type 0 where
  pub name : String
  pub namespace : String
  pub username : Option String
  pub source_repos : List String
  pub destinations : List Destination

pub record Secret : Type 0 where
  pub name : String
  pub namespace : String
  pub labels : Map String
  pub annotations : Map String
  -- Data, which may be a nil map
  pub values : Option (Map String)

-- The calls that write.
pub data Effect : Type 0 where
  create_application update_application delete_application : ArgoApplication → Effect
  create_project update_project delete_project : AppProject → Effect
  create_secret update_secret delete_secret : Secret → Effect
  -- name and namespace of the Application, and the revision
  refresh_application terminate_sync : String → String → Effect
  sync_application : String → String → String → Effect
  -- ReconcileNamespaceScopedArgoCD, by the namespace
  reconcile_argocd : String → Effect

-- What a handler of an Operation does, and what it returns, or whether it panics after its effects.
pub record Handled : Type 0 where
  pub effects : List Effect
  pub retry : Bool
  pub error : Option String
  pub panicked : Bool

abbrev pub answered : Bool → Option String → Handled
answered retry error = record { effects = []; retry = retry; error = error; panicked = false }

abbrev pub after_effect : Effect → Handled → Handled
after_effect e h = record h { effects = e ∷ h.effects }

abbrev pub after_effects : List Effect → Handled → Handled
after_effects es h = record h { effects = es ++ h.effects }

-- The answer to a last call that may fail.
abbrev pub replied : Option String → Handled
replied none = answered false none
replied (some e) = answered true (some e)

-- A handler that has ended, or that still waits after some effects.
pub data Run : Type 0 where
  done : Handled → Run
  waiting : List Effect → Run
