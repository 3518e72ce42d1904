-- ===== src/ClusterAgent/Applications/Agreement.antt =====
-- The Application, and the secret of its environment, agree with the row.
use managed_gitops.Base.{◌≡◌, Option, none, some, String, ◌⊎◌}
use managed_gitops.Base.Client.{Result, ok, not_found, err}
use managed_gitops.Util.ArgoNames.{in_cluster}
use managed_gitops.ClusterAgent.InfoCache.{Application}
use managed_gitops.ClusterAgent.Resources.{ArgoApplication, Secret, Handled}
use managed_gitops.ClusterAgent.Comparison.{empty_application, SameSpec}
use managed_gitops.ClusterAgent.ClusterSecrets.Placement
use managed_gitops.ClusterAgent.ClusterSecrets.Upkeep.{writes, Reconciled}
use managed_gitops.ClusterAgent.Applications.Writes.{app_writes}
use managed_gitops.ClusterAgent.Applications.{Answers, object_of}

-- What a Get has found.
abbrev pub found : {A : Type 0} → Result A → Option A
found (ok x) = some x
found not_found = none
found (err e) = none

-- The server stores the secret, gives back the spec that an Update is called with, and answers to
-- a Get with an Application of that name and namespace. The stored spec of the row, read into an
-- object of the row's name and namespace, leaves these as they are.
pub record Faithful (a : Answers) (ns : String) (row : Application) (secret : Option Secret)
    : Type 0 where
  pub secrets : Placement.Faithful a.secrets ns row.managed_environment_id secret
  pub echoed :
      (app stored : ArgoApplication) → a.update_application app ≡ ok stored → stored.spec ≡ app.spec
  pub found_named :
      (app : ArgoApplication)
      → a.get_application row.name ns ≡ ok app
      → (app.name ≡ row.name) × (app.namespace ≡ ns)
  pub decoded_named :
      (object decoded : ArgoApplication)
      → object.name ≡ row.name
      → object.namespace ≡ ns
      → a.unmarshal row.spec_field object ≡ some decoded
      → (decoded.name ≡ row.name) × (decoded.namespace ≡ ns)

module _ (a : Answers) (ns : String) (row : Application) (secret : Option Secret) where
  -- The secret that Argo CD needs for the destination of an Application.
  abbrev pub Reaches : ArgoApplication → Option Secret → Type 0
  Reaches app s =
      ((app.spec.destination_name ≡ in_cluster) × (s ≡ secret))
      ⊎ Reconciled a.secrets row.managed_environment_id secret s

  -- The Application and the secret after the handler.
  pub data Agrees : Option ArgoApplication → Option Secret → Type 0 where
    -- no environment, so no Application is made
    unwanted :
        a.get_application row.name ns ≡ not_found
        → row.managed_environment_id ≡ ""
        → Agrees none secret
    -- the spec of the row cannot be decoded, so the Application is left as it is
    unreadable :
        (object : ArgoApplication) (s : Option Secret)
        → a.unmarshal row.spec_field object ≡ none
        → Agrees (found (a.get_application row.name ns)) s
    created :
        (decoded app : ArgoApplication) (s : Option Secret)
        → a.get_application row.name ns ≡ not_found
        → a.unmarshal row.spec_field (object_of a ns row) ≡ some decoded
        → app.spec ≡ decoded.spec
        → app.database_id ≡ some row.application_id
        → Reaches app s
        → Agrees (some app) s
    kept :
        (decoded old app : ArgoApplication) (s : Option Secret)
        → a.get_application row.name ns ≡ ok old
        → a.unmarshal row.spec_field empty_application ≡ some decoded
        → SameSpec decoded.spec app.spec
        → app.name ≡ old.name
        → Reaches app s
        → Agrees (some app) s

  -- A handler that ends without an error leaves them in agreement.
  abbrev pub Ends : Option ArgoApplication → Handled → Type 0
  Ends o h = h.error ≡ none → Agrees (app_writes h.effects o) (writes h.effects secret)
