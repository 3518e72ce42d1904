-- ===== src/ClusterAgent/Applications/Tests.antt =====
-- Applications at concrete answers.
use managed_gitops.Base.{
  ◌≡◌, refl, sym, ◌∙◌, ap, false, Option, none, some, [], ◌∷◌, String, ◌==◌, All,
}
use managed_gitops.Base.Int.{pos}
use managed_gitops.Base.Client.{Result, ok, not_found}
use managed_gitops.Util.Operations.{waiting, application_resource, Operation, OperationCr}
use managed_gitops.ClusterAgent.InfoCache.{Application}
use managed_gitops.ClusterAgent.Resources.{
  ArgoApplication, update_application, create_project, Handled, done,
}
use managed_gitops.ClusterAgent.Comparison.{empty_application}
use managed_gitops.ClusterAgent.Projects.{anywhere, project_of, create_or_update_app_project}
use managed_gitops.ClusterAgent.Applications.{Answers, process_application}
use managed_gitops.ClusterAgent.Applications.Placement.{IsPlaced}
use managed_gitops.ClusterAgent.Applications.Agreement.{Agrees}
use managed_gitops.ClusterAgent.Applications.Ending.{process_application-Agrees}

abbrev operation : Operation
operation = record {
  operation_id = "op-1";
  instance_id = "argo";
  resource_id = "app-1";
  operation_owner_user_id = "user";
  resource_type = application_resource;
  last_state_update = 0;
  state = waiting;
  human_readable_state = "";
}

abbrev operation_cr : OperationCr
operation_cr = record {
  name = "operation-op-1";
  namespace = "argocd";
  operation_id = "op-1";
  periodic_cleanup = false;
}

abbrev the_row : Application
the_row = record {
  application_id = "app-1";
  name = "gitopsdepl-1";
  spec_field = "main";
  engine_instance_inst_id = "argo";
  managed_environment_id = "";
  seq_id = pos 1;
  created_on = pos 0;
}

-- A decoder that reads the source of an Application for the local cluster.
abbrev decode : String → ArgoApplication → Option ArgoApplication
decode text app = some (record app {
  spec = record {
    destination_name = "in-cluster";
    destination = "jane";
    source = text;
    project = "app-project-user";
    sync_policy = none;
  };
})

abbrev outdated : ArgoApplication
outdated = record empty_application { name = "gitopsdepl-1"; namespace = "argocd" }

abbrev current : ArgoApplication
current = record outdated {
  spec = record {
    destination_name = "in-cluster";
    destination = "jane";
    source = "main";
    project = "app-project-user";
    sync_policy = none;
  };
}

abbrev answers : Answers
answers = record {
  get_row = λ id. ok the_row;
  unmarshal = decode;
  get_application = λ name ns. ok outdated;
  create_application = λ app. none;
  update_application = λ app. ok app;
  secrets = record {
    get_managed_env = λ id. not_found;
    get_cluster_credentials = λ id. not_found;
    marshal = λ token insecure. some "{}";
    get_secret = λ name ns. not_found;
    create_secret = λ s. none;
    update_secret = λ s. none;
    delete_secret = λ s. not_found;
  };
  removal = λ id. record {
    label_error = λ label row. none;
    list_applications = λ ns label row. ok [];
    deletion = λ app. record {
      get_application = not_found;
      add_finalizer = λ app'. ok app';
      delete_application = λ app'. none;
      first_start = 0;
      first_wait = [];
      second_start = 0;
      second_wait = [];
    };
    count_repositories = λ user. ok 0;
    count_managed_envs = λ user. ok 0;
    projects = record {
      list_repositories = λ user. ok ("repo" ∷ []);
      list_managed_envs = λ user. ok [];
      get_managed_env = λ env. not_found;
      get_project = λ name ns. not_found;
      create_project = λ p. none;
      update_project = λ p. none;
    };
    delete_project = λ p. none;
  };
}

-- The project comes first, then the Application gets the spec of the row.
abbrev changed : Handled
changed = record {
  effects =
      create_project (project_of "user" "argocd" ("repo" ∷ []) (anywhere "in-cluster" ∷ []))
      ∷ update_application current
      ∷ [];
  retry = false;
  error = none;
  panicked = false;
}

changes : process_application answers "argocd" operation operation_cr ≡ done changed
unfolding process_application create_or_update_app_project ◌==◌
changes = refl

process_application-Agrees_example :
    All (IsPlaced "argocd" the_row) changed.effects
    × Agrees answers "argocd" the_row none (some current) none
process_application-Agrees_example =
    process_application-Agrees answers "argocd" operation operation_cr the_row none changed
      (record {
        secrets = record {
          row_has_id = λ env q. cc q;
          secret_is_stored = λ s q. cc q;
          secret_is_named = λ s q. cc q;
        };
        echoed = λ app stored q. echo app stored q;
        found_named = λ app q. named app q;
        decoded_named = λ object decoded n m q. kept object decoded n m q;
      })
      refl changes refl
  where
    echo :
        (app stored : ArgoApplication)
        → Path (Result ArgoApplication) (ok app) (ok stored)
        → stored.spec ≡ app.spec
    echo app stored q = let e : stored ≡ app = cc q in ap (λ x. x.spec) e

    named :
        (app : ArgoApplication)
        → Path (Result ArgoApplication) (ok outdated) (ok app)
        → (app.name ≡ "gitopsdepl-1") × (app.namespace ≡ "argocd")
    named app q =
        let e : outdated ≡ app = cc q in (sym (ap (λ x. x.name) e), sym (ap (λ x. x.namespace) e))

    kept :
        (object decoded : ArgoApplication)
        → object.name ≡ "gitopsdepl-1"
        → object.namespace ≡ "argocd"
        → decode "main" object ≡ some decoded
        → (decoded.name ≡ "gitopsdepl-1") × (decoded.namespace ≡ "argocd")
    kept object decoded n m q =
        let e : record object { spec = current.spec } ≡ decoded = cc q in
        (sym (ap (λ x. x.name) e) ∙ n, sym (ap (λ x. x.namespace) e) ∙ m)
