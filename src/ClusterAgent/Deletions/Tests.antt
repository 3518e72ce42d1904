-- ===== src/ClusterAgent/Deletions/Tests.antt =====
-- Deletions at concrete answers.
use managed_gitops.Base.{◌≡◌, refl, ℕ, none, some, List, [], ◌∷◌, String, ◌==◌}
use managed_gitops.Base.Client.{Result, ok, not_found}
use managed_gitops.ClusterAgent.Resources.{
  ArgoApplication, Effect, update_application, delete_application,
}
use managed_gitops.ClusterAgent.Deletions.{
  Round, Answers, finished, delete_argocd_application, resources_finalizer, has_resources_finalizer,
}
use managed_gitops.ClusterAgent.Deletions.Ordered.{
  Orderly, effects_of, delete_argocd_application-Orderly,
}
use managed_gitops.ClusterAgent.Deletions.Unreported.{past, finds, expired_deletion_unreported}

abbrev guestbook : List String → ArgoApplication
guestbook finalizers = record {
  name = "gitopsdepl-1";
  namespace = "gitops-service-argocd";
  finalizers = finalizers;
  deletion_timestamp = none;
  database_id = some "1";
  spec = record {
    destination_name = "in-cluster";
    destination = "jane";
    source = "https://github.com/redhat-appstudio/managed-gitops";
    project = "default";
    sync_policy = none;
  };
}

abbrev at_time : ℕ → Result ArgoApplication → Round
at_time now answer = record { now = now; answer = answer }

-- It is found until the first wait is past, and once more in the second wait.
abbrev stuck : List String → Answers
stuck finalizers = record {
  get_application = ok (guestbook finalizers);
  add_finalizer = λ app. ok app;
  delete_application = λ app. none;
  first_start = 0;
  first_wait = at_time 1 (ok (guestbook finalizers)) ∷ at_time 300000000001 not_found ∷ [];
  second_start = 300000000002;
  second_wait =
      at_time 300000000003 (ok (guestbook finalizers)) ∷ at_time 420000000003 not_found ∷ [];
}

abbrev ready : List String
ready = resources_finalizer ∷ []

-- Without the finalizer: it is added, then the Application is deleted, then finalizers are taken
-- off.
stuck_run :
    delete_argocd_application (stuck ("other" ∷ []))
    ≡ finished
        (update_application (guestbook ("other" ∷ ready))
          ∷ delete_application (guestbook ("other" ∷ ready))
          ∷ update_application (guestbook [])
          ∷ [])
        none
unfolding delete_argocd_application ◌==◌
stuck_run = refl

delete_argocd_application-Orderly_example :
    Orderly (stuck []) (effects_of (delete_argocd_application (stuck [])))
delete_argocd_application-Orderly_example = delete_argocd_application-Orderly (stuck [])

expired_deletion_unreported_example :
    (es : List Effect) × (delete_argocd_application (stuck ready)
      ≡ finished (delete_application (guestbook ready) ∷ es) none)
unfolding has_resources_finalizer ◌==◌
expired_deletion_unreported_example =
    expired_deletion_unreported (stuck ready) (guestbook ready) refl refl refl refl refl
      (finds _ _ (guestbook ready) refl refl (past _ _ refl))
      (finds _ _ (guestbook ready) refl refl (past _ _ refl))
