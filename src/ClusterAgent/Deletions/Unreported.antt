-- ===== src/ClusterAgent/Deletions/Unreported.antt =====
-- What DeleteArgoCDApplication does not report.
use managed_gitops.Base.{◌≡◌, refl, ap, ◌∙◌, ℕ, ◌+◌, ltb, true, false, Option, none, List, [], ◌∷◌}
use managed_gitops.Base.Client.{ok}
use managed_gitops.ClusterAgent.Resources.{ArgoApplication, Effect, delete_application}
use managed_gitops.ClusterAgent.Deletions.{
  Round, Answers, finished, after_effects, Ending, gone, expired, unfinished, wait_for_argocd,
  wait_without_finalizers, returned, after_first_wait, deadline_of, wait, deleted, delete_now,
  has_resources_finalizer, begin_deletion, is_ours, with_application, delete_argocd_application,
  two_minutes,
}

-- A wait whose last round finds the time past, and whose earlier ones find the Application.
pub data Outlasts (deadline : ℕ) : List Round → Type 0 where
  past : (r : Round) (rs : List Round) → ltb deadline r.now ≡ true → Outlasts deadline (r ∷ rs)
  finds :
      (r : Round) (rs : List Round) (app : ArgoApplication)
      → r.answer ≡ ok app
      → ltb deadline r.now ≡ false
      → Outlasts deadline rs
      → Outlasts deadline (r ∷ rs)

first_expires :
    (deadline : ℕ) (rs : List Round) → Outlasts deadline rs → wait_for_argocd deadline rs ≡ expired
unfolding wait_for_argocd
first_expires deadline _ (past r rs p) = rw p refl
first_expires deadline _ (finds r rs app f p e) = rw (p, f) (first_expires deadline rs e)

second_expires :
    (deadline : ℕ) (rs : List Round)
    → Outlasts deadline rs
    → (wait_without_finalizers deadline rs).1 ≡ expired
unfolding wait_without_finalizers
second_expires deadline _ (past r rs p) = rw p refl
second_expires deadline _ (finds r rs app f p e) = rw (p, f) (second_expires deadline rs e)

ours_begins :
    (a : Answers) (app : ArgoApplication)
    → is_ours app.database_id ≡ true
    → with_application a (ok app) ≡ begin_deletion a app app.deletion_timestamp
unfolding with_application
ours_begins a app ours = rw ours refl

alive_is_deleted :
    (a : Answers) (app : ArgoApplication)
    → has_resources_finalizer app.finalizers ≡ true
    → begin_deletion a app none ≡ delete_now a app
unfolding begin_deletion
alive_is_deleted a app has = rw has refl

returned_expired : (w : List Effect × Ending) → w.1 ≡ expired → returned w ≡ finished w.0 none
returned_expired (es, gone) q = refl
returned_expired (es, expired) q = refl
returned_expired (es, unfinished) q = cc q

wait_expires :
    (a : Answers) (since : Option ℕ)
    → Outlasts (deadline_of a since) a.first_wait
    → Outlasts (a.second_start + two_minutes) a.second_wait
    → wait a since
      ≡ finished (wait_without_finalizers (a.second_start + two_minutes) a.second_wait).0 none
unfolding wait after_first_wait
wait_expires a since first second =
    ap (after_first_wait a) (first_expires (deadline_of a since) a.first_wait first)
    ∙ returned_expired (wait_without_finalizers (a.second_start + two_minutes) a.second_wait)
        (second_expires (a.second_start + two_minutes) a.second_wait second)

-- An Application of the service, with its finalizer, whose deletion is accepted but that is found
-- in every round of both waits until they expire: the call returns without an error.
pub expired_deletion_unreported :
    (a : Answers) (app : ArgoApplication)
    → a.get_application ≡ ok app
    → is_ours app.database_id ≡ true
    → app.deletion_timestamp ≡ none
    → has_resources_finalizer app.finalizers ≡ true
    → a.delete_application app ≡ none
    → Outlasts (deadline_of a none) a.first_wait
    → Outlasts (a.second_start + two_minutes) a.second_wait
    → (es : List Effect) × (delete_argocd_application a
        ≡ finished (delete_application app ∷ es) none)
unfolding delete_argocd_application deleted
expired_deletion_unreported a app there ours alive has accepted first second = (
  (wait_without_finalizers (a.second_start + two_minutes) a.second_wait).0,
  ap (with_application a) there
      ∙ ours_begins a app ours
      ∙ ap (begin_deletion a app) alive
      ∙ alive_is_deleted a app has
      ∙ ap (λ o. after_effects (delete_application app ∷ []) (deleted a app o)) accepted
      ∙ ap (λ since. after_effects (delete_application app ∷ []) (wait a since)) alive
      ∙ ap (after_effects (delete_application app ∷ [])) (wait_expires a none first second),
)
