-- ===== src/ClusterAgent/Deletions/Ordered.antt =====
-- The order of the calls of DeleteArgoCDApplication.
use managed_gitops.Base.{
  ◌≡◌, refl, ℕ, ◌+◌, ltb, true, Option, none, some, List, [], ◌∷◌, ◌++◌, String, is_nil, Bool-cases,
  inl, inr, All, All-append,
}
use managed_gitops.Base.Client.{Result, ok, not_found, err}
use managed_gitops.ClusterAgent.Resources.{
  ArgoApplication, Effect, update_application, delete_application,
}
use managed_gitops.ClusterAgent.Deletions.{
  Round, Answers, Outcome, finished, still_waiting, after_effects, Ending, gone, expired,
  unfinished, wait_for_argocd, strip, wait_without_finalizers, returned, after_first_wait,
  deadline_of, wait, deleted, finalizer_added, has_resources_finalizer, with_resources_finalizer,
  resources_finalizer, begin_deletion, is_ours, with_application, delete_argocd_application,
  two_minutes,
}

-- The effects of an outcome, and the error that it reports.
abbrev pub effects_of : Outcome → List Effect
effects_of (finished es e) = es
effects_of (still_waiting es) = es

-- Taking the finalizers off, after the first wait has expired.
pub data Strips (a : Answers) (since : Option ℕ) : Effect → Type 0 where
  strips :
      (app : ArgoApplication)
      → wait_for_argocd (deadline_of a since) a.first_wait ≡ expired
      → Strips a since (update_application (record app { finalizers = [] }))

-- The Application with the finalizer for its resources put last.
pub record Finalized (app app' : ArgoApplication) : Type 0 where
  pub same_name : app'.name ≡ app.name
  pub same_namespace : app'.namespace ≡ app.namespace
  pub added_last : app'.finalizers ≡ app.finalizers ++ (resources_finalizer ∷ [])

-- The effects of a call.
pub data Orderly (a : Answers) : List Effect → Type 0 where
  nothing : Orderly a []
  -- an Application of the service that is being deleted already
  stripped :
      (app : ArgoApplication) (since : ℕ) (es : List Effect)
      → a.get_application ≡ ok app
      → is_ours app.database_id ≡ true
      → app.deletion_timestamp ≡ some since
      → All (Strips a (some since)) es
      → Orderly a es
  -- one that has the finalizer
  deleted_at_once :
      (app : ArgoApplication) (es : List Effect)
      → a.get_application ≡ ok app
      → is_ours app.database_id ≡ true
      → app.deletion_timestamp ≡ none
      → has_resources_finalizer app.finalizers ≡ true
      → All (Strips a app.deletion_timestamp) es
      → Orderly a (delete_application app ∷ es)
  -- one that gets the finalizer first
  finalizer_first :
      (app app' stored : ArgoApplication) (es : List Effect)
      → a.get_application ≡ ok app
      → is_ours app.database_id ≡ true
      → app.deletion_timestamp ≡ none
      → Finalized app app'
      → a.add_finalizer app' ≡ ok stored
      → All (Strips a stored.deletion_timestamp) es
      → Orderly a (update_application app' ∷ delete_application stored ∷ es)
  finalizer_refused :
      (app app' : ArgoApplication)
      → a.get_application ≡ ok app
      → is_ours app.database_id ≡ true
      → Finalized app app'
      → Orderly a (update_application app' ∷ [])

module _ (a : Answers) (since : Option ℕ)
    (past : wait_for_argocd (deadline_of a since) a.first_wait ≡ expired) where
  strip-Strips : (app : ArgoApplication) → All (Strips a since) (strip app)
  strip-Strips app = elim (Bool-cases (is_nil app.finalizers)) [
    | inl b ↦ rw b tt
    | inr b ↦ rw b (strips app past, tt)
  ]

  second-Strips :
      (deadline : ℕ) (rs : List Round)
      → All (Strips a since) (wait_without_finalizers deadline rs).0
  unfolding wait_without_finalizers
  second-Strips deadline [] = tt
  second-Strips deadline (r ∷ rs) = elim (Bool-cases (ltb deadline r.now)) [
    | inl b ↦ rw b tt
    | inr b ↦ rw b (by_answer r.answer (second-Strips deadline rs))
  ]
    where
      by_answer :
          (o : Result ArgoApplication)
          → All (Strips a since) (wait_without_finalizers deadline rs).0
          → let w : List Effect × Ending = elim o [
            | ok app ↦ (
              strip app ++ (wait_without_finalizers deadline rs).0,
              (wait_without_finalizers deadline rs).1,
            )
            | not_found ↦ ([], gone)
            | err e ↦ wait_without_finalizers deadline rs
          ] in
            All (Strips a since) w.0
      by_answer (ok app) h =
          All-append (Strips a since) (strip app) (wait_without_finalizers deadline rs).0
            (strip-Strips app) h
      by_answer not_found h = tt
      by_answer (err e) h = h

returned_effects : (w : List Effect × Ending) → effects_of (returned w) ≡ w.0
returned_effects (es, gone) = refl
returned_effects (es, expired) = refl
returned_effects (es, unfinished) = refl

wait-Strips : (a : Answers) (since : Option ℕ) → All (Strips a since) (effects_of (wait a since))
unfolding wait after_first_wait
wait-Strips a since = by_end (wait_for_argocd (deadline_of a since) a.first_wait) refl
  where
    by_end :
        (e : Ending)
        → wait_for_argocd (deadline_of a since) a.first_wait ≡ e
        → All (Strips a since) (effects_of (after_first_wait a e))
    by_end gone q = tt
    by_end unfinished q = tt
    by_end expired q =
        let w = wait_without_finalizers (a.second_start + two_minutes) a.second_wait in
        rw (returned_effects w)
          (second-Strips a since q (a.second_start + two_minutes) a.second_wait)

deleted-Strips :
    (a : Answers) (app : ArgoApplication) (o : Option String)
    → All (Strips a app.deletion_timestamp) (effects_of (deleted a app o))
unfolding deleted
deleted-Strips a app none = wait-Strips a app.deletion_timestamp
deleted-Strips a app (some e) = tt

after_effects_lem :
    (es : List Effect) (o : Outcome) → effects_of (after_effects es o) ≡ es ++ effects_of o
after_effects_lem es (finished fs e) = refl
after_effects_lem es (still_waiting fs) = refl

module _ (a : Answers) (app : ArgoApplication) (there : a.get_application ≡ ok app)
    (ours : is_ours app.database_id ≡ true) (alive : app.deletion_timestamp ≡ none) where
  added_last_here : Finalized app (with_resources_finalizer app)
  added_last_here = record { same_name = refl; same_namespace = refl; added_last = refl }

  added-Orderly :
      (r : Result ArgoApplication)
      → a.add_finalizer (with_resources_finalizer app) ≡ r
      → Orderly a
          (update_application (with_resources_finalizer app) ∷ effects_of (finalizer_added a r))
  unfolding finalizer_added
  added-Orderly (ok stored) q =
      rw
        (after_effects_lem (delete_application stored ∷ [])
          (deleted a stored (a.delete_application stored)))
        (finalizer_first app _ stored (effects_of (deleted a stored (a.delete_application stored)))
          there ours alive added_last_here q
          (deleted-Strips a stored (a.delete_application stored)))
  added-Orderly not_found q = finalizer_refused app _ there ours added_last_here
  added-Orderly (err e) q = finalizer_refused app _ there ours added_last_here

begin-Orderly :
    (a : Answers) (app : ArgoApplication) (since : Option ℕ)
    → a.get_application ≡ ok app
    → is_ours app.database_id ≡ true
    → app.deletion_timestamp ≡ since
    → Orderly a (effects_of (begin_deletion a app since))
unfolding begin_deletion
begin-Orderly a app (some since) there ours q =
    stripped app since (effects_of (wait a (some since))) there ours q (wait-Strips a (some since))
begin-Orderly a app none there ours q = elim (Bool-cases (has_resources_finalizer app.finalizers)) [
  | inl b ↦ rw b (
      rw
        (after_effects_lem (delete_application app ∷ []) (deleted a app (a.delete_application app)))
        (deleted_at_once app (effects_of (deleted a app (a.delete_application app))) there ours q b
          (deleted-Strips a app (a.delete_application app))))
  | inr b ↦ rw b (
      rw
        (after_effects_lem (update_application (with_resources_finalizer app) ∷ [])
          (finalizer_added a (a.add_finalizer (with_resources_finalizer app))))
        (added-Orderly a app there ours q (a.add_finalizer (with_resources_finalizer app)) refl))
]

with_application-Orderly :
    (a : Answers) (r : Result ArgoApplication)
    → a.get_application ≡ r
    → Orderly a (effects_of (with_application a r))
unfolding with_application
with_application-Orderly a (ok app) q = elim (Bool-cases (is_ours app.database_id)) [
  | inl b ↦ rw b (begin-Orderly a app app.deletion_timestamp q b refl)
  | inr b ↦ rw b nothing
]
with_application-Orderly a not_found q = nothing
with_application-Orderly a (err e) q = nothing

-- Whatever the client answers, and however long the waits are: nothing is written unless the
-- Application was read and has the label of the service. It is deleted at most once, and only if
-- it has the finalizer for its resources, or after an Update that added it; a refused Update is
-- the last write. All later writes take the finalizers off, and only if the wait for Argo CD has
-- expired.
pub delete_argocd_application-Orderly :
    (a : Answers) → Orderly a (effects_of (delete_argocd_application a))
unfolding delete_argocd_application
delete_argocd_application-Orderly a = with_application-Orderly a a.get_application refl
