-- ===== src/ClusterAgent/Deletions.antt =====
-- DeleteArgoCDApplication of cluster-agent/controllers/util.go: an Application is deleted, with a
-- time for Argo CD to clean up, and then with its finalizers taken off. The Kubernetes client and
-- the clock are parameters; a round of a loop reads the clock and then the client.
pub mod Ordered
pub mod Unreported
mod Tests
use managed_gitops.Base.{
  ℕ, ◌+◌, ltb, Bool, true, false, Option, none, some, List, [], ◌∷◌, ◌++◌, String, ◌==◌, is_nil,
  if◌then◌else◌,
}
use managed_gitops.Base.Client.{Result, ok, not_found, err}
use managed_gitops.ClusterAgent.Resources.{
  ArgoApplication, Effect, update_application, delete_application,
}

-- argoCDResourcesFinalizer, and the two timeouts in nanoseconds.
abbrev pub resources_finalizer : String
resources_finalizer = "resources-finalizer.argocd.argoproj.io/background"

abbrev pub five_minutes : ℕ
five_minutes = 300000000000

abbrev pub two_minutes : ℕ
two_minutes = 120000000000

-- A round of a loop: the time, and the answer of Get. That of the Update of the second loop decides
-- only whether there is a delay before the next round.
pub record Round : Type 0 where
  pub now : ℕ
  pub answer : Result ArgoApplication

pub record Answers : Type 0 where
  pub get_application : Result ArgoApplication
  -- the Update that adds the finalizer answers with what is stored
  pub add_finalizer : ArgoApplication → Result ArgoApplication
  pub delete_application : ArgoApplication → Option String
  -- the clock when each wait begins
  pub first_start : ℕ
  pub first_wait : List Round
  pub second_start : ℕ
  pub second_wait : List Round

-- The effects, and what the call returns, if it returns before the rounds are used up.
pub data Outcome : Type 0 where
  finished : List Effect → Option String → Outcome
  still_waiting : List Effect → Outcome

abbrev pub after_effects : List Effect → Outcome → Outcome
after_effects es (finished fs e) = finished (es ++ fs) e
after_effects es (still_waiting fs) = still_waiting (es ++ fs)

-- How a wait ends: the Application is gone, or the time is past.
pub data Ending : Type 0 where
  gone expired unfinished : Ending

-- The first loop.
unfoldable pub wait_for_argocd : ℕ → List Round → Ending
wait_for_argocd deadline [] = unfinished
wait_for_argocd deadline (r ∷ rs) =
    let rest = wait_for_argocd deadline rs in
    if ltb deadline r.now
    then expired
    else elim r.answer [ ok app ↦ rest | not_found ↦ gone | err e ↦ rest ]

-- An Application with finalizers loses them in a round of the second loop.
abbrev pub strip : ArgoApplication → List Effect
strip app =
    if is_nil app.finalizers then [] else update_application (record app { finalizers = [] }) ∷ []

-- The second loop: its effects and its end.
unfoldable pub wait_without_finalizers : ℕ → List Round → List Effect × Ending
wait_without_finalizers deadline [] = ([], unfinished)
wait_without_finalizers deadline (r ∷ rs) =
    let rest = wait_without_finalizers deadline rs in
    if ltb deadline r.now then ([], expired) else elim r.answer [
      | ok app ↦ (strip app ++ rest.0, rest.1)
      | not_found ↦ ([], gone)
      | err e ↦ rest
    ]

-- Whether it succeeded or not, the call returns nil.
abbrev pub returned : List Effect × Ending → Outcome
returned (es, gone) = finished es none
returned (es, expired) = finished es none
returned (es, unfinished) = still_waiting es

-- By the end of the first loop.
unfoldable pub after_first_wait : Answers → Ending → Outcome
unfolding wait_without_finalizers
after_first_wait a gone = finished [] none
after_first_wait a unfinished = still_waiting []
after_first_wait a expired =
    returned (wait_without_finalizers (a.second_start + two_minutes) a.second_wait)

-- The deadline of the first loop, by the deletion timestamp.
abbrev pub deadline_of : Answers → Option ℕ → ℕ
deadline_of a none = a.first_start + five_minutes
deadline_of a (some since) = since + five_minutes

unfoldable pub wait : Answers → Option ℕ → Outcome
unfolding after_first_wait wait_for_argocd
wait a since = after_first_wait a (wait_for_argocd (deadline_of a since) a.first_wait)

-- By the answer to Delete.
unfoldable pub deleted : Answers → ArgoApplication → Option String → Outcome
unfolding wait
deleted a app none = wait a app.deletion_timestamp
deleted a app (some e) = finished [] (some e)

abbrev pub delete_now : Answers → ArgoApplication → Outcome
delete_now a app =
    after_effects (delete_application app ∷ []) (deleted a app (a.delete_application app))

-- By the answer to the Update that adds the finalizer.
unfoldable pub finalizer_added : Answers → Result ArgoApplication → Outcome
unfolding deleted
finalizer_added a (ok app) = delete_now a app
finalizer_added a not_found = finished [] (some "not found")
finalizer_added a (err e) = finished [] (some e)

unfoldable pub has_resources_finalizer : List String → Bool
has_resources_finalizer [] = false
has_resources_finalizer (f ∷ fs) =
    let rest = has_resources_finalizer fs in if f == resources_finalizer then true else rest

abbrev pub with_resources_finalizer : ArgoApplication → ArgoApplication
with_resources_finalizer app = record app {
  finalizers = app.finalizers ++ (resources_finalizer ∷ []);
}

-- By the deletion timestamp.
unfoldable pub begin_deletion : Answers → ArgoApplication → Option ℕ → Outcome
unfolding finalizer_added has_resources_finalizer
begin_deletion a app (some since) = wait a (some since)
begin_deletion a app none =
    let app' = with_resources_finalizer app in
    if has_resources_finalizer app.finalizers
    then delete_now a app
    else after_effects (update_application app' ∷ []) (finalizer_added a (a.add_finalizer app'))

-- Whether the Application is one of the service's.
abbrev pub is_ours : Option String → Bool
is_ours none = false
is_ours (some id) = if id == "" then false else true

unfoldable pub with_application : Answers → Result ArgoApplication → Outcome
unfolding begin_deletion
with_application a (ok app) =
    if is_ours app.database_id
    then begin_deletion a app app.deletion_timestamp
    else finished [] none
with_application a not_found = finished [] none
with_application a (err e) = finished [] (some e)

unfoldable pub delete_argocd_application : Answers → Outcome
unfolding with_application
delete_argocd_application a = with_application a a.get_application
