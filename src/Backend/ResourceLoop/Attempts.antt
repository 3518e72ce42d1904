-- ===== src/Backend/ResourceLoop/Attempts.antt =====
-- The attempts at the task of one resource: workspace_resource_event_loop.go.
use managed_gitops.Base.{
  ◌≡◌, ◌∙◌, ap, ◌⊎◌, inl, inr, refl, Bool, true, false, Option, none, some, List, [], ◌∷◌, String,
  Option-cases,
}
use managed_gitops.Base.Client.{Result, ok, not_found, err}
use managed_gitops.Util.TaskRetry.{Performed, performed}
use managed_gitops.Backend.Event.{EventLoopEvent}
use managed_gitops.Backend.WorkspaceLoop.{LoopMessage, WorkspaceMessage, managed_env_processed}
use managed_gitops.Backend.ResourceLoop.{
  process_repository_credential, process_managed_environment, Answers, handle_repository_credential,
  handle_managed_environment, process_resource_message, perform_task, credential_in,
  credential_reconciled, environment_in, environment_reconciled, outcome, wrapped, panics,
}

-- A failure that may pass: of the client on the namespace, or of the shared resource loop.
pub data CredentialFails (a : Answers) (namespace name : String) : Type 0 where
  namespace_failed :
      (e : String) → a.get_namespace namespace ≡ err e → CredentialFails a namespace name
  reconcile_failed :
      (uid e : String)
      → a.get_namespace namespace ≡ ok uid
      → a.reconcile_repository_credential uid name ≡ some e
      → CredentialFails a namespace name

-- The same for a managed environment: errors of the user are not among them.
pub data EnvironmentFails (ev : EventLoopEvent) (a : Answers) : Type 0 where
  namespace_failed : (e : String) → a.get_namespace ev.namespace ≡ err e → EnvironmentFails ev a
  reconcile_failed :
      (uid e : String)
      → a.get_namespace ev.namespace ≡ ok uid
      → a.reconcile_shared_managed_env uid ev.namespace ev.name ≡ (false, some e)
      → EnvironmentFails ev a

-- The managed environment has been reconciled.
pub record EnvironmentSucceeds (ev : EventLoopEvent) (a : Answers) : Type 0 where
  pub uid : String
  pub user_error : Bool
  pub got : a.get_namespace ev.namespace ≡ ok uid
  pub reconciled : a.reconcile_shared_managed_env uid ev.namespace ev.name ≡ (user_error, none)

-- There is nothing to reconcile, or the user has to act first.
pub data EnvironmentGivenUp (ev : EventLoopEvent) (a : Answers) : Type 0 where
  no_namespace : a.get_namespace ev.namespace ≡ not_found → EnvironmentGivenUp ev a
  user_error :
      (uid e : String)
      → a.get_namespace ev.namespace ≡ ok uid
      → a.reconcile_shared_managed_env uid ev.namespace ev.name ≡ (true, some e)
      → EnvironmentGivenUp ev a

-- How an attempt at a managed environment ends.
abbrev pub Attempted :
    Answers → LoopMessage → EventLoopEvent → Performed × List WorkspaceMessage → Type 0
Attempted a m ev r =
    (EnvironmentFails ev a × (r ≡ (performed true none, [])))
    ⊎ ((EnvironmentSucceeds ev a × (r ≡ (performed false none, managed_env_processed m ∷ [])))
        ⊎ (EnvironmentGivenUp ev a × (r ≡ (performed false none, []))))

Result-cases :
    {A : Type 0} (r : Result A)
    → ((v : A) × (r ≡ ok v)) ⊎ ((r ≡ not_found) ⊎ ((e : String) × (r ≡ err e)))
Result-cases (ok v) = inl (v, refl)
Result-cases not_found = inr (inl refl)
Result-cases (err e) = inr (inr (e, refl))

answer-cases :
    (r : Bool × Option String)
    → ((b : Bool) × (r ≡ (b, none))) ⊎ ((b : Bool) × (e : String) × (r ≡ (b, some e)))
answer-cases (b, none) = inl (b, refl)
answer-cases (b, some e) = inr (b, e, refl)

-- The credential has been reconciled, or there is no namespace for it.
pub data CredentialSettled (a : Answers) (namespace name : String) : Type 0 where
  no_namespace : a.get_namespace namespace ≡ not_found → CredentialSettled a namespace name
  reconciled :
      (uid : String)
      → a.get_namespace namespace ≡ ok uid
      → a.reconcile_repository_credential uid name ≡ none
      → CredentialSettled a namespace name

module _ (a : Answers) (m : LoopMessage) (ev : EventLoopEvent) (f : m.event ≡ some ev) where
  performed_in :
      (r : Result String)
      → a.get_namespace ev.namespace ≡ r
      → perform_task a (process_managed_environment m true)
        ≡ outcome (wrapped (environment_in a m ev r))
  unfolding perform_task process_resource_message handle_managed_environment
  performed_in r g =
      ap
        (λ (o : Option EventLoopEvent). outcome (
          wrapped (elim o [
            | none ↦ panics
            | some e ↦ environment_in a m e (a.get_namespace e.namespace)
          ])))
        f
      ∙ ap (λ x. outcome (wrapped (environment_in a m ev x))) g

  performed_by :
      (uid : String) (r : Bool × Option String)
      → a.get_namespace ev.namespace ≡ ok uid
      → a.reconcile_shared_managed_env uid ev.namespace ev.name ≡ r
      → perform_task a (process_managed_environment m true)
        ≡ outcome (wrapped (environment_reconciled m r))
  unfolding environment_in
  performed_by uid r g h =
      performed_in (ok uid) g ∙ ap (λ x. outcome (wrapped (environment_reconciled m x))) h

-- An attempt at a managed environment whose namespace the client cannot read, or that the shared
-- resource loop fails to reconcile through no error of the user, is to be repeated and reports
-- nothing. One that reconciles it is not repeated and reports the message to the workspace event
-- loop. One that finds no namespace, or an error of the user, is neither repeated nor reported.
-- (The message has a client and carries an event.)
pub perform_task-Attempted :
    (a : Answers) (m : LoopMessage) (ev : EventLoopEvent)
    → m.event ≡ some ev
    → Attempted a m ev (perform_task a (process_managed_environment m true))
unfolding environment_in environment_reconciled
perform_task-Attempted a m ev f = elim (Result-cases (a.get_namespace ev.namespace)) [
  | inl (uid, g) ↦ elim (answer-cases (a.reconcile_shared_managed_env uid ev.namespace ev.name)) [
    | inl (b, h) ↦ inr (
        inl (
          record { uid = uid; user_error = b; got = g; reconciled = h },
          performed_by a m ev f uid (b, none) g h,
        ))
    | inr (true, e, h) ↦
        inr (inr (user_error uid e g h, performed_by a m ev f uid (true, some e) g h))
    | inr (false, e, h) ↦
        inl (reconcile_failed uid e g h, performed_by a m ev f uid (false, some e) g h)
  ]
  | inr (inl g) ↦ inr (inr (no_namespace g, performed_in a m ev f not_found g))
  | inr (inr (e, g)) ↦ inl (namespace_failed e g, performed_in a m ev f (err e) g)
]

-- An attempt at a repository credential whose namespace the client cannot read, or that the shared
-- resource loop fails to reconcile, is to be repeated; one that reconciles it, or finds no
-- namespace, is not. It sends nothing to the workspace event loop. (The message has a client.)
pub credential_attempted :
    (a : Answers) (namespace name : String)
    → let r = perform_task a (process_repository_credential namespace name true) in
      (CredentialFails a namespace name × (r ≡ (performed true none, [])))
      ⊎ (CredentialSettled a namespace name × (r ≡ (performed false none, [])))
unfolding perform_task process_resource_message handle_repository_credential credential_in
    credential_reconciled
credential_attempted a namespace name = elim (Result-cases (a.get_namespace namespace)) [
  | inl (uid, g) ↦ elim (Option-cases (a.reconcile_repository_credential uid name)) [
    | inl h ↦ inr (reconciled uid g h, rw (g, credential_in) (rw h refl))
    | inr (e, h) ↦ inl (reconcile_failed uid e g h, rw (g, credential_in) (rw h refl))
  ]
  | inr (inl g) ↦ inr (no_namespace g, rw (g, credential_in) refl)
  | inr (inr (e, g)) ↦ inl (namespace_failed e g, rw (g, credential_in) refl)
]
