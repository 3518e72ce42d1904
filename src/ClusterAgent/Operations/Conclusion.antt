-- ===== src/ClusterAgent/Operations/Conclusion.antt =====
-- An attempt and those who wait for it: operation_event_loop.go with waitForOperationToComplete of
-- backend-shared/util/operations/types.go.
use mathlib.Core.Path.{subst}
use managed_gitops.Base.{
  ◌≡◌, ◌≢◌, ◌⊎◌, refl, sym, ap, ◌∙◌, Bool, true, false, Option, none, some, List, [], ◌∷◌, ◌++◌,
  map, String, eq_iff, inl, inr, All,
}
use managed_gitops.Base.Client.{ok}
use managed_gitops.Util.Operations.{
  gitops_engine_instance_resource, Operation, OperationCr, GitopsEngineInstance, is_concluded, Poll,
  returned, wait_for_operation_to_complete,
}
use managed_gitops.Util.Operations.Waiting.{IsQuiet, wait_quiet, wait_concluded}
use managed_gitops.ClusterAgent.Resources.{Effect}
use managed_gitops.ClusterAgent.Operations.{
  Handlers, Answers, Write, update_row, apply, Internal, begin, with_instance, with_row, with_cr,
  internal_perform_task, Attempt, state_of, outcome_row, reported, conclude, unwind, with_database,
  perform_task,
}
use managed_gitops.ClusterAgent.Operations.States.{preceded, conclude_first}
use managed_gitops.ClusterAgent.Operations.Runs.{
  Runs, runs, begun_row, Attempted, skipped, resumed, started, not_started, begin-Attempted,
}

-- The row in the database after some writes that have succeeded.
abbrev pub row_after : Operation → List Write → Operation
row_after row [] = row
row_after row (update_row next ∷ ws) = row_after next ws
row_after row (apply e ∷ ws) = row_after row ws

pub row_after-effects : (row : Operation) (es : List Effect) → row_after row (map apply es) ≡ row
row_after-effects row [] = refl
row_after-effects row (e ∷ es) = row_after-effects row es

pub row_after-stored :
    (row next : Operation) (es : List Effect)
    → row_after row (map apply es ++ (update_row next ∷ [])) ≡ next
row_after-stored row next [] = refl
row_after-stored row next (e ∷ es) = row_after-stored row next es

-- The connection is made, and the resource, its row and the instance are found, in one namespace.
pub record IsReadable (a : Answers) (row : Operation) : Type 0 where
  pub cr : OperationCr
  pub home : GitopsEngineInstance
  pub connected : a.database_error ≡ none
  pub cr_read : a.get_cr ≡ ok cr
  pub row_read : a.get_row cr.operation_id ≡ ok row
  pub home_read : a.get_instance row.instance_id ≡ ok home
  pub same_namespace : cr.namespace ≡ home.namespace_name

-- Then the attempt is at the row.
same_home :
    (a : Answers) (h : Handlers) (row : Operation) (cr : OperationCr) (i : GitopsEngineInstance)
    → cr.namespace ≡ i.namespace_name
    → with_instance a h row cr (ok i) ≡ begin a h row cr i
unfolding with_instance
same_home a h row cr i e = rw ((eq_iff cr.namespace i.namespace_name).1 e) refl

at_row :
    (a : Answers) (h : Handlers) (row : Operation) (r : IsReadable a row)
    → internal_perform_task a h ≡ begin a h row r.cr r.home
unfolding internal_perform_task with_cr with_row
at_row a h row r =
    ap (with_cr a h) r.cr_read
    ∙ ap (with_row a h r.cr) r.row_read
    ∙ ap (with_instance a h row r.cr) r.home_read
    ∙ same_home a h row r.cr r.home r.same_namespace

pub readable_attempt :
    (a : Answers) (h : Handlers) (row : Operation) (r : IsReadable a row)
    → perform_task a h ≡ unwind a (begin a h row r.cr r.home) (begin a h row r.cr r.home).panicked
unfolding perform_task with_database
readable_attempt a h row r =
    ap (with_database a h) r.connected ∙ ap (λ o. unwind a o o.panicked) (at_row a h row r)

-- What an attempt that is over has stored: nothing, for a row that had concluded before, or the row
-- with the state of its outcome.
abbrev pub Settled : Operation → Attempt → Type 0
Settled row t =
    ((is_concluded row.state ≡ true) × (row_after row t.writes ≡ row))
    ⊎ ((row_after row t.writes).state ≡ state_of false t.error)

over_reported :
    (row next : Operation) (es : List Effect) (retry : Bool) (error failure : Option String)
    → next.state ≡ state_of retry error
    → (reported (map apply es ++ (update_row next ∷ [])) retry error failure).retry ≡ false
    → Settled row (reported (map apply es ++ (update_row next ∷ [])) retry error failure)
over_reported row next es true error none s o = cc o
over_reported row next es false error none s o =
    inr (ap (λ r. r.state) (row_after-stored row next es) ∙ s)
over_reported row next es retry error (some e) s o = cc o

next_state :
    (a : Answers) (row : Operation) (retry : Bool) (error : Option String)
    → (outcome_row a.now retry error row).state ≡ state_of retry error
unfolding outcome_row
next_state a row retry error = refl

-- A row that is returned and has not concluded is stored once more.
pub conclude_open :
    (a : Answers) (row : Operation) (o : Internal)
    → is_concluded row.state ≡ false
    → conclude a o (some row)
      ≡ reported
          (o.writes ++ (update_row (outcome_row a.now o.retry o.error row) ∷ []))
          o.retry
          o.error
          (a.update_outcome (outcome_row a.now o.retry o.error row))
unfolding conclude
conclude_open a row o c = rw c refl

conclude-Settled :
    (a : Answers) (row : Operation) (o : Internal)
    → row.resource_type ≢ gitops_engine_instance_resource
    → is_concluded row.state ≡ false
    → Runs row o
    → (conclude a o o.row).retry ≡ false
    → Settled row (conclude a o o.row)
conclude-Settled a row _ t c (runs es none retry error panicked r) over = absurd (t r)
conclude-Settled a row _ t c (runs es (some x) retry error panicked r) over =
    let o : Internal = record {
      writes = map apply es;
      row = some x;
      retry = retry;
      error = error;
      panicked = panicked;
    } in
    let next = outcome_row a.now retry error row in
    subst (λ u. u.retry ≡ false → Settled row u)
      (sym (ap (λ y. conclude a o (some y)) r ∙ conclude_open a row o c))
      (over_reported row next es retry error (a.update_outcome next) (next_state a row retry error))
      over

-- The begun row is stored first.
started-Settled :
    (row : Operation) (t : Attempt)
    → Settled (begun_row row) t
    → Settled row (preceded (update_row (begun_row row)) t)
started-Settled row t (inl h) = cc h.0
started-Settled row t (inr h) = inr h

attempt-Settled :
    (a : Answers) (row : Operation) (o : Internal)
    → row.resource_type ≢ gitops_engine_instance_resource
    → Attempted row o
    → (conclude a o o.row).retry ≡ false
    → Settled row (conclude a o o.row)
unfolding conclude
attempt-Settled a row _ t (skipped c) over = rw c (inl (refl, refl))
attempt-Settled a row o t (resumed _ c w r) over = conclude-Settled a row o t c r over
attempt-Settled a row _ t (started o w r) over =
    let u = update_row (begun_row row) in
    subst (λ v. v.retry ≡ false → Settled row v) (sym (conclude_first a u o o.row))
      (λ k.
        started-Settled row (conclude a o o.row) (conclude-Settled a (begun_row row) o t refl r k))
      over
attempt-Settled a row _ t (not_started e w) over = cc over

unwind-Settled :
    (a : Answers) (row : Operation) (o : Internal) (panicked : Bool)
    → row.resource_type ≢ gitops_engine_instance_resource
    → Attempted row o
    → (unwind a o panicked).panicked ≡ false
    → (unwind a o panicked).retry ≡ false
    → Settled row (unwind a o panicked)
unfolding unwind
unwind-Settled a row o true t r p over = cc p
unwind-Settled a row o false t r p over = attempt-Settled a row o t r over

-- The waiter sees the end of an attempt that does not panic and is not to be retried. It is for a
-- row that the attempt can read, of any kind of resource but an instance of Argo CD. The row had
-- concluded before and is as it was, or it is Completed if the attempt has no error and Failed if
-- it has one; and a wait whose earlier rounds see nothing, and whose next round reads the row,
-- returns without an error.
pub operation_concludes :
    (a : Answers) (h : Handlers) (row : Operation) (before later : List Poll) (p : Poll)
    → IsReadable a row
    → row.resource_type ≢ gitops_engine_instance_resource
    → (perform_task a h).panicked ≡ false
    → (perform_task a h).retry ≡ false
    → All IsQuiet before
    → p.row ≡ ok (row_after row (perform_task a h).writes)
    → Settled row (perform_task a h)
      × (wait_for_operation_to_complete (before ++ (p ∷ later)) ≡ returned none)
operation_concludes a h row before later p r t calm over quiet polled = (
  settled,
  wait_quiet before (p ∷ later) quiet
      ∙ wait_concluded p (row_after row (perform_task a h).writes) later polled (concluded settled),
)
  where
    settled : Settled row (perform_task a h)
    settled =
        let o = begin a h row r.cr r.home in
        subst (λ u. u.panicked ≡ false → u.retry ≡ false → Settled row u)
          (sym (readable_attempt a h row r))
          (unwind-Settled a row o o.panicked t (begin-Attempted a h row r.cr r.home)) calm over

    outcome : (e : Option String) → is_concluded (state_of false e) ≡ true
    outcome none = refl
    outcome (some e) = refl

    concluded :
        Settled row (perform_task a h)
        → is_concluded (row_after row (perform_task a h).writes).state ≡ true
    concluded (inl x) = ap (λ y. is_concluded y.state) x.1 ∙ x.0
    concluded (inr e) = ap is_concluded e ∙ outcome (perform_task a h).error
