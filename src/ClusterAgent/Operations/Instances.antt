-- ===== src/ClusterAgent/Operations/Instances.antt =====
-- The Operations for an instance of Argo CD: operation_event_loop.go.
use managed_gitops.Base.{
  ◌≡◌, ◌⊎◌, refl, sym, ap, ◌∙◌, Bool, true, false, Option, none, some, List, [], ◌∷◌, ◌++◌, map,
  String, ◌==◌, eq_refl, Bool-cases, inl, inr,
}
use managed_gitops.Base.Client.{Result, ok, not_found, err}
use managed_gitops.Util.Operations.{
  OperationResourceType, gitops_engine_instance_resource, Operation, OperationCr,
  GitopsEngineInstance, is_waiting, is_concluded, Poll, wait_for_operation_to_complete,
}
use managed_gitops.Util.Operations.Waiting.{wait_round}
use managed_gitops.ClusterAgent.Operations.{
  Handlers, Answers, update_row, apply, Internal, dispatch, in_namespace, on_cluster, check_cluster,
  begun, begin, outcome_row, conclude, unwind, perform_task,
}
use managed_gitops.ClusterAgent.Resources.{Effect}
use managed_gitops.ClusterAgent.Operations.States.{conclude_first, reported_writes}
use managed_gitops.ClusterAgent.Operations.Runs.{
  Runs, runs, begun_row, Attempted, skipped, resumed, started, not_started, begin-Attempted,
}
use managed_gitops.ClusterAgent.Operations.Conclusion.{
  row_after, row_after-effects, row_after-stored, IsReadable, readable_attempt, conclude_open,
}

-- No row is returned, or the attempt is to be retried.
abbrev Unfinished : Internal → Type 0
Unfinished o = (o.row ≡ none) ⊎ (o.retry ≡ true)

module _ (a : Answers) (h : Handlers) (cr : OperationCr) (i : GitopsEngineInstance)
    (there : a.get_argo_namespace i.namespace_name ≡ ok i.namespace_uid) where
  dispatch-Unfinished :
      (row : Operation) (ns : String) (t : OperationResourceType)
      → t ≡ gitops_engine_instance_resource
      → Unfinished (dispatch h t row cr ns)
  unfolding dispatch
  dispatch-Unfinished row ns t e = rw e (inl refl)

  in_namespace-Unfinished :
      (row : Operation)
      → row.resource_type ≡ gitops_engine_instance_resource
      → Unfinished (in_namespace a h row cr i (ok i.namespace_uid))
  unfolding in_namespace
  in_namespace-Unfinished row t =
      rw (eq_refl i.namespace_uid) (dispatch-Unfinished row i.namespace_name row.resource_type t)

  on_cluster-Unfinished :
      (row : Operation) (r : Result (Option String))
      → row.resource_type ≡ gitops_engine_instance_resource
      → Unfinished (on_cluster a h row cr i r)
  unfolding on_cluster
  on_cluster-Unfinished row (ok none) t = inr refl
  on_cluster-Unfinished row (ok (some id)) t = elim (Bool-cases (id == i.enginecluster_id)) [
    | inl b ↦ rw (b, there) (in_namespace-Unfinished row t)
    | inr b ↦ rw b (inr refl)
  ]
  on_cluster-Unfinished row not_found t = inr refl
  on_cluster-Unfinished row (err e) t = inr refl

  check_cluster-Unfinished :
      (row : Operation) (r : Result String)
      → row.resource_type ≡ gitops_engine_instance_resource
      → Unfinished (check_cluster a h row cr i r)
  unfolding check_cluster
  check_cluster-Unfinished row (ok uid) t = on_cluster-Unfinished row (a.get_cluster uid) t
  check_cluster-Unfinished row not_found t = inr refl
  check_cluster-Unfinished row (err e) t = inr refl

  begun-Unfinished :
      (row : Operation) (r : Option String)
      → row.resource_type ≡ gitops_engine_instance_resource
      → Unfinished (begun a h row cr i r)
  unfolding begun
  begun-Unfinished row none t = check_cluster-Unfinished row a.get_kube_system t
  begun-Unfinished row (some e) t = inr refl

  begin-Unfinished :
      (row : Operation)
      → row.resource_type ≡ gitops_engine_instance_resource
      → is_concluded row.state ≡ false
      → Unfinished (begin a h row cr i)
  unfolding begin
  begin-Unfinished row t c = elim (Bool-cases (is_waiting row.state)) [
    | inl w ↦ rw (c, w) (begun-Unfinished (begun_row row) (a.update_begun (begun_row row)) t)
    | inr w ↦ rw (c, w) (check_cluster-Unfinished row a.get_kube_system t)
  ]

retried_state :
    (a : Answers) (row : Operation) (error : Option String)
    → is_concluded (outcome_row a.now true error row).state ≡ false
unfolding outcome_row
retried_state a row error = refl

module _ (a : Answers) where
  outcome_after :
      (row : Operation) (es : List Effect) (o : Internal)
      → o.writes ≡ map apply es
      → is_concluded row.state ≡ false
      → row_after row (conclude a o (some row)).writes ≡ outcome_row a.now o.retry o.error row
  outcome_after row es o w c =
      let next = outcome_row a.now o.retry o.error row in
      ap (λ t. row_after row t.writes) (conclude_open a row o c)
      ∙ ap (row_after row) (
          reported_writes (o.writes ++ (update_row next ∷ [])) o.retry o.error
            (a.update_outcome next))
      ∙ ap (λ ws. row_after row (ws ++ (update_row next ∷ []))) w
      ∙ row_after-stored row next es

  no_row_after :
      (row : Operation) (o : Internal)
      → row_after row (conclude a o none).writes ≡ row_after row o.writes
  unfolding conclude
  no_row_after row o = refl

  -- The state that such a run leaves.
  open_after_run :
      (row : Operation) (o : Internal)
      → is_concluded row.state ≡ false
      → Runs row o
      → Unfinished o
      → is_concluded (row_after row (conclude a o o.row).writes).state ≡ false
  open_after_run row _ c (runs es none retry error panicked r) u =
      rw (no_row_after row _) (rw (row_after-effects row es) c)
  open_after_run row _ c (runs es (some x) retry error panicked r) (inl n) = cc n
  open_after_run row _ c (runs es (some x) retry error panicked r) (inr y) =
      let o : Internal = record {
        writes = map apply es;
        row = some x;
        retry = retry;
        error = error;
        panicked = panicked;
      } in
      ap (λ z. is_concluded (row_after row (conclude a o (some z)).writes).state) r
      ∙ ap (λ z. is_concluded z.state) (outcome_after row es o refl c)
      ∙ ap (λ b. is_concluded (outcome_row a.now b error row).state) y
      ∙ retried_state a row error

  open_after_attempt :
      (row : Operation) (o : Internal)
      → is_concluded row.state ≡ false
      → Attempted row o
      → Unfinished o
      → is_concluded (row_after row (conclude a o o.row).writes).state ≡ false
  open_after_attempt row _ c (skipped d) u = absurd (cc (sym d ∙ c))
  open_after_attempt row o c (resumed _ d w r) u = open_after_run row o c r u
  open_after_attempt row _ c (started o w r) u =
      ap (λ t. is_concluded (row_after row t.writes).state)
        (conclude_first a (update_row (begun_row row)) o o.row)
      ∙ open_after_run (begun_row row) o refl r u
  open_after_attempt row _ c (not_started e w) u =
      ap (λ z. is_concluded z.state) (no_row_after row _)

  open_after_panic :
      (row : Operation) (o : Internal)
      → is_concluded row.state ≡ false
      → Attempted row o
      → is_concluded (row_after row o.writes).state ≡ false
  open_after_panic row _ c (skipped d) = c
  open_after_panic row o c (resumed _ d w (runs es r retry error p s)) =
      rw (row_after-effects row es) c
  open_after_panic row _ c (started _ w (runs es r retry error p s)) =
      ap (λ z. is_concluded z.state) (row_after-effects (begun_row row) es)
  open_after_panic row _ c (not_started e w) = refl

  open_after_unwind :
      (row : Operation) (o : Internal) (panicked : Bool)
      → is_concluded row.state ≡ false
      → Attempted row o
      → Unfinished o
      → is_concluded (row_after row (unwind a o panicked).writes).state ≡ false
  unfolding unwind
  open_after_unwind row o true c t u = open_after_panic row o c t
  open_after_unwind row o false c t u = open_after_attempt row o c t u

-- An Operation for an instance of Argo CD, in a namespace that is the instance's: whatever else an
-- attempt meets, and also if its handler succeeds and nothing is retried, the row does not become
-- Completed or Failed, and whoever waits for it and reads the row goes on waiting.
pub engine_instance_never_concludes :
    (a : Answers) (h : Handlers) (row : Operation) (p : Poll) (later : List Poll)
    (r : IsReadable a row)
    → row.resource_type ≡ gitops_engine_instance_resource
    → is_concluded row.state ≡ false
    → a.get_argo_namespace r.home.namespace_name ≡ ok r.home.namespace_uid
    → p.row ≡ ok (row_after row (perform_task a h).writes)
    → p.done ≡ false
    → (is_concluded (row_after row (perform_task a h).writes).state ≡ false)
      × (wait_for_operation_to_complete (p ∷ later) ≡ wait_for_operation_to_complete later)
engine_instance_never_concludes a h row p later r t c there polled open_context = (
  still,
  wait_round p later (record {
    stored = row_after row (perform_task a h).writes;
    found = polled;
    open_still = still;
    not_done = open_context;
  }),
)
  where
    still : is_concluded (row_after row (perform_task a h).writes).state ≡ false
    still =
        ap (λ u. is_concluded (row_after row u.writes).state) (readable_attempt a h row r)
        ∙ open_after_unwind a row (begin a h row r.cr r.home) (begin a h row r.cr r.home).panicked c
            (begin-Attempted a h row r.cr r.home) (begin-Unfinished a h r.cr r.home there row t c)
