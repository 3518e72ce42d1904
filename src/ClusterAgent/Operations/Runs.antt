-- ===== src/ClusterAgent/Operations/Runs.antt =====
-- internalPerformTask of operation_event_loop.go: what it may do to the row once it has read it.
use managed_gitops.Base.{
  ◌≡◌, refl, Bool, true, false, Option, none, some, List, [], ◌∷◌, map, String, ◌==◌, Bool-cases,
  inl, inr,
}
use managed_gitops.Base.Client.{Result, ok, not_found, err}
use managed_gitops.Util.Operations.{
  in_progress, OperationResourceType, managed_environment_resource, sync_operation_resource,
  application_resource, repository_credentials_resource, gitops_engine_instance_resource,
  other_resource, Operation, OperationCr, GitopsEngineInstance, is_waiting, is_concluded,
}
use managed_gitops.ClusterAgent.Resources.{Effect}
use managed_gitops.ClusterAgent.Operations.{
  Handlers, Answers, update_row, apply, Internal, stop, dispatch, in_namespace, on_cluster,
  check_cluster, begun, begin,
}

-- The row that is returned is the row that was read; only for an instance of Argo CD is it none.
abbrev pub Returned : Operation → Option Operation → Type 0
Returned row none = row.resource_type ≡ gitops_engine_instance_resource
Returned row (some r) = r ≡ row

-- A run that writes no row.
pub data Runs (row : Operation) : Internal → Type 0 where
  runs :
      (effects : List Effect) (r : Option Operation) (retry : Bool) (error : Option String)
      (panicked : Bool)
      → Returned row r
      → Runs row (record {
        writes = map apply effects;
        row = r;
        retry = retry;
        error = error;
        panicked = panicked;
      })

stops :
    (row : Operation) (retry : Bool) (error : Option String)
    → Runs row (stop (some row) retry error)
stops row retry error = runs [] (some row) retry error false refl

module _ (a : Answers) (h : Handlers) (row : Operation) (cr : OperationCr) where
  dispatch-Runs :
      (ns : String) (t : OperationResourceType)
      → row.resource_type ≡ t
      → Runs row (dispatch h t row cr ns)
  unfolding dispatch
  dispatch-Runs ns application_resource e =
      let o = h.application row cr ns in runs o.effects (some row) o.retry o.error o.panicked refl
  dispatch-Runs ns managed_environment_resource e =
      let o = h.managed_environment row cr ns in
      runs o.effects (some row) o.retry o.error o.panicked refl
  dispatch-Runs ns repository_credentials_resource e =
      let o = h.repository_credentials row cr ns in
      runs o.effects (some row) o.retry o.error o.panicked refl
  dispatch-Runs ns sync_operation_resource e =
      let o = h.sync_operation row cr ns in
      runs o.effects (some row) o.retry o.error o.panicked refl
  dispatch-Runs ns gitops_engine_instance_resource e =
      let o = h.engine_instance row cr ns in runs o.effects none o.retry o.error o.panicked e
  dispatch-Runs ns (other_resource t) e = stops row false none

  module _ (i : GitopsEngineInstance) where
    in_namespace-Runs : (r : Result String) → Runs row (in_namespace a h row cr i r)
    unfolding in_namespace
    in_namespace-Runs (ok uid) = elim (Bool-cases (uid == i.namespace_uid)) [
      | inl b ↦ rw b (dispatch-Runs i.namespace_name row.resource_type refl)
      | inr b ↦ rw b (stops row false none)
    ]
    in_namespace-Runs not_found = stops row true _
    in_namespace-Runs (err e) = stops row true _

    on_cluster-Runs : (r : Result (Option String)) → Runs row (on_cluster a h row cr i r)
    unfolding on_cluster
    on_cluster-Runs (ok none) = stops row true none
    on_cluster-Runs (ok (some id)) = elim (Bool-cases (id == i.enginecluster_id)) [
      | inl b ↦ rw b (in_namespace-Runs (a.get_argo_namespace i.namespace_name))
      | inr b ↦ rw b (stops row true none)
    ]
    on_cluster-Runs not_found = stops row true _
    on_cluster-Runs (err e) = stops row true _

    pub check_cluster-Runs : (r : Result String) → Runs row (check_cluster a h row cr i r)
    unfolding check_cluster
    check_cluster-Runs (ok uid) = on_cluster-Runs (a.get_cluster uid)
    check_cluster-Runs not_found = stops row true _
    check_cluster-Runs (err e) = stops row true _

abbrev pub begun_row : Operation → Operation
begun_row row = record row { state = in_progress }

-- How the attempt at a row goes, by the state of the row.
pub data Attempted (row : Operation) : Internal → Type 0 where
  skipped : is_concluded row.state ≡ true → Attempted row (stop (some row) false none)
  resumed :
      (o : Internal)
      → is_concluded row.state ≡ false
      → is_waiting row.state ≡ false
      → Runs row o
      → Attempted row o
  started :
      (o : Internal)
      → is_waiting row.state ≡ true
      → Runs (begun_row row) o
      → Attempted row (record o { writes = update_row (begun_row row) ∷ o.writes })
  not_started :
      (e : Option String)
      → is_waiting row.state ≡ true
      → Attempted row (record {
        writes = update_row (begun_row row) ∷ [];
        row = none;
        retry = true;
        error = e;
        panicked = false;
      })

module _ (a : Answers) (h : Handlers) (row : Operation) (cr : OperationCr)
    (i : GitopsEngineInstance) where
  begun-Attempted :
      is_waiting row.state ≡ true
      → (r : Option String) → Attempted row (begun a h (begun_row row) cr i r)
  unfolding begun
  begun-Attempted w none =
      started (check_cluster a h (begun_row row) cr i a.get_kube_system) w
        (check_cluster-Runs a h (begun_row row) cr i a.get_kube_system)
  begun-Attempted w (some e) = not_started _ w

  pub begin-Attempted : Attempted row (begin a h row cr i)
  unfolding begin
  begin-Attempted = elim (Bool-cases (is_concluded row.state)) [
    | inl c ↦ rw c (skipped c)
    | inr c ↦ elim (Bool-cases (is_waiting row.state)) [
      | inl w ↦ rw (c, w) (begun-Attempted w (a.update_begun (begun_row row)))
      | inr w ↦
          rw (c, w)
            (resumed (check_cluster a h row cr i a.get_kube_system) c w
              (check_cluster-Runs a h row cr i a.get_kube_system))
    ]
  ]
