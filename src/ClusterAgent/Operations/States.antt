-- ===== src/ClusterAgent/Operations/States.antt =====
-- The states through which an attempt takes the row of an Operation: operation_event_loop.go.
use Prim.Native.String.{count}
use managed_gitops.Base.{
  ℕ, ◌≤◌, ◌≡◌, refl, Bool, true, false, Option, none, some, List, [], ◌∷◌, ◌++◌, map, String, ◌==◌,
  Bool-cases, inl, inr,
}
use managed_gitops.Base.Client.{Result, ok, not_found, err}
use managed_gitops.Util.Varchar.Bounds.{truncate_varchar-le}
use managed_gitops.Util.Operations.{
  OperationState, in_progress, Operation, OperationCr, GitopsEngineInstance, is_waiting,
  is_concluded,
}
use managed_gitops.ClusterAgent.Resources.{Effect}
use managed_gitops.ClusterAgent.Operations.{
  Handlers, Answers, Write, update_row, apply, Internal, begin, with_instance, with_row, with_cr,
  internal_perform_task, Attempt, human_readable_state_length, readable, state_of, outcome_row,
  reported, conclude, unwind, stop, with_database, perform_task,
}
use managed_gitops.ClusterAgent.Operations.Runs.{
  Runs, runs, begun_row, Attempted, skipped, resumed, started, not_started, begin-Attempted,
}

-- The changes of state that an attempt may store.
pub data Legal : OperationState → OperationState → Type 0 where
  begins : {s : OperationState} → is_waiting s ≡ true → Legal s in_progress
  goes_on :
      {s : OperationState} → is_waiting s ≡ false → is_concluded s ≡ false → Legal s in_progress
  ends :
      {s t : OperationState}
      → is_waiting s ≡ false
      → is_concluded s ≡ false
      → is_concluded t ≡ true
      → Legal s t

-- The other fields of the row: the message still fits in its column.
pub record Keeps (row next : Operation) : Type 0 where
  pub same_id : next.operation_id ≡ row.operation_id
  pub same_instance : next.instance_id ≡ row.instance_id
  pub same_resource : next.resource_id ≡ row.resource_id
  pub same_type : next.resource_type ≡ row.resource_type
  pub same_owner : next.operation_owner_user_id ≡ row.operation_owner_user_id
  pub fits :
      count row.human_readable_state ≤ human_readable_state_length
      → count next.human_readable_state ≤ human_readable_state_length

-- Each update of the row is a legal change of the one before it.
pub data Moves : Operation → List Write → Type 0 where
  quiet : {row : Operation} → Moves row []
  acts : {row : Operation} {ws : List Write} (e : Effect) → Moves row ws → Moves row (apply e ∷ ws)
  stores :
      {row : Operation} {ws : List Write} (next : Operation)
      → Legal row.state next.state
      → Keeps row next
      → Moves next ws
      → Moves row (update_row next ∷ ws)

acts-Moves : (row : Operation) (es : List Effect) → Moves row (map apply es)
acts-Moves row [] = quiet
acts-Moves row (e ∷ es) = acts e (acts-Moves row es)

effects-Moves :
    (row : Operation) (es : List Effect) (ws : List Write)
    → Moves row ws
    → Moves row (map apply es ++ ws)
effects-Moves row [] ws m = m
effects-Moves row (e ∷ es) ws m = acts e (effects-Moves row es ws m)

state_of-Legal :
    (s : OperationState) (retry : Bool) (error : Option String)
    → is_waiting s ≡ false
    → is_concluded s ≡ false
    → Legal s (state_of retry error)
state_of-Legal s true error w c = goes_on w c
state_of-Legal s false none w c = ends w c refl
state_of-Legal s false (some e) w c = ends w c refl

readable_fits :
    (old : String) (error : Option String)
    → count old ≤ human_readable_state_length
    → count (readable old error) ≤ human_readable_state_length
readable_fits old none h = h
readable_fits old (some e) h = truncate_varchar-le e human_readable_state_length

next_state-Legal :
    (now : ℕ) (retry : Bool) (error : Option String) (row : Operation)
    → is_waiting row.state ≡ false
    → is_concluded row.state ≡ false
    → Legal row.state (outcome_row now retry error row).state
unfolding outcome_row
next_state-Legal now retry error row w c = state_of-Legal row.state retry error w c

outcome_row-Keeps :
    (now : ℕ) (retry : Bool) (error : Option String) (row : Operation)
    → Keeps row (outcome_row now retry error row)
unfolding outcome_row
outcome_row-Keeps now retry error row = record {
  same_id = refl;
  same_instance = refl;
  same_resource = refl;
  same_type = refl;
  same_owner = refl;
  fits = readable_fits row.human_readable_state error;
}

begun_row-Keeps : (row : Operation) → Keeps row (begun_row row)
begun_row-Keeps row = record {
  same_id = refl;
  same_instance = refl;
  same_resource = refl;
  same_type = refl;
  same_owner = refl;
  fits = λ h. h;
}

pub reported_writes :
    (ws : List Write) (retry : Bool) (error failure : Option String)
    → (reported ws retry error failure).writes ≡ ws
reported_writes ws retry error none = refl
reported_writes ws retry error (some e) = refl

-- The writes of an attempt: those of the run, and then the outcome, unless there is no row or it
-- has concluded.
conclude-Moves :
    (a : Answers) (row : Operation) (o : Internal)
    → is_waiting row.state ≡ false
    → is_concluded row.state ≡ false
    → Runs row o
    → Moves row (conclude a o o.row).writes
unfolding conclude
conclude-Moves a row _ w c (runs es none retry error panicked r) = acts-Moves row es
conclude-Moves a row _ w c (runs es (some x) retry error panicked r) =
    let next = outcome_row a.now retry error row in
    rw r (
      rw c (
        rw
          (reported_writes (map apply es ++ (update_row next ∷ [])) retry error
            (a.update_outcome next))
          (effects-Moves row es (update_row next ∷ []) (
            stores next (next_state-Legal a.now retry error row w c)
              (outcome_row-Keeps a.now retry error row) quiet))))

-- Without a row nothing more is written.
no_row_writes : (a : Answers) (o : Internal) → (conclude a o none).writes ≡ o.writes
unfolding conclude
no_row_writes a o = refl

-- An attempt with one more write before it.
abbrev pub preceded : Write → Attempt → Attempt
preceded w t = record t { writes = w ∷ t.writes }

reported_first :
    (w : Write) (ws : List Write) (retry : Bool) (error failure : Option String)
    → reported (w ∷ ws) retry error failure ≡ preceded w (reported ws retry error failure)
reported_first w ws retry error none = refl
reported_first w ws retry error (some e) = refl

pub conclude_first :
    (a : Answers) (w : Write) (o : Internal) (r : Option Operation)
    → conclude a (record o { writes = w ∷ o.writes }) r ≡ preceded w (conclude a o r)
unfolding conclude
conclude_first a w o none = refl
conclude_first a w o (some row) = elim (Bool-cases (is_concluded row.state)) [
  | inl c ↦ rw c refl
  | inr c ↦ rw c (
      reported_first w (o.writes ++ (update_row (outcome_row a.now o.retry o.error row) ∷ []))
        o.retry o.error (a.update_outcome (outcome_row a.now o.retry o.error row)))
]

skipped_writes :
    (a : Answers) (row : Operation) (retry : Bool) (error : Option String)
    → is_concluded row.state ≡ true
    → (conclude a (stop (some row) retry error) (some row)).writes ≡ []
unfolding conclude
skipped_writes a row retry error c = rw c refl

attempt-Moves :
    (a : Answers) (row : Operation) (o : Internal)
    → Attempted row o
    → Moves row (conclude a o o.row).writes
attempt-Moves a row _ (skipped c) = rw (skipped_writes a row false none c) quiet
attempt-Moves a row o (resumed _ c w r) = conclude-Moves a row o w c r
attempt-Moves a row _ (started o w r) = rw (conclude_first a (update_row (begun_row row)) o o.row) (
    stores (begun_row row) (begins w) (begun_row-Keeps row)
      (conclude-Moves a (begun_row row) o refl refl r))
attempt-Moves a row _ (not_started e w) =
    rw (no_row_writes a _) (stores (begun_row row) (begins w) (begun_row-Keeps row) quiet)

-- A panic leaves the writes of the run.
panic-Moves : (row : Operation) (o : Internal) → Attempted row o → Moves row o.writes
panic-Moves row _ (skipped c) = quiet
panic-Moves row o (resumed _ c w (runs es r retry error p s)) = acts-Moves row es
panic-Moves row _ (started _ w (runs es r retry error p s)) =
    stores (begun_row row) (begins w) (begun_row-Keeps row) (acts-Moves (begun_row row) es)
panic-Moves row _ (not_started e w) = stores (begun_row row) (begins w) (begun_row-Keeps row) quiet

unwind-Moves :
    (a : Answers) (row : Operation) (o : Internal) (panicked : Bool)
    → Attempted row o
    → Moves row (unwind a o panicked).writes
unfolding unwind
unwind-Moves a row o false t = attempt-Moves a row o t
unwind-Moves a row o true t = panic-Moves row o t

-- Without a row, a run that writes nothing writes nothing.
stop_writes :
    (a : Answers) (retry : Bool) (error : Option String)
    → (unwind a (stop none retry error) false).writes ≡ []
unfolding unwind conclude
stop_writes a retry error = refl

-- The row that the attempt reads, if it reads one.
abbrev pub found : Result Operation → Option Operation
found (ok row) = some row
found not_found = none
found (err e) = none

abbrev pub named : Answers → Result OperationCr → Option Operation
named a (ok cr) = found (a.get_row cr.operation_id)
named a not_found = none
named a (err e) = none

abbrev pub Follows : Option Operation → List Write → Type 0
Follows none ws = ws ≡ []
Follows (some row) ws = Moves row ws

empty_Follows : (r : Option Operation) (ws : List Write) → ws ≡ [] → Follows r ws
empty_Follows none ws e = e
empty_Follows (some row) ws e = rw e quiet

module _ (a : Answers) (h : Handlers) where
  instance_Follows :
      (row : Operation) (cr : OperationCr) (r : Result GitopsEngineInstance)
      → Moves row
          (unwind a (with_instance a h row cr r) (with_instance a h row cr r).panicked).writes
  unfolding with_instance
  instance_Follows row cr (ok i) = elim (Bool-cases (cr.namespace == i.namespace_name)) [
    | inl b ↦ rw b (
        unwind-Moves a row (begin a h row cr i) (begin a h row cr i).panicked
          (begin-Attempted a h row cr i))
    | inr b ↦ rw b (rw (stop_writes a _ _) quiet)
  ]
  instance_Follows row cr not_found = rw (stop_writes a _ _) quiet
  instance_Follows row cr (err e) = rw (stop_writes a _ _) quiet

  row_Follows :
      (cr : OperationCr) (r : Result Operation)
      → Follows (found r) (unwind a (with_row a h cr r) (with_row a h cr r).panicked).writes
  unfolding with_row
  row_Follows cr (ok row) = instance_Follows row cr (a.get_instance row.instance_id)
  row_Follows cr not_found = stop_writes a _ _
  row_Follows cr (err e) = stop_writes a _ _

  cr_Follows :
      (r : Result OperationCr)
      → Follows (named a r) (unwind a (with_cr a h r) (with_cr a h r).panicked).writes
  unfolding with_cr
  cr_Follows (ok cr) = row_Follows cr (a.get_row cr.operation_id)
  cr_Follows not_found = stop_writes a _ _
  cr_Follows (err e) = stop_writes a _ _

  database_Follows : (r : Option String) → Follows (named a a.get_cr) (with_database a h r).writes
  unfolding with_database internal_perform_task
  database_Follows none = cr_Follows a.get_cr
  database_Follows (some e) = empty_Follows (named a a.get_cr) _ refl

  -- Whatever the database, the cluster and the handlers answer: an attempt that reads no row writes
  -- nothing; one that reads a row stores it only along the states of an Operation. A row that waits
  -- goes In_Progress before anything else is stored, one that is begun goes In_Progress again or is
  -- Completed or Failed, and one that has concluded is never stored again. The ids, the kind of
  -- resource and the owner stay, and the message that is stored stays within its column.
  pub perform_task-Follows : Follows (named a a.get_cr) (perform_task a h).writes
  unfolding perform_task
  perform_task-Follows = database_Follows a.database_error
