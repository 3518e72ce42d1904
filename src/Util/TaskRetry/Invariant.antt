-- ===== src/Util/TaskRetry/Invariant.antt =====
-- What holds of the state of the task retry loop between two messages.
use managed_gitops.Base.{
  ℕ, ◌+◌, ◌≤◌, suc, ◌≡◌, refl, Bool, true, false, Option, none, some, List, [], ◌∷◌, ◌++◌, String,
  ◌==◌, eq_iff, length, inl, inr, Bool-cases, arith, All, occurs, bit, occurs-Merge,
}
use managed_gitops.Base.Int.{ℤ}
use managed_gitops.Base.Map.{
  Map, lookup, insert, delete, has, lookup-insert, length-delete-le, All-insert, All-delete,
}
use managed_gitops.Util.TaskRetry.{
  WaitingTaskEntry, InternalTaskEntry, LoopState, Message, add_task_msg, remove_task_msg,
  work_completed, tick, malformed, Env, add_task, schedule, handle, handle_remove, handle_completed,
  is_work_available, pass, can_start, max_active_runners, new_task_entry, initial, retry_entry,
}
use managed_gitops.Util.TaskRetry.Pass.{waiting_names, pass-Merge, pass-index, pass-length}

-- `waitingTasksByName` and `waitingTasks` hold the same names, and no name waits twice.
abbrev pub IsIndexed : {Task : Type 0} → LoopState Task → Type 0
IsIndexed s =
    (k : String) → occurs k (waiting_names s.waiting_tasks) ≡ bit (has k s.waiting_tasks_by_name)

-- No entry of the active map has a cancel function.
abbrev pub NoCancel : {Task : Type 0} → String × InternalTaskEntry Task → Type 0
NoCancel (k, e) = (e.cancel_func ≡ none) × (e.name ≡ k)

pub record Inv {Task : Type 0} (s : LoopState Task) : Type 0 where
  pub indexed : IsIndexed s
  pub bounded : length s.active ≤ max_active_runners
  pub uncancelled : All NoCancel s.active

pub initial-Inv : {Task : Type 0} → Inv {Task = Task} initial
unfolding initial occurs lookup
initial-Inv = record { indexed = λ k. refl; bounded = omega arith; uncancelled = tt }

pub pass-NoCancel :
    {Task : Type 0} (clock : ℕ → ℤ) (i : ℕ) (ts : List (WaitingTaskEntry Task))
    (by_name : Map (WaitingTaskEntry Task)) (active : Map (InternalTaskEntry Task))
    → All NoCancel active
    → All NoCancel (pass clock i ts by_name active).active
unfolding pass
pass-NoCancel clock i [] by_name active h = h
pass-NoCancel clock i (t ∷ ts) by_name active h = elim (Bool-cases (can_start (clock i) t active)) [
  | inl go ↦ rw go (
      pass-NoCancel clock (suc i) ts (delete t.name by_name)
        (insert t.name (new_task_entry (clock i) t) active)
        (All-insert NoCancel t.name (new_task_entry (clock i) t) active (refl, refl) h))
  | inr stay ↦ rw stay (pass-NoCancel clock (suc i) ts by_name active h)
]

module _ {Task : Type 0} (clock : ℕ → ℤ) (s : LoopState Task) where
  pass-Inv :
      Inv s
      → let r = pass clock 0 s.waiting_tasks s.waiting_tasks_by_name s.active in
        Inv (record {
          active = r.active;
          container = record { waiting_tasks_by_name = r.by_name; waiting_tasks = r.kept };
        })
  pass-Inv v = record {
    indexed = λ k. omega (
      arith,
      occurs-Merge k (pass-Merge clock 0 s.waiting_tasks s.waiting_tasks_by_name s.active),
      pass-index clock 0 s.waiting_tasks s.waiting_tasks_by_name s.active
          (λ j. omega (arith, v.indexed j)) k,
      v.indexed k,
    );
    bounded = (pass-length clock 0 s.waiting_tasks s.waiting_tasks_by_name s.active v.bounded).0;
    uncancelled =
        pass-NoCancel clock 0 s.waiting_tasks s.waiting_tasks_by_name s.active v.uncancelled;
  }

  -- Scheduling keeps the invariant.
  pub schedule-Inv : Inv s → Inv (schedule clock s).0
  unfolding schedule is_work_available
  schedule-Inv v = ground (arith, pass-Inv v)

occurs-names_append :
    {Task : Type 0} (k : String) (ts : List (WaitingTaskEntry Task)) (t : WaitingTaskEntry Task)
    → occurs k (waiting_names (ts ++ (t ∷ []))) ≡ occurs k (waiting_names ts) + bit (t.name == k)
unfolding occurs
occurs-names_append k [] t = omega arith
occurs-names_append k (x ∷ ts) t = omega (arith, occurs-names_append k ts t)

-- Adding a task whose name already waits changes nothing; another one is indexed once.
pub add_task-IsIndexed :
    {Task : Type 0} (s : LoopState Task) (t : WaitingTaskEntry Task)
    → IsIndexed s
    → IsIndexed (record s { container = add_task s.container t })
unfolding add_task occurs
add_task-IsIndexed s t h k = ground (
  arith,
  h k,
  eq_iff t.name k,
  lookup-insert t.name k t s.waiting_tasks_by_name,
  occurs-names_append k s.waiting_tasks t,
)

deleted-Inv :
    {Task : Type 0} (k : String) (s : LoopState Task)
    → Inv s
    → Inv (record s { active = delete k s.active })
deleted-Inv k s v = record {
  indexed = v.indexed;
  bounded = omega (arith, v.bounded, length-delete-le k s.active);
  uncancelled = All-delete NoCancel k s.active v.uncancelled;
}

added-Inv :
    {Task : Type 0} (t : WaitingTaskEntry Task) (s : LoopState Task)
    → Inv s
    → Inv (record s { container = add_task s.container t })
added-Inv t s v = record {
  indexed = add_task-IsIndexed s t v.indexed;
  bounded = v.bounded;
  uncancelled = v.uncancelled;
}

handle_remove-Inv :
    {Task : Type 0} (k : String) (found : Option (InternalTaskEntry Task)) (s : LoopState Task)
    → Inv s
    → Inv (handle_remove k found s).0
unfolding handle_remove
handle_remove-Inv k none s v = v
handle_remove-Inv k (some e) s v = deleted-Inv k s v

handle_completed-Inv :
    {Task : Type 0} (env : Env) (k : String) (retry : Bool)
    (found : Option (InternalTaskEntry Task)) (s : LoopState Task)
    → Inv s
    → Inv (handle_completed env k retry found s)
unfolding handle_completed
handle_completed-Inv env k retry none s v = v
handle_completed-Inv env k true (some e) s v = elim (Bool-cases (e.name == k)) [
  | inl same ↦ rw same (added-Inv (retry_entry env e) _ (deleted-Inv k s v))
  | inr other ↦ rw other v
]
handle_completed-Inv env k false (some e) s v = elim (Bool-cases (e.name == k)) [
  | inl same ↦ rw same (deleted-Inv k s v)
  | inr other ↦ rw other v
]

-- The entry that a lookup finds satisfies what all entries do.
pub lookup-NoCancel :
    {Task : Type 0} (k : String) (m : Map (InternalTaskEntry Task)) (e : InternalTaskEntry Task)
    → All NoCancel m
    → lookup k m ≡ some e
    → (e.cancel_func ≡ none) × (e.name ≡ k)
unfolding lookup
lookup-NoCancel k [] e a h = cc
lookup-NoCancel k ((j, w) ∷ m) e a h = ground (arith, eq_iff j k, lookup-NoCancel k m e)

-- Every message keeps the invariant.
pub handle-Inv :
    {Task : Type 0} (env : Env) (m : Message Task) (s : LoopState Task)
    → Inv s
    → Inv (handle env m s).0
unfolding handle
handle-Inv env (add_task_msg name task backoff) s v = record {
  indexed = add_task-IsIndexed s _ v.indexed;
  bounded = v.bounded;
  uncancelled = v.uncancelled;
}
handle-Inv env (remove_task_msg name) s v = handle_remove-Inv name (lookup name s.active) s v
handle-Inv env (work_completed name retry) s v =
    handle_completed-Inv env name retry (lookup name s.active) s v
handle-Inv env tick s v = v
handle-Inv env malformed s v = v
