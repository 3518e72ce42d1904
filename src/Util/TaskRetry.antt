-- ===== src/Util/TaskRetry.antt =====
-- backend-shared/util/task_retry_loop.go: the task retry loop.
-- The two maps of the loop are association lists; times are nanoseconds since a fixed instant.
-- `clock i` is what time.Now() reads when the scheduling pass is at the i-th waiting task.
pub mod Pass
pub mod Invariant
pub mod Maximal
pub mod Messages
pub mod System
mod Tests
use managed_gitops.Base.{
  ℕ, ◌+◌, suc, Bool, true, false, Option, none, some, List, [], ◌∷◌, ◌++◌, ◌&&◌, not, String, ltb,
  ◌==◌, length, is_nil, is_some, if◌then◌else◌,
}
use managed_gitops.Base.Int.{ℤ, pos, ◌+ℤ◌, lt_ℤ}
use managed_gitops.Base.Map.{Map, lookup, insert, delete, has}
use managed_gitops.Util.Backoff.{Float64, ExponentialBackoff, increase_and_return_new_duration}

-- A task is a value of `Task`, of which the loop knows nothing; errors are only logged.
pub record WaitingTaskEntry (Task : Type 0) : Type 0 where
  pub name : String
  pub task : Task
  pub backoff : ExponentialBackoff
  pub next_scheduled_retry_time : Option ℤ

-- taskContext is written and never read, so it is left out.
pub record InternalTaskEntry (Task : Type 0) : Type 0 where
  pub name : String
  pub task : Task
  pub backoff : ExponentialBackoff
  -- the task whose context the function cancels
  pub cancel_func : Option String
  pub creation_time : ℤ

pub record WaitingTaskContainer (Task : Type 0) : Type 0 where
  pub waiting_tasks_by_name : Map (WaitingTaskEntry Task)
  pub waiting_tasks : List (WaitingTaskEntry Task)

pub is_work_available : {Task : Type 0} → WaitingTaskContainer Task → Bool
is_work_available c = not (is_nil c.waiting_tasks)

unfoldable pub add_task :
    {Task : Type 0} → WaitingTaskContainer Task → WaitingTaskEntry Task → WaitingTaskContainer Task
add_task c entry = if has entry.name c.waiting_tasks_by_name then c else record {
  waiting_tasks_by_name = insert entry.name entry c.waiting_tasks_by_name;
  waiting_tasks = c.waiting_tasks ++ (entry ∷ []);
}

abbrev pub max_active_runners : ℕ
max_active_runners = 20

-- `task.nextScheduledRetryTime == nil || time.Now().After(*task.nextScheduledRetryTime)`
abbrev pub is_due : {Task : Type 0} → ℤ → WaitingTaskEntry Task → Bool
is_due now t = elim t.next_scheduled_retry_time [ none ↦ true | some at ↦ lt_ℤ at now ]

-- The entry that startNewTask puts into the active map. The context and the cancel function are
-- stored after that, in the local copy, which nothing reads.
abbrev pub new_task_entry : {Task : Type 0} → ℤ → WaitingTaskEntry Task → InternalTaskEntry Task
new_task_entry now t = record {
  name = t.name;
  task = t.task;
  backoff = t.backoff;
  cancel_func = none;
  creation_time = now;
}

-- The variables that one scheduling pass writes, with the goroutines that it started.
pub record PassResult (Task : Type 0) : Type 0 where
  pub kept : List (WaitingTaskEntry Task)
  pub by_name : Map (WaitingTaskEntry Task)
  pub active : Map (InternalTaskEntry Task)
  pub started : List (InternalTaskEntry Task)

-- `startTask`, and room for one more
pub can_start : {Task : Type 0} → ℤ → WaitingTaskEntry Task → Map (InternalTaskEntry Task) → Bool
can_start now t active =
    is_due now t && not (has t.name active) && ltb (length active) max_active_runners

-- The `for idx := range waitingTasks` loop, with startNewTask inlined.
pub pass :
    {Task : Type 0}
    → (ℕ → ℤ)
    → ℕ
    → List (WaitingTaskEntry Task)
    → Map (WaitingTaskEntry Task)
    → Map (InternalTaskEntry Task)
    → PassResult Task
pass clock i [] by_name active = record {
  kept = [];
  by_name = by_name;
  active = active;
  started = [];
}
pass clock i (t ∷ ts) by_name active =
    let entry = new_task_entry (clock i) t in
    let r = pass clock (suc i) ts (delete t.name by_name) (insert t.name entry active) in
    let s = pass clock (suc i) ts by_name active in
    if can_start (clock i) t active
    then record r { started = entry ∷ r.started }
    else record s { kept = t ∷ s.kept }

-- The local variables of internalTaskRetryLoop.
pub record LoopState (Task : Type 0) : Type 0 where
  pub active : Map (InternalTaskEntry Task)
  pub container : WaitingTaskContainer Task
  pub open container use *

unfoldable pub initial : {Task : Type 0} → LoopState Task
initial = record {
  active = [];
  container = record { waiting_tasks_by_name = []; waiting_tasks = [] };
}

-- "Queue more running tasks if we have resources": the new state and the started goroutines.
pub schedule :
    {Task : Type 0} → (ℕ → ℤ) → LoopState Task → LoopState Task × List (InternalTaskEntry Task)
unfolding is_work_available
schedule clock s =
    let r = pass clock 0 s.waiting_tasks s.waiting_tasks_by_name s.active in
    if is_work_available s.container && ltb (length s.active) max_active_runners
    then (
      record {
        active = r.active;
        container = record { waiting_tasks_by_name = r.by_name; waiting_tasks = r.kept };
      },
      r.started,
    )
    else (s, [])

pub data Message (Task : Type 0) : Type 0 where
  add_task_msg : String → Task → ExponentialBackoff → Message Task
  remove_task_msg : String → Message Task
  -- name and shouldRetry; resultErr is not read
  work_completed : String → Bool → Message Task
  tick : Message Task
  -- an unknown type, or a payload that is not of the type's struct: logged
  malformed : Message Task

-- The time and the random draw that a message's handler reads, and the float arithmetic.
pub record Env : Type 0 where
  pub floats : Float64
  pub now : ℤ
  pub draw : ℕ

pub handle_remove :
    {Task : Type 0}
    → String
    → Option (InternalTaskEntry Task)
    → LoopState Task
    → LoopState Task × Option String
handle_remove name none s = (s, none)
handle_remove name (some entry) s = (record s { active = delete name s.active }, entry.cancel_func)

-- The entry that goes back to the waiting tasks when a task is to be retried.
abbrev pub retry_entry : {Task : Type 0} → Env → InternalTaskEntry Task → WaitingTaskEntry Task
retry_entry env entry =
    let (d, b) = increase_and_return_new_duration env.floats env.draw entry.backoff in
    record {
      name = entry.name;
      task = entry.task;
      backoff = b;
      next_scheduled_retry_time = some (env.now +ℤ d);
    }

pub handle_completed :
    {Task : Type 0}
    → Env
    → String
    → Bool
    → Option (InternalTaskEntry Task)
    → LoopState Task
    → LoopState Task
handle_completed env name retry none s = s
handle_completed env name retry (some entry) s =
    if not (entry.name == name)
    then s
    else if retry
    then record {
      active = delete name s.active;
      container = add_task s.container (retry_entry env entry);
    }
    else record s { active = delete name s.active }

-- The handler of a message, and the task whose context it cancels.
unfoldable pub handle :
    {Task : Type 0} → Env → Message Task → LoopState Task → LoopState Task × Option String
unfolding handle_remove handle_completed add_task
handle env (add_task_msg name task backoff) s = (
  record s {
    container =
        add_task s.container (record {
          name = name;
          task = task;
          backoff = backoff;
          next_scheduled_retry_time = none;
        });
  },
  none,
)
handle env (remove_task_msg name) s = handle_remove name (lookup name s.active) s
handle env (work_completed name retry) s =
    (handle_completed env name retry (lookup name s.active) s, none)
handle env tick s = (s, none)
handle env malformed s = (s, none)

-- What PerformTask does in a goroutine: it returns (shouldRetry, err), or it panics.
pub data Performed : Type 0 where
  performed : Bool → Option String → Performed
  panicked : String → Performed

-- internalStartTaskRunner: the message that the goroutine sends at the end. CatchPanic leaves
-- shouldRetry at its zero value when the task panics.
unfoldable pub task_runner : {Task : Type 0} → InternalTaskEntry Task → Performed → Message Task
task_runner entry (performed retry err) = work_completed entry.name retry
task_runner entry (panicked err) = work_completed entry.name false
