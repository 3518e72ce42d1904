-- ===== src/Util/TaskRetry/System.antt =====
-- The task retry loop of backend-shared/util/task_retry_loop.go with the goroutines it started.
use managed_gitops.Base.{
  ℕ, ◌+◌, ◌≤◌, suc, ◌≡◌, refl, Bool, true, false, Option, none, some, List, [], ◌∷◌, ◌++◌, String,
  ◌==◌, eq_iff, eq_refl, inl, inr, Bool-cases, arith, length, length-append, occurs, bit, is_some,
}
use managed_gitops.Base.Int.{ℤ}
use managed_gitops.Base.Map.{
  Map, lookup, insert, delete, has, lookup-delete, HasKeys, insert-HasKeys, delete-HasKeys,
  length-delete, length-insert_new,
}
use managed_gitops.Util.TaskRetry.{
  WaitingTaskEntry, InternalTaskEntry, LoopState, Message, add_task_msg, work_completed, tick,
  malformed, Env, handle, task_runner, Performed, performed, panicked, schedule, pass, can_start,
  new_task_entry, is_work_available, initial, max_active_runners,
}
use managed_gitops.Util.Backoff.{ExponentialBackoff}
use managed_gitops.Util.TaskRetry.Pass.{active_names, waiting_names, pass-active}
use managed_gitops.Util.TaskRetry.Invariant.{Inv, initial-Inv, schedule-Inv, handle-Inv}
use managed_gitops.Util.TaskRetry.Messages.{completed_parts, never_cancels}

-- The loop, and the goroutines that run a task and have not sent their message yet.
pub record System (Task : Type 0) : Type 0 where
  pub loop : LoopState Task
  pub running : List (InternalTaskEntry Task)

abbrev pub scheduled : {Task : Type 0} → (ℕ → ℤ) → System Task → System Task
scheduled clock y =
    let (s, started) = schedule clock y.loop in record { loop = s; running = y.running ++ started }

-- The messages that do not come from a goroutine. Nothing in the repository sends removeTask.
pub data FromOutside {Task : Type 0} : Message Task → Type 0 where
  added :
      (name : String) (task : Task) (b : ExponentialBackoff)
      → FromOutside (add_task_msg name task b)
  ticked : FromOutside tick
  garbled : FromOutside malformed

-- One iteration of the loop: it schedules, then receives one message, from outside or from one of
-- the running goroutines, which ends.
pub data Step {Task : Type 0} (y : System Task) : System Task → Type 0 where
  receive :
      {m : Message Task} (clock : ℕ → ℤ) (env : Env)
      → FromOutside m
      → Step y (record {
        loop = (handle env m (scheduled clock y).loop).0;
        running = (scheduled clock y).running;
      })
  finish :
      (clock : ℕ → ℤ) (env : Env) (xs ys : List (InternalTaskEntry Task))
      (e : InternalTaskEntry Task) (p : Performed)
      → (scheduled clock y).running ≡ xs ++ (e ∷ ys)
      → Step y (record {
        loop = (handle env (task_runner e p) (scheduled clock y).loop).0;
        running = xs ++ ys;
      })

pub data Reach {Task : Type 0} : System Task → Type 0 where
  begin : Reach (record { loop = initial; running = [] })
  next : {y z : System Task} → Reach y → Step y z → Reach z

-- The active map is a map, and holds exactly the running goroutines, each once.
pub record IsSound {Task : Type 0} (y : System Task) : Type 0 where
  pub inv : Inv y.loop
  pub keyed : HasKeys y.loop.active
  pub counted : length y.running ≡ length y.loop.active
  pub matched : (k : String) → occurs k (active_names y.running) ≡ bit (has k y.loop.active)

inactive :
    {Task : Type 0} (now : ℤ) (t : WaitingTaskEntry Task) (active : Map (InternalTaskEntry Task))
    → can_start now t active ≡ true
    → lookup t.name active ≡ none
unfolding can_start
inactive now t active go = ground arith

pass-keys :
    {Task : Type 0} (clock : ℕ → ℤ) (i : ℕ) (ts : List (WaitingTaskEntry Task))
    (by_name : Map (WaitingTaskEntry Task)) (active : Map (InternalTaskEntry Task))
    → HasKeys active
    → let r = pass clock i ts by_name active in
      HasKeys r.active × (length r.active ≡ length r.started + length active)
unfolding pass
pass-keys clock i [] by_name active h = (h, omega arith)
pass-keys clock i (t ∷ ts) by_name active h = elim (Bool-cases (can_start (clock i) t active)) [
  | inl go ↦
      let ih =
        pass-keys clock (suc i) ts (delete t.name by_name)
          (insert t.name (new_task_entry (clock i) t) active)
          (insert-HasKeys t.name (new_task_entry (clock i) t) active h) in
      rw go (
        ih.0,
        omega (
          arith,
          ih.1,
          length-insert_new t.name (new_task_entry (clock i) t) active
              (inactive (clock i) t active go),
        ),
      )
  | inr stay ↦ rw stay (pass-keys clock (suc i) ts by_name active h)
]

names-append :
    {Task : Type 0} (k : String) (xs ys : List (InternalTaskEntry Task))
    → occurs k (active_names (xs ++ ys)) ≡ occurs k (active_names xs) + occurs k (active_names ys)
unfolding occurs
names-append k [] ys = omega arith
names-append k (x ∷ xs) ys = omega (arith, names-append k xs ys)

schedule-keys :
    {Task : Type 0} (clock : ℕ → ℤ) (s : LoopState Task)
    → HasKeys s.active
    → let (s', started) = schedule clock s in
      HasKeys s'.active × (length s'.active ≡ length s.active + length started)
unfolding schedule is_work_available
schedule-keys clock s h =
    ground (arith, pass-keys clock 0 s.waiting_tasks s.waiting_tasks_by_name s.active h)

schedule-matched :
    {Task : Type 0} (clock : ℕ → ℤ) (s : LoopState Task) (k : String)
    → let (s', started) = schedule clock s in
      bit (has k s'.active) ≡ occurs k (active_names started) + bit (has k s.active)
unfolding schedule is_work_available occurs
schedule-matched clock s k =
    ground (arith, pass-active clock k 0 s.waiting_tasks s.waiting_tasks_by_name s.active)

scheduled-IsSound :
    {Task : Type 0} (clock : ℕ → ℤ) (y : System Task) → IsSound y → IsSound (scheduled clock y)
scheduled-IsSound clock y v =
    let keys = schedule-keys clock y.loop v.keyed in
    record {
      inv = schedule-Inv clock y.loop v.inv;
      keyed = keys.0;
      counted = omega (arith, keys.1, v.counted, length-append y.running (schedule clock y.loop).1);
      matched = λ k. omega (
        arith,
        v.matched k,
        schedule-matched clock y.loop k,
        names-append k y.running (schedule clock y.loop).1,
      );
    }

receive-active :
    {Task : Type 0} (env : Env) {m : Message Task} (s : LoopState Task)
    → FromOutside m
    → (handle env m s).0.active ≡ s.active
unfolding handle
receive-active env s (added name task b) = refl
receive-active env s ticked = refl
receive-active env s garbled = refl

some_of_bit : {A : Type 0} (o : Option A) (n : ℕ) → bit (is_some o) ≡ suc n → (a : A) × (o ≡ some a)
some_of_bit none n h = absurd (omega arith)
some_of_bit (some a) n h = (a, refl)

module _ {Task : Type 0} (env : Env) (y : System Task) (v : IsSound y)
    (xs ys : List (InternalTaskEntry Task)) (e : InternalTaskEntry Task)
    (split : y.running ≡ xs ++ (e ∷ ys)) where
  split-occurs :
      (k : String)
      → occurs k (active_names y.running) ≡ bit (e.name == k) + occurs k (active_names (xs ++ ys))
  unfolding occurs
  split-occurs k = rw split (omega (arith, names-append k xs (e ∷ ys), names-append k xs ys))

  split-length : length y.running ≡ suc (length (xs ++ ys))
  split-length = rw split (omega (arith, length-append xs (e ∷ ys), length-append xs ys))

  running-active : (x : InternalTaskEntry Task) × (lookup e.name y.loop.active ≡ some x)
  running-active =
      some_of_bit (lookup e.name y.loop.active) (occurs e.name (active_names (xs ++ ys)))
        (ground (arith, v.matched e.name, split-occurs e.name, eq_refl e.name))

  finish-IsSound :
      (retry : Bool)
      → IsSound (record {
        loop = (handle env (work_completed e.name retry) y.loop).0;
        running = xs ++ ys;
      })
  finish-IsSound retry =
      let found = running-active in
      let gone = (completed_parts env y.loop v.inv e.name retry found.0 found.1).0 in
      record {
        inv = handle-Inv env (work_completed e.name retry) y.loop v.inv;
        keyed = rw gone (delete-HasKeys e.name y.loop.active v.keyed);
        counted = rw gone (
            omega (
              arith,
              v.counted,
              length-delete e.name y.loop.active v.keyed (rw (found.1)),
              split-length,
            ));
        matched = λ k. rw gone (
            ground (
              arith,
              v.matched k,
              split-occurs k,
              eq_iff e.name k,
              lookup-delete e.name k y.loop.active,
            ));
      }

-- Every iteration of the loop keeps the system sound.
pub Step-IsSound : {Task : Type 0} {y z : System Task} → Step y z → IsSound y → IsSound z
Step-IsSound {y} (receive {m} clock env o) v =
    let w = scheduled-IsSound clock y v in
    let same = receive-active env (scheduled clock y).loop o in
    record {
      inv = handle-Inv env m (scheduled clock y).loop w.inv;
      keyed = rw same w.keyed;
      counted = rw same w.counted;
      matched = λ k. rw same (w.matched k);
    }
Step-IsSound {y} (finish clock env xs ys e (performed retry err) split) v =
    unfold task_runner in
    finish-IsSound env (scheduled clock y) (scheduled-IsSound clock y v) xs ys e split retry
Step-IsSound {y} (finish clock env xs ys e (panicked err) split) v =
    unfold task_runner in
    finish-IsSound env (scheduled clock y) (scheduled-IsSound clock y v) xs ys e split false

Reach-IsSound : {Task : Type 0} {y : System Task} → Reach y → IsSound y
unfolding initial lookup occurs
Reach-IsSound begin = record { inv = initial-Inv; keyed = tt; counted = refl; matched = λ k. refl }
Reach-IsSound (next r st) = Step-IsSound st (Reach-IsSound r)

-- In every state that the loop can reach, at most twenty goroutines run a task, at most one runs
-- a task of a given name, and it runs exactly while the active map holds the name; no name waits
-- twice, and the index of the waiting tasks holds exactly the names that wait.
pub Reach-exclusive :
    {Task : Type 0} {y : System Task} (k : String)
    → Reach y
    → (length y.running ≤ max_active_runners)
      × (occurs k (active_names y.running) ≡ bit (has k y.loop.active))
      × (occurs k (waiting_names y.loop.waiting_tasks) ≡ bit (has k y.loop.waiting_tasks_by_name))
Reach-exclusive k r =
    let v = Reach-IsSound r in
    (omega (arith, v.counted, v.inv.bounded), v.matched k, v.inv.indexed k)

-- In every state that the loop can reach, no message makes it call a cancel function, a message
-- that removes an active task included: startNewTask stores an entry before it sets its function.
pub cancels_nothing :
    {Task : Type 0} {y : System Task} (clock : ℕ → ℤ) (env : Env) (m : Message Task)
    → Reach y
    → (handle env m (scheduled clock y).loop).1 ≡ none
cancels_nothing {y = y} clock env m r =
    let v = scheduled-IsSound clock y (Reach-IsSound r) in never_cancels env _ v.inv m
