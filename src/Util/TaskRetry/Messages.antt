-- ===== src/Util/TaskRetry/Messages.antt =====
-- The messages of backend-shared/util/task_retry_loop.go: a completed task, a removed one.
use managed_gitops.Base.{
  ◌≡◌, refl, Bool, true, false, none, some, [], ◌∷◌, ◌++◌, String, ◌==◌, eq_iff, eq_refl, inl, inr,
  arith, Option-cases, if◌then◌else◌,
}
use managed_gitops.Base.Int.{ℤ, ◌≤ℤ◌, ◌+ℤ◌}
use managed_gitops.Base.Map.{lookup, delete, has, lookup-delete, lookup-insert_self}
use managed_gitops.Util.Backoff.{increase_and_return_new_duration}
use managed_gitops.Util.TaskRetry.{
  WaitingTaskEntry, InternalTaskEntry, LoopState, Message, add_task_msg, remove_task_msg,
  work_completed, tick, malformed, Env, add_task, handle, retry_entry, task_runner, panicked,
}
use managed_gitops.Util.Backoff.Bounds.{increase_bounds}
use managed_gitops.Util.TaskRetry.Invariant.{Inv, lookup-NoCancel}

module _ {Task : Type 0} (env : Env) (s : LoopState Task) (v : Inv s) where
  -- A message is handled without a call of a cancel function, as the active entries have none.
  pub never_cancels : (m : Message Task) → (handle env m s).1 ≡ none
  unfolding handle
  never_cancels (add_task_msg name task backoff) = refl
  never_cancels (remove_task_msg name) = elim (Option-cases (lookup name s.active)) [
    | inl e ↦ rw e refl
    | inr (x, e) ↦ rw e ((lookup-NoCancel name s.active x v.uncancelled e).0)
  ]
  never_cancels (work_completed name retry) = refl
  never_cancels tick = refl
  never_cancels malformed = refl

  pub completed_parts :
      (name : String) (retry : Bool) (e : InternalTaskEntry Task)
      → lookup name s.active ≡ some e
      → let s' = (handle env (work_completed name retry) s).0 in
        (s'.active ≡ delete name s.active)
        × (s'.container ≡ (if retry then add_task s.container (retry_entry env e) else s.container))
        × (e.name ≡ name)
  unfolding handle
  completed_parts name retry e found =
      let own = (lookup-NoCancel name s.active e v.uncancelled found).1 in
      rw found (ground (arith, own, eq_iff e.name name))

  completed_active :
      (name : String) (retry : Bool) (e : InternalTaskEntry Task) (k : String)
      → lookup name s.active ≡ some e
      → lookup k (handle env (work_completed name retry) s).0.active
        ≡ (if name == k then none else lookup k s.active)
  completed_active name retry e k found =
      ground (arith, completed_parts name retry e found, lookup-delete name k s.active)

  -- An active task that completes with nothing to retry leaves the active map, no other task
  -- does, and the waiting tasks stay as they are.
  pub completed_leaves :
      (name : String) (e : InternalTaskEntry Task) (k : String)
      → lookup name s.active ≡ some e
      → let s' = (handle env (work_completed name false) s).0 in
        (lookup k s'.active ≡ (if name == k then none else lookup k s.active))
        × (s'.container ≡ s.container)
  completed_leaves name e k found =
      (completed_active name false e k found, (completed_parts name false e found).1)

  -- An active task that completes and is to be retried leaves the active map, and no other task
  -- does. If no task of its name waits, it is put at the end of the queue and indexed by its
  -- name, with the same task and with a retry time that lies d after now for a d between Min and
  -- Max, provided that Min ≤ Max; the tasks that waited before keep their places.
  pub completed_requeued :
      (name : String) (e : InternalTaskEntry Task) (k : String)
      → lookup name s.active ≡ some e
      → has name s.waiting_tasks_by_name ≡ false
      → e.backoff.min ≤ℤ e.backoff.max
      → let s' = (handle env (work_completed name true) s).0 in
        (lookup k s'.active ≡ (if name == k then none else lookup k s.active))
        × (w : WaitingTaskEntry Task) × (d : ℤ) × (s'.waiting_tasks ≡ s.waiting_tasks ++ (w ∷ []))
        × (lookup name s'.waiting_tasks_by_name ≡ some w)
        × (w.name ≡ name)
        × (w.task ≡ e.task)
        × (w.next_scheduled_retry_time ≡ some (env.now +ℤ d))
        × (e.backoff.min ≤ℤ d)
        × (d ≤ℤ e.backoff.max)
  unfolding add_task
  completed_requeued name e k found new ordered =
      let (gone, c, own) = completed_parts name true e found in
      let b = increase_bounds env.floats env.draw e.backoff ordered in
      let w : WaitingTaskEntry Task = retry_entry env e in
      (
        completed_active name true e k found,
        w,
        (increase_and_return_new_duration env.floats env.draw e.backoff).0,
        rw c (rw own (rw new refl)),
        rw c (rw own (rw new (lookup-insert_self name _ s.waiting_tasks_by_name))),
        own,
        refl,
        refl,
        b.0,
        b.1,
      )

  -- A task that panics is not retried: CatchPanic leaves shouldRetry false, so the task leaves
  -- the active map and the waiting tasks stay as they are.
  pub panicked_dropped :
      (name : String) (e : InternalTaskEntry Task) (message : String)
      → lookup name s.active ≡ some e
      → let s' = (handle env (task_runner e (panicked message)) s).0 in
        (has name s'.active ≡ false) × (s'.container ≡ s.container)
  unfolding task_runner
  panicked_dropped name e message found =
      let p = completed_leaves name e name found in
      rw (completed_parts name false e found).2 (rw p.0 (ground (arith, eq_refl name)), p.1)
