-- ===== src/Util/TaskRetry/Tests.antt =====
-- Witnesses and runs of the task retry loop.
use managed_gitops.Base.{
  ℕ, ◌≤◌, ◌≡◌, refl, true, false, none, some, [], ◌∷◌, ◌==◌, arith, All, length, occurs, bit,
}
use managed_gitops.Base.Int.{ℤ, pos, ◌+ℤ◌, ◌≤ℤ◌}
use managed_gitops.Base.Map.{has, lookup}
use managed_gitops.Util.Backoff.{ExponentialBackoff}
use managed_gitops.Util.TaskRetry.{
  WaitingTaskEntry, InternalTaskEntry, LoopState, work_completed, add_task_msg, Env, handle,
  schedule, initial, max_active_runners, remove_task_msg, pass, can_start, is_work_available,
}
use managed_gitops.Util.TaskRetry.Pass.{active_names, waiting_names}
use managed_gitops.Util.TaskRetry.Invariant.{Inv}
use managed_gitops.Util.TaskRetry.Maximal.{HeldBack, schedule_maximal}
use managed_gitops.Util.TaskRetry.Messages.{completed_requeued}
use managed_gitops.Util.TaskRetry.System.{
  System, Reach, begin, next, receive, added, scheduled, Reach-exclusive, cancels_nothing,
}

abbrev backoff : ExponentialBackoff
backoff = record { factor = 2; curr = none; min = pos 100; max = pos 1000; jitter = false }

abbrev env : Env
env = record { floats = record { scale = λ f d. d; spread = λ r d. d }; now = pos 50; draw = 0 }

abbrev running_entry : InternalTaskEntry ℕ
running_entry = record {
  name = "sync";
  task = 7;
  backoff = backoff;
  cancel_func = none;
  creation_time = pos 1;
}

abbrev waiting_entry : WaitingTaskEntry ℕ
waiting_entry = record {
  name = "clean";
  task = 8;
  backoff = backoff;
  next_scheduled_retry_time = some (pos 90);
}

-- One task runs and another waits.
abbrev busy : LoopState ℕ
busy = record {
  active = ("sync", running_entry) ∷ [];
  container = record {
    waiting_tasks_by_name = ("clean", waiting_entry) ∷ [];
    waiting_tasks = waiting_entry ∷ [];
  };
}

busy-Inv : Inv busy
unfolding occurs lookup
busy-Inv = record {
  indexed = λ k. ground arith;
  bounded = omega arith;
  uncancelled = ((refl, refl), tt);
}

schedule_maximal_example :
    let s' = (schedule (λ i. pos 95) busy).0 in All (HeldBack (pos 95) s'.active) s'.waiting_tasks
schedule_maximal_example = schedule_maximal (λ i. pos 95) (pos 95) (λ i. omega arith) busy busy-Inv

-- The waiting task is due at 95, and starts.
due_starts : active_names (schedule (λ i. pos 95) busy).1 ≡ "clean" ∷ []
unfolding schedule pass can_start is_work_available lookup ◌==◌
due_starts = refl

one_added : System ℕ
one_added = record {
  loop = (handle env (add_task_msg "sync" 7 backoff) (schedule (λ i. pos 1) initial).0).0;
  running = (schedule (λ i. pos 1) (initial {Task = ℕ})).1;
}

one_added-Reach : Reach one_added
unfolding one_added
one_added-Reach = next begin (receive (λ i. pos 1) env (added "sync" 7 backoff))

Reach-exclusive_example :
    (length one_added.running ≤ max_active_runners)
    × (occurs "sync" (active_names one_added.running) ≡ bit (has "sync" one_added.loop.active))
    × (occurs "sync" (waiting_names one_added.loop.waiting_tasks)
        ≡ bit (has "sync" one_added.loop.waiting_tasks_by_name))
Reach-exclusive_example = Reach-exclusive "sync" one_added-Reach

-- The message removes the task that runs since the loop has scheduled it.
cancels_nothing_example :
    (handle env (remove_task_msg "sync") (scheduled (λ i. pos 200) one_added).loop).1 ≡ none
cancels_nothing_example =
    cancels_nothing (λ i. pos 200) env (remove_task_msg "sync") one_added-Reach

completed_requeued_example :
    let s' = (handle env (work_completed "sync" true) busy).0 in
    (lookup "clean" s'.active ≡ none)
    × (w : WaitingTaskEntry ℕ) × (d : ℤ) × (s'.waiting_tasks ≡ waiting_entry ∷ w ∷ [])
    × (lookup "sync" s'.waiting_tasks_by_name ≡ some w)
    × (w.name ≡ "sync")
    × (w.task ≡ 7)
    × (w.next_scheduled_retry_time ≡ some (pos 50 +ℤ d))
    × (pos 100 ≤ℤ d)
    × (d ≤ℤ pos 1000)
unfolding lookup ◌==◌
completed_requeued_example =
    completed_requeued env busy busy-Inv "sync" running_entry "clean" refl refl (omega arith)
