-- ===== src/Util/TaskRetry/Maximal.antt =====
-- What the scheduling pass of backend-shared/util/task_retry_loop.go leaves waiting, and why.
use managed_gitops.Base.{
  ℕ, ◌≤◌, suc, ◌≡◌, true, false, List, [], ◌∷◌, length, inl, inr, ◌⊎◌, Bool-cases, is_nil, ltb,
  arith, All,
}
use managed_gitops.Base.Int.{ℤ, ◌≤ℤ◌}
use managed_gitops.Base.Map.{Map, insert, delete, has, length-insert-le}
use managed_gitops.Util.TaskRetry.{
  WaitingTaskEntry, InternalTaskEntry, LoopState, is_due, new_task_entry, can_start, pass,
  max_active_runners, schedule, is_work_available,
}
use managed_gitops.Util.TaskRetry.Pass.{pass-active, pass-length}
use managed_gitops.Util.TaskRetry.Invariant.{Inv}

-- Why a waiting task was not started: at time `now` it was not due, or a task of its name is
-- active, or the active tasks are as many as they may be.
abbrev pub HeldBack :
    {Task : Type 0} → ℤ → Map (InternalTaskEntry Task) → WaitingTaskEntry Task → Type 0
HeldBack now active t =
    (is_due now t ≡ false) ⊎ (has t.name active ≡ true) ⊎ (length active ≡ max_active_runners)

room_for :
    {Task : Type 0} (now : ℤ) (t : WaitingTaskEntry Task) (active : Map (InternalTaskEntry Task))
    → can_start now t active ≡ true
    → length (insert t.name (new_task_entry now t) active) ≤ max_active_runners
unfolding can_start
room_for now t active go = ground (arith, length-insert-le t.name (new_task_entry now t) active)

module _ {Task : Type 0} (clock : ℕ → ℤ) (start : ℤ) (later : (i : ℕ) → start ≤ℤ clock i) where
  head-HeldBack :
      (i : ℕ) (t : WaitingTaskEntry Task) (ts : List (WaitingTaskEntry Task))
      (by_name : Map (WaitingTaskEntry Task)) (active : Map (InternalTaskEntry Task))
      → length active ≤ max_active_runners
      → can_start (clock i) t active ≡ false
      → HeldBack start (pass clock (suc i) ts by_name active).active t
  unfolding can_start
  head-HeldBack i t ts by_name active h stay = ground (
    arith,
    later i,
    pass-active clock t.name (suc i) ts by_name active,
    pass-length clock (suc i) ts by_name active h,
  )

  pass-HeldBack :
      (i : ℕ) (ts : List (WaitingTaskEntry Task)) (by_name : Map (WaitingTaskEntry Task))
      (active : Map (InternalTaskEntry Task))
      → length active ≤ max_active_runners
      → let r = pass clock i ts by_name active in All (HeldBack start r.active) r.kept
  unfolding pass
  pass-HeldBack i [] by_name active h = tt
  pass-HeldBack i (t ∷ ts) by_name active h = elim (Bool-cases (can_start (clock i) t active)) [
    | inl go ↦ rw go (
        pass-HeldBack (suc i) ts (delete t.name by_name)
          (insert t.name (new_task_entry (clock i) t) active) (room_for (clock i) t active go))
    | inr stay ↦
        rw stay
          (head-HeldBack i t ts by_name active h stay, pass-HeldBack (suc i) ts by_name active h)
  ]

  -- After scheduling, every task that still waits was not due when scheduling began, or has the
  -- name of an active task, or all twenty runners are in use. (The clock does not go back.)
  pub schedule_maximal :
      (s : LoopState Task)
      → Inv s
      → let s' = (schedule clock s).0 in All (HeldBack start s'.active) s'.waiting_tasks
  unfolding schedule is_work_available
  schedule_maximal s v = elim (Bool-cases (is_nil s.waiting_tasks)) [
    | inl e ↦ rw e (none_held s.waiting_tasks e)
    | inr e ↦ rw e (elim (Bool-cases (ltb (length s.active) max_active_runners)) [
      | inl g ↦ rw g (pass-HeldBack 0 s.waiting_tasks s.waiting_tasks_by_name s.active v.bounded)
      | inr g ↦ rw g (full_held s.waiting_tasks (ground (arith, v.bounded)))
    ])
  ]
    where
      none_held :
          (ts : List (WaitingTaskEntry Task)) → is_nil ts ≡ true → All (HeldBack start s.active) ts
      none_held [] e = tt
      none_held (t ∷ ts) e = cc

      full_held :
          (ts : List (WaitingTaskEntry Task))
          → length s.active ≡ max_active_runners
          → All (HeldBack start s.active) ts
      full_held [] e = tt
      full_held (t ∷ ts) e = (inr (inr e), full_held ts e)
