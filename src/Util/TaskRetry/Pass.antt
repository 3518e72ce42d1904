-- ===== src/Util/TaskRetry/Pass.antt =====
-- The scheduling pass of backend-shared/util/task_retry_loop.go: what it starts and what it keeps.
use managed_gitops.Base.{
  ℕ, ◌+◌, ◌≤◌, suc, ◌≡◌, true, false, List, [], ◌∷◌, String, ◌==◌, eq_iff, length, inl, inr, ◌⊎◌,
  map, Bool-cases, arith, Merge, done, left, right, occurs, bit,
}
use managed_gitops.Base.Int.{ℤ}
use managed_gitops.Base.Map.{
  Map, insert, delete, has, lookup-insert, lookup-delete, length-insert_new,
}
use managed_gitops.Util.TaskRetry.{
  WaitingTaskEntry, InternalTaskEntry, is_due, new_task_entry, can_start, pass, max_active_runners,
}

abbrev pub waiting_names : {Task : Type 0} → List (WaitingTaskEntry Task) → List String
waiting_names = map (λ t. t.name)

abbrev pub active_names : {Task : Type 0} → List (InternalTaskEntry Task) → List String
active_names = map (λ t. t.name)

module _ {Task : Type 0} (t : WaitingTaskEntry Task) (ts : List (WaitingTaskEntry Task))
    (by_name : Map (WaitingTaskEntry Task))
    (h : (k : String) → occurs k (waiting_names (t ∷ ts)) ≤ bit (has k by_name)) where
  -- The rest of the list stays indexed after the first name is deleted.
  index_rest : (k : String) → occurs k (waiting_names ts) ≤ bit (has k (delete t.name by_name))
  unfolding occurs
  index_rest k = ground (arith, h k, eq_iff t.name k, lookup-delete t.name k by_name)

  index_deleted :
      (k : String) → bit (has k (delete t.name by_name)) + bit (t.name == k) ≡ bit (has k by_name)
  unfolding occurs
  index_deleted k = ground (arith, h k, eq_iff t.name k, lookup-delete t.name k by_name)

module _ {Task : Type 0} (clock : ℕ → ℤ) where
  -- A pass splits the waiting tasks into those it keeps and those it starts, each in order.
  pub pass-Merge :
      (i : ℕ) (ts : List (WaitingTaskEntry Task)) (by_name : Map (WaitingTaskEntry Task))
      (active : Map (InternalTaskEntry Task))
      → let r = pass clock i ts by_name active in
        Merge (waiting_names r.kept) (active_names r.started) (waiting_names ts)
  unfolding pass
  pass-Merge i [] by_name active = done
  pass-Merge i (t ∷ ts) by_name active = elim (Bool-cases (can_start (clock i) t active)) [
    | inl go ↦ rw go (
        right t.name (
          pass-Merge (suc i) ts (delete t.name by_name)
            (insert t.name (new_task_entry (clock i) t) active)))
    | inr stay ↦ rw stay (left t.name (pass-Merge (suc i) ts by_name active))
  ]

  -- The active tasks after a pass are those before it and those started, once each.
  pub pass-active :
      (k : String) (i : ℕ) (ts : List (WaitingTaskEntry Task))
      (by_name : Map (WaitingTaskEntry Task)) (active : Map (InternalTaskEntry Task))
      → let r = pass clock i ts by_name active in
        bit (has k r.active) ≡ occurs k (active_names r.started) + bit (has k active)
  unfolding pass can_start occurs
  pass-active k i [] by_name active = omega arith
  pass-active k i (t ∷ ts) by_name active = ground (
    arith,
    eq_iff t.name k,
    lookup-insert t.name k (new_task_entry (clock i) t) active,
    pass-active k (suc i) ts by_name active,
    pass-active k (suc i) ts (delete t.name by_name)
        (insert t.name (new_task_entry (clock i) t) active),
  )

  -- The index loses exactly the names of the started tasks, if it held every waiting name once.
  pub pass-index :
      (i : ℕ) (ts : List (WaitingTaskEntry Task)) (by_name : Map (WaitingTaskEntry Task))
      (active : Map (InternalTaskEntry Task))
      → ((k : String) → occurs k (waiting_names ts) ≤ bit (has k by_name))
      → (k : String)
      → let r = pass clock i ts by_name active in
        bit (has k r.by_name) + occurs k (active_names r.started) ≡ bit (has k by_name)
  unfolding pass occurs
  pass-index i [] by_name active h k = omega arith
  pass-index i (t ∷ ts) by_name active h k = elim (Bool-cases (can_start (clock i) t active)) [
    | inl go ↦ rw go (
        omega (
          arith,
          index_deleted t ts by_name h k,
          pass-index (suc i) ts (delete t.name by_name)
              (insert t.name (new_task_entry (clock i) t) active) (index_rest t ts by_name h) k,
        ))
    | inr stay ↦ rw stay (pass-index (suc i) ts by_name active (λ j. omega (arith, h j)) k)
  ]

  pub pass-length :
      (i : ℕ) (ts : List (WaitingTaskEntry Task)) (by_name : Map (WaitingTaskEntry Task))
      (active : Map (InternalTaskEntry Task))
      → length active ≤ max_active_runners
      → let r = pass clock i ts by_name active in
        (length r.active ≤ max_active_runners) × (length active ≤ length r.active)
  unfolding pass can_start
  pass-length i [] by_name active h = omega arith
  pass-length i (t ∷ ts) by_name active h = ground (
    arith,
    length-insert_new t.name (new_task_entry (clock i) t) active,
    pass-length (suc i) ts by_name active,
    pass-length (suc i) ts (delete t.name by_name)
        (insert t.name (new_task_entry (clock i) t) active),
  )

  -- Why a waiting task was not started.
  abbrev pub HeldBack : ℤ → Map (InternalTaskEntry Task) → WaitingTaskEntry Task → Type 0
  HeldBack start active t =
      (is_due start t ≡ false) ⊎ (has t.name active ≡ true) ⊎ (length active ≡ max_active_runners)
