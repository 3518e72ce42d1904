-- ===== src/Util/Operations/Waiting.antt =====
-- The rounds of waitForOperationToComplete in which nothing has happened yet.
use managed_gitops.Base.{◌≡◌, refl, ◌∙◌, true, false, List, [], ◌∷◌, ◌++◌, All, none}
use managed_gitops.Base.Client.{ok}
use managed_gitops.Util.Operations.{
  Operation, is_concluded, Poll, returned, wait_for_operation_to_complete,
}

-- The row is found and has not concluded, and the context is not done.
pub record IsQuiet (p : Poll) : Type 0 where
  pub stored : Operation
  pub found : p.row ≡ ok stored
  pub open_still : is_concluded stored.state ≡ false
  pub not_done : p.done ≡ false

pub wait_round :
    (p : Poll) (rest : List Poll)
    → IsQuiet p
    → wait_for_operation_to_complete (p ∷ rest) ≡ wait_for_operation_to_complete rest
unfolding wait_for_operation_to_complete
wait_round p rest q = rw (q.found, q.open_still, q.not_done) refl

pub wait_quiet :
    (before rest : List Poll)
    → All IsQuiet before
    → wait_for_operation_to_complete (before ++ rest) ≡ wait_for_operation_to_complete rest
wait_quiet [] rest h = refl
wait_quiet (p ∷ before) rest h = wait_round p (before ++ rest) h.0 ∙ wait_quiet before rest h.1

pub wait_concluded :
    (p : Poll) (row : Operation) (rest : List Poll)
    → p.row ≡ ok row
    → is_concluded row.state ≡ true
    → wait_for_operation_to_complete (p ∷ rest) ≡ returned none
unfolding wait_for_operation_to_complete
wait_concluded p row rest e c = rw (e, c) refl
