-- ===== src/Util/Backoff/Bounds.antt =====
-- Bounds on the delays of backend-shared/util/util.go.
use managed_gitops.Base.{ℕ, ◌≡◌, refl, true, false, Option, some, List, [], ◌∷◌, ◌++◌, map, arith}
use managed_gitops.Base.Int.{ℤ, ◌≤ℤ◌}
use managed_gitops.Util.Backoff.{
  Float64, ExponentialBackoff, Round, cancelled, ran, returns_cancelled, returns, reset,
  increase_due_to_fail, increase_and_return_new_duration, run_task_until_true,
}

-- Whatever the float arithmetic and the random draw give, if Min ≤ Max then the duration that
-- IncreaseAndReturnNewDuration returns lies between them, is the one it stores, and Min, Max,
-- Factor and Jitter stay as they are.
pub increase_bounds :
    (fl : Float64) (draw : ℕ) (e : ExponentialBackoff)
    → e.min ≤ℤ e.max
    → let (d, e') = increase_and_return_new_duration fl draw e in
      (e.min ≤ℤ d) × (d ≤ℤ e.max) × (e'.curr ≡ some d) × (record e' { curr = e.curr } ≡ e)
unfolding increase_and_return_new_duration
increase_bounds fl draw e h = (ground arith, ground arith, refl, refl)

-- If neither product shrinks a duration, a further failure never shortens the delay.
pub increase_monotone :
    (fl : Float64) (draw : ℕ) (e : ExponentialBackoff) (d : ℤ)
    → ((f : ℕ) (a : ℤ) → a ≤ℤ fl.scale f a)
    → ((r : ℕ) (a : ℤ) → a ≤ℤ fl.spread r a)
    → e.curr ≡ some d
    → d ≤ℤ e.max
    → d ≤ℤ (increase_and_return_new_duration fl draw e).0
unfolding increase_and_return_new_duration
increase_monotone fl draw e d grows spreads now h =
    ground (arith, grows e.factor d, spreads draw (fl.scale e.factor d))

-- A round in which the task ran and was not complete.
abbrev pub failed : {Error : Type 0} → Option Error × ℕ → Round Error
failed (err, draw) = ran false err draw

reset-increase :
    (fl : Float64) (draw : ℕ) (e : ExponentialBackoff)
    → reset (increase_due_to_fail fl draw e) ≡ reset e
unfolding reset increase_due_to_fail
reset-increase fl draw e = refl

-- RunTaskUntilTrue runs the task over any number of incomplete rounds, then returns at the first
-- complete round with that round's error, or at a cancelled context with the cancellation error;
-- the rounds after it are not run, and the backoff is left as Reset leaves it.
pub run_task_until_true_returns :
    {Error : Type 0} (fl : Float64) (e : ExponentialBackoff) (tries : List (Option Error × ℕ))
    (err : Option Error) (draw : ℕ) (rest : List (Round Error))
    → (run_task_until_true fl e (map failed tries ++ (ran true err draw ∷ rest))
        ≡ (returns err, reset e))
      × (run_task_until_true fl e (map failed tries ++ (cancelled ∷ rest))
          ≡ (returns_cancelled, reset e))
unfolding run_task_until_true
run_task_until_true_returns fl e [] err draw rest = (refl, refl)
run_task_until_true_returns fl e ((x, d) ∷ tries) err draw rest =
    let ih = run_task_until_true_returns fl (increase_due_to_fail fl d e) tries err draw rest in
    rw (← reset-increase fl d e) ih
