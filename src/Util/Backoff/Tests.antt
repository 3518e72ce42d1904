-- ===== src/Util/Backoff/Tests.antt =====
-- Witnesses for the delays: milliseconds, with a factor that doubles.
use managed_gitops.Base.{ℕ, ◌≡◌, refl, ◌+◌, true, false, none, some, [], ◌∷◌, arith, String}
use managed_gitops.Base.Int.{ℤ, pos, negsuc, ◌≤ℤ◌}
use managed_gitops.Util.Backoff.{
  Float64, ExponentialBackoff, cancelled, ran, returns, returns_cancelled, reset,
  increase_and_return_new_duration, run_task_until_true,
}
use managed_gitops.Util.Backoff.Bounds.{increase_bounds, run_task_until_true_returns}

abbrev twofold : ℤ → ℤ
twofold (pos n) = pos (n + n)
twofold (negsuc n) = negsuc n

abbrev doubling : Float64
doubling = record { scale = λ f d. twofold d; spread = λ r d. d }

abbrev slow : ExponentialBackoff
slow = record { factor = 2; curr = some (pos 800); min = pos 100; max = pos 1000; jitter = true }

increase_bounds_example :
    let (d, e') = increase_and_return_new_duration doubling 7 slow in
    (pos 100 ≤ℤ d)
    × (d ≤ℤ pos 1000)
    × (e'.curr ≡ some d)
    × (record e' { curr = some (pos 800) } ≡ slow)
increase_bounds_example = increase_bounds doubling 7 slow (omega arith)

twofold_grows : (f : ℕ) (a : ℤ) → a ≤ℤ doubling.scale f a
twofold_grows f (pos n) = omega arith
twofold_grows f (negsuc n) = omega arith

spread_grows : (f : ℕ) (a : ℤ) → a ≤ℤ doubling.spread f a
spread_grows f a = omega arith

run_task_until_true_returns_example :
    (run_task_until_true {Error = String} doubling slow
        (ran false (some "down") 1 ∷ ran true none 2 ∷ cancelled ∷ [])
      ≡ (returns none, reset slow))
    × (run_task_until_true {Error = String} doubling slow
          (ran false (some "down") 1 ∷ cancelled ∷ cancelled ∷ [])
        ≡ (returns_cancelled, reset slow))
run_task_until_true_returns_example =
    run_task_until_true_returns doubling slow ((some "down", 1) ∷ []) none 2 (cancelled ∷ [])

-- After Reset the next delay is the grown Min, and not Min.
delay_after_reset : (increase_and_return_new_duration doubling 7 (reset slow)).0 ≡ pos 200
unfolding increase_and_return_new_duration reset
delay_after_reset = refl
