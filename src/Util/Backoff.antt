-- ===== src/Util/Backoff.antt =====
-- backend-shared/util/util.go: ExponentialBackoff and RunTaskUntilTrue.
-- A duration is an integer of nanoseconds. The IEEE arithmetic of Go is not modelled: a float64 is
-- its bit pattern, and the two products that the code forms are the fields of `Float64`.
pub mod Bounds
pub mod Tests
use managed_gitops.Base.{ℕ, Bool, true, false, Option, none, some, List, [], ◌∷◌, if◌then◌else◌}
use managed_gitops.Base.Int.{ℤ, lt_ℤ}

pub record Float64 : Type 0 where
  -- time.Duration(f * float64(d))
  pub scale : ℕ → ℤ → ℤ
  -- time.Duration(float64(d) * (1 + (r * float64(0.10))))
  pub spread : ℕ → ℤ → ℤ

-- `curr` is a pointer that is read only, so it is the value that it points to.
pub record ExponentialBackoff : Type 0 where
  pub factor : ℕ
  pub curr : Option ℤ
  pub min : ℤ
  pub max : ℤ
  pub jitter : Bool

unfoldable pub reset : ExponentialBackoff → ExponentialBackoff
reset e = record e { curr = some e.min }

-- The value of `*e.curr` after the first `if` of `increaseDueToFail`; `draw` is rand.Float64().
unfoldable pub grown : Float64 → ℕ → ExponentialBackoff → ℤ
grown fl draw e = elim e.curr [
  | none ↦ e.min
  | some d ↦ let next = fl.scale e.factor d in if e.jitter then fl.spread draw next else next
]

-- The two `if`s that follow: first the lower bound, then the upper one.
unfoldable pub raise_to_min : ExponentialBackoff → ℤ → ℤ
raise_to_min e d = if lt_ℤ d e.min then e.min else d

unfoldable pub cut_to_max : ExponentialBackoff → ℤ → ℤ
cut_to_max e d = if lt_ℤ e.max d then e.max else d

unfoldable pub increase_due_to_fail : Float64 → ℕ → ExponentialBackoff → ExponentialBackoff
unfolding grown raise_to_min cut_to_max
increase_due_to_fail fl draw e = record e {
  curr = some (cut_to_max e (raise_to_min e (grown fl draw e)));
}

abbrev current : ExponentialBackoff → Option ℤ → ℤ
current e none = e.min
current e (some d) = d

-- The new duration and the backoff; `*e.curr` is never nil here.
unfoldable pub increase_and_return_new_duration :
    Float64 → ℕ → ExponentialBackoff → ℤ × ExponentialBackoff
unfolding increase_due_to_fail
increase_and_return_new_duration fl draw e =
    let e' = increase_due_to_fail fl draw e in (current e' e'.curr, e')

-- What one round of `RunTaskUntilTrue` meets: the context is done, or the task runs and reports
-- whether it is complete, with an error or none. `draw` serves the delay.
pub data Round (Error : Type 0) : Type 0 where
  cancelled : Round Error
  ran : Bool → Option Error → ℕ → Round Error

pub data Outcome (Error : Type 0) : Type 0 where
  -- the call returns: `context cancelled`, or the last error of the task
  returns_cancelled : Outcome Error
  returns : Option Error → Outcome Error
  -- the rounds given are used up and the loop goes on
  still_running : Outcome Error

-- `defer backoff.Reset()` runs on each return.
unfoldable pub run_task_until_true :
    {Error : Type 0}
    → Float64
    → ExponentialBackoff
    → List (Round Error)
    → Outcome Error × ExponentialBackoff
run_task_until_true fl e [] = (still_running, e)
run_task_until_true fl e (cancelled ∷ rs) = (returns_cancelled, reset e)
run_task_until_true fl e (ran true err draw ∷ rs) = (returns err, reset e)
run_task_until_true fl e (ran false err draw ∷ rs) =
    run_task_until_true fl (increase_due_to_fail fl draw e) rs
