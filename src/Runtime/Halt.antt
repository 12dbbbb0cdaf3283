-- ===== src/Runtime/Halt.antt =====
-- `RsRuntimeManager.halt` of mosec/runtime.py: the controller is asked to terminate, and killed if it
-- has not ended in time. Times are in milliseconds.
use mathlib.Core.Option
use mosec.Prelude.{
  ℕ, zero, suc, ◌+◌, ◌≤◌, ◌<◌, ◌≡◌, ◌↔◌, refl, ◌∙◌, Bool, true, Option, none, some, if◌then◌else◌,
  ltb,
}
use mosec.Prelude.Int.{ℤ}

-- The process was never started, or it has ended by itself or not, and was killed or not.
pub data Halted : Type 0 where
  no_process : Halted
  halted : Option ℤ → Bool → Halted

-- `poll` is the exit code at a time, if there is one by then; `wake` is the clock behind `sleep(0.1)`,
-- and `again` what it shows when it is read again without a sleep.
module _ (poll : ℕ → Option ℤ) (wake again : ℕ → ℕ) where
  -- The loop, from the time `now` of its test, with the time at which it ends and the exit code that ended it.
  unfoldable pub halt_loop : ℕ → (graceful_period now : ℕ) → Option (Option ℤ × ℕ)
  halt_loop zero graceful_period now = none
  halt_loop (suc fuel) graceful_period now =
      let later = halt_loop fuel graceful_period (wake now) in
      if ltb now graceful_period
      then (elim (poll now) [ none ↦ later | some code ↦ some (some code, now) ])
      else some (none, now)

  -- The period `timeout` starts at the time `now`; the clock is read again for the first test, and
  -- for the one behind the loop. `none` is a loop that has used up its fuel.
  unfoldable pub halt : ℕ → Bool → (timeout now : ℕ) → Option Halted
  unfolding halt_loop
  halt fuel started timeout now =
      if started
      then Option.map (λ r. halted r.0 (ltb (now + timeout) (again r.1)))
          (halt_loop fuel (now + timeout) (again now))
      else some no_process

  -- The loop ended: at an exit code that it saw in time, or behind the period.
  pub record Waits (deadline : ℕ) (r : Option (Option ℤ × ℕ)) : Type 0 where
    pub exit : Option ℤ
    pub time : ℕ
    pub result : r ≡ some (exit, time)
    pub seen : (code : ℤ) → exit ≡ some code → (poll time ≡ some code) × (time < deadline)
    pub over : exit ≡ none → deadline ≤ time

  ended :
      (code : ℤ) (now deadline : ℕ)
      → poll now ≡ some code
      → now < deadline
      → Waits deadline (some (some code, now))
  ended code now deadline at early = record {
    exit = some code;
    time = now;
    result = refl;
    seen = λ d e. (at ∙ e, early);
    over = λ e. cc;
  }

  -- How `halt` ends for a process that was started.
  pub record Halts (timeout now : ℕ) (r : Option Halted) : Type 0 where
    pub exit : Option ℤ
    pub killed : Bool
    pub time : ℕ
    pub result : r ≡ some (halted exit killed)
    pub seen : (code : ℤ) → exit ≡ some code → (poll time ≡ some code) × (time < now + timeout)
    pub over : exit ≡ none → now + timeout ≤ time
    pub kills : (killed ≡ true) ↔ (now + timeout < again time)
