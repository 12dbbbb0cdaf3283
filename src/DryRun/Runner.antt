-- ===== src/DryRun/Runner.antt =====
-- `DryRunner` of mosec/dry_run.py: the main process of a dry run, one endpoint at a time.
use mosec.Prelude.{
  ℕ, ◌-◌, Bool, true, false, Option, none, some, List, [], ◌∷◌, if◌then◌else◌, length, get_elem?,
  set,
}
use mosec.Prelude.Int.{ℤ, pos}
use mosec.Errors.{Text, Result}
use mosec.DryRun.{
  Stage, Pool, new_pool, probe_worker_liveness, wait_all, collect_metrics, step_process,
}

-- Where the main process is: in the loop of `warmup`, behind it, behind `warmup` with or without an
-- answer and the metrics, at the next endpoint, or at an exit.
pub data Main (B : Type 0) : Type 0 where
  polling : Main B
  leaving : Main B
  warm : Option (B × List Text) → Main B
  joining : Main B
  passed : Main B
  exits : ℤ → Main B

pub record DryRun (D B : Type 0) : Type 0 where
  pub pool : Pool D B
  pub main : Main B

-- A process gets its turn, the main process does, or a signal comes.
pub data Action : Type 0 where
  turn : ℕ → Action
  proceed : Action
  terminate : Action

-- `truthy` is what `if example` tests. `none` is a warmup that is skipped.
unfoldable pub choose_example : {D : Type 0} → (D → Bool) → Option D → List D → Option D
choose_example truthy none [] = none
choose_example truthy none (x ∷ xs) = if truthy x then some x else none
choose_example truthy (some example) [] = if truthy example then some example else none
choose_example truthy (some example) (x ∷ xs) =
    if truthy example then some example else if truthy x then some x else none

module _ {D B : Type 0} where
  abbrev pub notify : Pool D B → Pool D B
  notify pool = record pool { shutdown_notify = true }

  -- What the last pipe holds, the one of `receiver_pipes[-1]`.
  abbrev pub output : Pool D B → Option (Option B)
  output pool = get_elem? pool.pipes (length pool.pipes - 1)

  -- A round of the loop: the condition, the poll, and the probe.
  unfoldable pub poll_round : Pool D B → DryRun D B
  unfolding probe_worker_liveness
  poll_round pool =
      if pool.shutdown_notify then record { pool = pool; main = leaving } else (elim (output pool) [
        | some (some answer) ↦ record { pool = pool; main = leaving }
        | _ ↦ elim (probe_worker_liveness 0 pool.processes) [
          | none ↦ record { pool = pool; main = polling }
          | some failed ↦ record { pool = notify pool; main = leaving }
        ]
      ])

  -- Behind the loop: `sys.exit(1)`, or the answer with the metrics; a `recv_bytes` waits for data.
  unfoldable pub receive_answer : Pool D B → DryRun D B
  unfolding collect_metrics
  receive_answer pool =
      if pool.shutdown_notify
      then record { pool = pool; main = exits (pos 1) }
      else (elim (output pool) [
        | some (some answer) ↦ record {
          pool = record pool { pipes = set pool.pipes (length pool.pipes - 1) none };
          main = warm (some (answer, collect_metrics pool.processes));
        }
        | _ ↦ record { pool = pool; main = leaving }
      ])

  -- `wait_all` and what follows it; a join waits for the end of a process.
  unfoldable pub join_all : Pool D B → DryRun D B
  unfolding wait_all
  join_all pool = elim (wait_all 0 pool.processes) [
    | none ↦ record { pool = pool; main = joining }
    | some none ↦ record { pool = record pool { shutdown_notify = false }; main = passed }
    | some (some (i, code)) ↦ record { pool = pool; main = exits code }
  ]

  unfoldable pub step_main : DryRun D B → DryRun D B
  unfolding poll_round receive_answer join_all
  step_main s = elim s.main [
    | polling ↦ poll_round s.pool
    | leaving ↦ receive_answer s.pool
    | warm answer ↦ record { pool = notify s.pool; main = joining }
    | joining ↦ join_all s.pool
    | passed ↦ s
    | exits code ↦ s
  ]

module _ {D B : Type 0} (unpickle : B → Result D) where
  unfoldable pub perform : Action → DryRun D B → DryRun D B
  unfolding step_process step_main
  perform (turn i) s = record s { pool = step_process unpickle i s.pool }
  perform proceed s = step_main s
  perform terminate s = record s { pool = notify s.pool }

  unfoldable pub perform_all : List Action → DryRun D B → DryRun D B
  unfolding perform
  perform_all [] s = s
  perform_all (a ∷ actions) s = perform_all actions (perform a s)

-- `run` of an endpoint up to the loop of `warmup`: the example goes into the first pipe. `pickle` is
-- what `send` of a connection does to an object.
unfoldable pub start : {D B : Type 0} → (D → B) → List (Stage D B) → Option D → DryRun D B
unfolding new_pool
start pickle stages none = record { pool = new_pool stages; main = warm none }
start pickle stages (some example) =
    let pool = new_pool stages in
    record {
      pool = record pool { pipes = set pool.pipes 0 (some (pickle example)) };
      main = polling;
    }
