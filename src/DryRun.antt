-- ===== src/DryRun.antt =====
-- mosec/dry_run.py: one worker for each stage of an endpoint passes an example through the pipeline.
-- The workers and the main process are interleaved: an execution is a list of actions. The metrics of a
-- stage are its name; log lines, times and the numbers of the metrics are left out.
pub mod Runner
pub mod Wiring
pub mod Answer
pub mod Probe
pub mod Tests
use mosec.Prelude.{
  ℕ, zero, suc, ◌+◌, ◌-◌, Bool, true, false, Option, none, some, List, [], ◌∷◌, ◌++◌, map,
  if◌then◌else◌, length, get_elem?, set, ◌==◌,
}
use mosec.Prelude.Int.{ℤ, pos}
use mosec.Errors.{
  Text, Raised, Result, ok, raised, diverged, failed, index_error, assertion_error, is_exception,
  ◌>>=◌,
}

-- What is used of a runtime: `D` is the type of data, and `B` of bytes.
pub record Stage (D B : Type 0) : Type 0 where
  pub name : Text
  pub batched : Bool
  pub forward : D → Result D
  pub forward_batch : List D → Result (List D)
  pub deserialize : B → Result D
  pub serialize : D → Result B

-- A worker process: the pipes are numbered, and `code` is the exit code once it has ended.
pub record Process (D B : Type 0) : Type 0 where
  pub stage : Stage D B
  pub receiver : ℕ
  pub sender : ℕ
  pub ingress : Bool
  pub reported : Bool
  pub code : Option ℤ

-- What each pipe holds, and the event that all processes share.
pub record Pool (D B : Type 0) : Type 0 where
  pub pipes : List (Option B)
  pub processes : List (Process D B)
  pub shutdown_notify : Bool

-- `forward(...)[0]`
unfoldable pub first : {A : Type 0} → List A → Result A
first [] = raised (failed index_error)
first (x ∷ xs) = ok x

abbrev pub is_ok : {A : Type 0} → Result A → Bool
is_ok (ok a) = true
is_ok (raised e) = false
is_ok diverged = false

module _ {D B : Type 0} where
  unfoldable pub infer : Stage D B → D → Result D
  unfolding first
  infer stage datum =
      if stage.batched then stage.forward_batch (datum ∷ []) >>= first else stage.forward datum

  unfoldable pub new_pipe : Pool D B → Pool D B
  new_pipe pool = record pool { pipes = pool.pipes ++ (none ∷ []) }

  -- With `receiver_pipes[-2]` and `sender_pipes[-1]` of the pipes there are.
  unfoldable pub new_process : Stage D B → Bool → ℕ → Process D B
  new_process stage init pipes = record {
    stage = stage;
    receiver = pipes - 2;
    sender = pipes - 1;
    ingress = init;
    reported = false;
    code = none;
  }

  unfoldable pub start_worker : Stage D B → Bool → Pool D B → Pool D B
  unfolding new_pipe new_process
  start_worker stage init pool =
      let wired = new_pipe pool in
      record wired {
        processes = wired.processes ++ (new_process stage init (length wired.pipes) ∷ []);
      }

  -- The loop of `run` that starts the workers, of which the first is the ingress.
  unfoldable pub start_workers : Bool → List (Stage D B) → Pool D B → Pool D B
  unfolding start_worker
  start_workers init [] pool = pool
  start_workers init (stage ∷ stages) pool =
      start_workers false stages (start_worker stage init pool)

  unfoldable pub new_pool : List (Stage D B) → Pool D B
  unfolding start_workers new_pipe
  new_pool stages =
      start_workers true stages
        (new_pipe (record { pipes = []; processes = []; shutdown_notify = false }))

  -- The first process with an exit code, and which code.
  unfoldable pub probe_worker_liveness : ℕ → List (Process D B) → Option (ℕ × ℤ)
  probe_worker_liveness i [] = none
  probe_worker_liveness i (p ∷ ps) =
      let rest = probe_worker_liveness (suc i) ps in
      elim p.code [ none ↦ rest | some code ↦ some (i, code) ]

  -- What `wait_all` returns, or that it still waits for a process.
  unfoldable pub wait_all : ℕ → List (Process D B) → Option (Option (ℕ × ℤ))
  wait_all i [] = some none
  wait_all i (p ∷ ps) =
      let rest = wait_all (suc i) ps in
      elim p.code [ none ↦ none | some (pos zero) ↦ rest | some code ↦ some (some (i, code)) ]

  -- `collect_metrics`: from each stage that has sent some.
  unfoldable pub collect_metrics : List (Process D B) → List Text
  collect_metrics [] = []
  collect_metrics (p ∷ ps) =
      if p.reported then p.stage.name ∷ collect_metrics ps else collect_metrics ps

  -- A process that has received its data: it sends the answer, or notifies the others; an exception
  -- that the handler does not catch ends it with the exit code 1.
  unfoldable pub ended : Process D B → Bool → ℕ → Process D B
  ended p reported code = record p { reported = reported; code = some (pos code) }

  unfoldable pub settle : ℕ → Process D B → Bool → Result B → Pool D B → Pool D B
  unfolding ended is_exception
  settle i p reported (ok answer) pool = record pool {
    pipes = set pool.pipes p.sender (some answer);
    processes = set pool.processes i (ended p reported 0);
  }
  settle i p reported (raised e) pool =
      if is_exception e
      then record pool {
        processes = set pool.processes i (ended p reported 0);
        shutdown_notify = true;
      }
      else record pool { processes = set pool.processes i (ended p reported 1) }
  settle i p reported diverged pool = pool

-- `unpickle` is what `recv` of a connection does to the bytes of an object.
module _ {D B : Type 0} (unpickle : B → Result D) where
  -- The `try` of `dry_run_func` up to the metrics, and from there on.
  unfoldable pub run_forward : Stage D B → Bool → B → Result D
  unfolding infer
  run_forward stage ingress bytes = do
    datum ← if ingress then unpickle bytes else stage.deserialize bytes
    infer stage datum

  unfoldable pub handle : Stage D B → Bool → B → Result B
  unfolding run_forward
  handle stage ingress bytes = run_forward stage ingress bytes >>= stage.serialize

  -- `dry_run_func` of the process `i`: it waits until its pipe has data or the event is set.
  unfoldable pub dry_run_func : ℕ → Process D B → Pool D B → Pool D B
  unfolding settle handle ended
  dry_run_func i p pool =
      if pool.shutdown_notify
      then record pool { processes = set pool.processes i (ended p false 0) }
      else (elim (get_elem? pool.pipes p.receiver) [
        | some (some bytes) ↦
            settle i p (is_ok (run_forward p.stage p.ingress bytes))
              (handle p.stage p.ingress bytes)
              (record pool { pipes = set pool.pipes p.receiver none })
        | _ ↦ pool
      ])

  -- A process that has ended does nothing.
  unfoldable pub step_process : ℕ → Pool D B → Pool D B
  unfolding dry_run_func
  step_process i pool = elim (get_elem? pool.processes i) [
    | none ↦ pool
    | some p ↦ elim p.code [ none ↦ dry_run_func i p pool | some code ↦ pool ]
  ]
