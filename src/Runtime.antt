-- ===== src/Runtime.antt =====
-- mosec/runtime.py: a `Runtime` keeps the worker processes of a stage running, and `PyRuntimeManager`
-- those of all stages; `env_var_context` of mosec/env.py, under which a process starts. Paths, events
-- and log lines are left out.
pub mod Environ
pub mod Check
pub mod Create
pub mod Halt
pub mod Tests
use mosec.Prelude.{
  ℕ, zero, suc, ◌+◌, Bool, true, false, not, Option, none, some, List, [], ◌∷◌, map, if◌then◌else◌,
  get_elem?,
}
use mosec.Prelude.Eq.{Eq}
use mosec.Prelude.Int.{ℤ}
use mosec.Prelude.Dict.{Dict, lookup, insert}

-- Environment variables: `S` is the type of strings.
module _ {S : Type 0} ⦃eq : Eq S⦄ where
  -- The loop behind the `yield` of `env_var_context`.
  unfoldable pub restore : Dict S S → Dict S S → Dict S S
  unfolding insert
  restore [] environ = environ
  restore ((key, value) ∷ defaults) environ = restore defaults (insert key value environ)

-- `empty` is the empty string.
module _ {S : Type 0} ⦃eq : Eq S⦄ (empty : S) where
  -- `os.getenv(key, "")`
  unfoldable pub getenv : S → Dict S S → S
  unfolding lookup
  getenv key environ = elim (lookup key environ) [ none ↦ empty | some v ↦ v ]

  -- The loop before `yield`: what to restore, and the variables of the body.
  unfoldable pub enter : Dict S S → Dict S S → Dict S S → Dict S S × Dict S S
  unfolding getenv insert
  enter [] defaults environ = (defaults, environ)
  enter ((key, value) ∷ variables) defaults environ =
      enter variables (insert key (getenv key environ) defaults) (insert key value environ)

  -- The variables of the body, which leaves them alone, and those that it leaves behind.
  unfoldable pub env_var_context : Option (List (Dict S S)) → ℕ → Dict S S → Dict S S × Dict S S
  unfolding enter restore
  env_var_context none index environ = (environ, environ)
  env_var_context (some env) index environ = elim (get_elem? env index) [
    | none ↦ (environ, environ)
    | some variables ↦
        let (defaults, inside) = enter variables [] environ in (inside, restore defaults inside)
  ]

-- A process that was started: the handle of the operating system, the number and the environment of
-- its worker.
pub record Process (S : Type 0) : Type 0 where
  pub handle : ℕ
  pub worker_id : ℕ
  pub environ : Dict S S

-- What a check reads and changes: the environment of this process, and the next handle.
pub record Host (S : Type 0) : Type 0 where
  pub environ : Dict S S
  pub fresh : ℕ

-- What is read of a worker class: `isinstance` tests and class attributes.
pub record WorkerClass (S : Type 0) : Type 0 where
  pub name : S
  pub is_worker : Bool
  pub is_sse : Bool
  pub is_typed : Bool
  pub req_mime_type : S
  pub resp_mime_type : S

-- Durations are in milliseconds, a negative one is a negative number.
pub record Runtime (S : Type 0) : Type 0 where
  pub stage_id : ℕ
  pub worker : WorkerClass S
  pub num : ℤ
  pub max_batch_size : ℤ
  pub max_wait_time : ℤ
  pub timeout_sec : ℤ
  pub start_method : S
  pub env : Option (List (Dict S S))
  pub pool : List (Option (Process S))

module _ {S : Type 0} where
  -- `exitcode is None`, as the operating system says at the check, by handle.
  unfoldable pub process_healthy : (ℕ → Bool) → Option (Process S) → Bool
  process_healthy running none = false
  process_healthy running (some p) = running p.handle

  unfoldable pub keep_healthy : (ℕ → Bool) → Option (Process S) → Option (Process S)
  unfolding process_healthy
  keep_healthy running p = if process_healthy running p then p else none

  -- `all` and `any` of a pool.
  unfoldable pub all_there : List (Option (Process S)) → Bool
  all_there [] = true
  all_there (none ∷ ps) = false
  all_there (some p ∷ ps) = all_there ps

  unfoldable pub any_there : List (Option (Process S)) → Bool
  any_there [] = false
  any_there (none ∷ ps) = any_there ps
  any_there (some p ∷ ps) = true

module _ {S : Type 0} ⦃eq : Eq S⦄ (empty : S) where
  unfoldable pub start_process : Option (List (Dict S S)) → ℕ → Host S → Process S × Host S
  unfolding env_var_context
  start_process env worker_id host =
      let (inside, left) = env_var_context empty env worker_id host.environ in
      (
        record { handle = host.fresh; worker_id = worker_id + 1; environ = inside },
        record { environ = left; fresh = host.fresh + 1 },
      )

  -- The loop over `need_start_id`, from the worker `worker_id` on.
  unfoldable pub start_missing :
      Option (List (Dict S S))
      → ℕ
      → List (Option (Process S))
      → Host S
      → List (Option (Process S)) × Host S
  unfolding start_process
  start_missing env worker_id [] host = ([], host)
  start_missing env worker_id (some p ∷ ps) host =
      let (qs, after) = start_missing env (suc worker_id) ps host in (some p ∷ qs, after)
  start_missing env worker_id (none ∷ ps) host =
      let (p, started) = start_process env worker_id host in
      let (qs, after) = start_missing env (suc worker_id) ps started in (some p ∷ qs, after)

  unfoldable pub check : (ℕ → Bool) → Bool → Runtime S → Host S → Bool × Runtime S × Host S
  unfolding keep_healthy start_missing
  check running init r host =
      let pool = map (keep_healthy running) r.pool in
      let (started, after) = start_missing r.env 0 pool host in
      if all_there pool
      then (true, record r { pool = pool }, host)
      else if not init
      then (if any_there pool
          then (true, record r { pool = started }, after)
          else (false, record r { pool = pool }, host))
      else (true, record r { pool = started }, after)

  -- `check_and_start` of `PyRuntimeManager`: whether a stage failed, and which one.
  unfoldable pub check_and_start :
      (ℕ → Bool) → Bool → List (Runtime S) → Host S → Option (Runtime S) × List (Runtime S) × Host S
  unfolding check
  check_and_start running init [] host = (none, [], host)
  check_and_start running init (r ∷ rs) host =
      let (fine, s, after) = check running init r host in
      let (failed, ss, last) = check_and_start running init rs after in
      if fine then (failed, s ∷ ss, last) else (some s, s ∷ rs, after)
