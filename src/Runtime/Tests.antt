-- ===== src/Runtime/Tests.antt =====
-- The runtimes of mosec/runtime.py at concrete inputs: strings are numbers.
use mosec.Prelude.{
  leb, ◌+◌, Option, true, ℕ, ◌≡◌, refl, Bool, false, none, some, [], ◌∷◌, ◌==◌, if◌then◌else◌,
}
use mosec.Prelude.Eq.{nat_eq}
use mosec.Prelude.Dict.{Dict, has, lookup}
use mosec.Prelude.Int.{ℤ, pos}
use mosec.Prelude.Eq.{list_eq}
use mosec.Errors.{text, raised, failed, assertion_error}
use mosec.Runtime.Create.{Arguments, new_runtime, create_runtime, IsValid, create_runtime-IsValid}
use mosec.Runtime.Halt.{halted, halt}
use mosec.Runtime.{
  WorkerClass, Host, Runtime, getenv, env_var_context, process_healthy, all_there, any_there, check,
  check_and_start,
}
use mosec.Runtime.Environ.{lookup-env_var_context}
use mosec.Runtime.Check.{Checked, check-Checked}

abbrev host : Host ℕ
host = record { environ = []; fresh = 9 }

-- Of the three workers, the first runs, the second has exited, and the third was never started.
abbrev some_worker : WorkerClass ℕ
some_worker = record {
  name = 1;
  is_worker = true;
  is_sse = false;
  is_typed = false;
  req_mime_type = 2;
  resp_mime_type = 2;
}

abbrev stage : Runtime ℕ
stage = record {
  stage_id = 1;
  worker = some_worker;
  num = pos 3;
  max_batch_size = pos 1;
  max_wait_time = pos 0;
  timeout_sec = pos 3000;
  start_method = 3;
  env = none;
  pool =
      some (record { handle = 5; worker_id = 1; environ = [] })
      ∷ some (record { handle = 6; worker_id = 2; environ = [] })
      ∷ none
      ∷ [];
}

abbrev only_first : ℕ → Bool
only_first handle = handle == 5

stage-Checked : Checked 0 only_first false stage host (check 0 only_first false stage host)
stage-Checked = check-Checked 0 only_first false stage host

-- The second stage has no running process.
second_fails :
    (check_and_start 0 only_first false (stage ∷ record stage { pool = none ∷ [] } ∷ []) host).0
    ≡ some (record stage { pool = none ∷ [] })
unfolding check_and_start process_healthy all_there any_there
second_fails = refl

-- A variable that was not set is set to the empty string behind the context.
unset_before :
    env_var_context {S = ℕ} 0 (some (((7, 70) ∷ []) ∷ [])) 0 [] ≡ (((7, 70) ∷ []), ((7, 0) ∷ []))
unfolding env_var_context lookup
unset_before = refl

-- One variable that was not set, and one that was.
abbrev variables : Dict ℕ ℕ
variables = (7, 70) ∷ (8, 80) ∷ []

abbrev before : Dict ℕ ℕ
before = (8, 1) ∷ []

lookup-env_var_context_example :
    lookup 7 (env_var_context 0 (some (variables ∷ [])) 0 before).1
    ≡ (if has 7 variables then some (getenv 0 7 before) else lookup 7 before)
unfolding has
lookup-env_var_context_example =
    lookup-env_var_context 0 (variables ∷ []) 0 variables before 7 refl (refl, (refl, tt))

-- Two workers with an environment each.
abbrev arguments : Arguments
arguments = record {
  worker = record {
    name = text "Adder";
    is_worker = true;
    is_sse = false;
    is_typed = false;
    req_mime_type = text "a";
    resp_mime_type = text "b";
  };
  num = pos 2;
  max_batch_size = pos 8;
  max_wait_time = pos 0;
  timeout = pos 3000;
  start_method = text "spawn";
  env = some ([] ∷ [] ∷ []);
}

create_runtime-IsValid_example :
    IsValid (new_runtime arguments 4)
    × ((new_runtime arguments 4).stage_id ≡ (create_runtime arguments 4).1)
unfolding create_runtime
create_runtime-IsValid_example = create_runtime-IsValid arguments 4 (new_runtime arguments 4) refl

-- Three environments do not fit two workers; the stage id is used up all the same.
refused :
    create_runtime (record arguments { env = some ([] ∷ [] ∷ [] ∷ []) }) 4
    ≡ (raised (failed assertion_error), 5)
unfolding create_runtime
refused = refl

-- A process that ends 250 milliseconds behind the start of the halt.
abbrev ends_later : ℕ → Option ℤ
ends_later now = if leb 1250 now then some (pos 0) else none

ends_in_time :
    halt ends_later (λ t. t + 100) (λ t. t + 1) 11 true 1000 1000
    ≡ some (halted (some (pos 0)) false)
unfolding halt
ends_in_time = refl

killed : halt ends_later (λ t. t + 101) (λ t. t) 11 true 200 1000 ≡ some (halted none true)
unfolding halt
killed = refl

-- The exit is seen at the end of the period, and the clock is behind it when it is read again.
seen_and_killed :
    halt ends_later (λ t. t + 100) (λ t. t + 5) 11 true 306 1000 ≡ some (halted (some (pos 0)) true)
unfolding halt
seen_and_killed = refl
