-- ===== src/Server/Life/Tests.antt =====
-- The life of a server of mosec/server.py at concrete inputs.
use mosec.Prelude.{
  ℕ, not, arith, ◌≡◌, refl, true, false, Option, none, some, [], ◌∷◌, map, if◌then◌else◌, ◌==◌, inl,
  inr,
}
use mosec.Prelude.Eq.{nat_eq, list_eq}
use mosec.Prelude.Int.{pos}
use mosec.Errors.{Text, text, ok, raised, diverged, failed, value_error}
use mosec.Runtime.{Runtime, check_and_start, process_healthy, all_there}
use mosec.Server.{Server}
use mosec.Server.Routes.{IsSound}
use mosec.Server.Life.{
  Life, Round, World, Config, manage_py_runtime, manage_round, run, serve, swallow, validate_server,
  start_rs_runtime, set_shutdown_notify, halt_controller, set_shutdown, remove_path, config_of,
  runtime_config,
}
use mosec.Server.Life.Rounds.{
  Alarm, signal, exited, stage_down, reached, manage_py_runtime-Calm, manage_py_runtime-Alarm,
}
use mosec.Server.Life.Run.{Outcome, Starts, begun, Routed, run-halts, config_of-Routed}

abbrev stage : Runtime Text
stage = record {
  stage_id = 1;
  worker = record {
    name = text "Adder";
    is_worker = true;
    is_sse = false;
    is_typed = false;
    req_mime_type = text "a";
    resp_mime_type = text "b";
  };
  num = pos 1;
  max_batch_size = pos 8;
  max_wait_time = pos 10;
  timeout_sec = pos 3000;
  start_method = text "spawn";
  env = none;
  pool = none ∷ [];
}

abbrev served : Server
served = record {
  configs = record { timeout = pos 3000; wait = pos 10; dry_run = false };
  router = (text "/inference", stage ∷ []) ∷ (text "/add", stage ∷ []) ∷ [];
  runtimes = stage ∷ [];
  stage_id = 1;
}

served-IsSound : IsSound served
served-IsSound = record {
  proper = (refl, (λ e. cc), (refl, (λ e. cc), tt));
  backed = ((inl refl, tt), ((inl refl, tt), tt));
  below = (omega arith, tt);
  distinct = ((λ m. m), tt);
}

abbrev life : Life
life = record {
  server = served;
  daemon = (text "rs_runtime", some 7) ∷ [];
  process = some 7;
  server_shutdown = false;
  host = record { environ = []; fresh = 9 };
}

-- Everything is running, the process with the handle 9 ends, and so does the controller.
abbrev quiet : Round
quiet = record { running = λ h. true; code = λ h. none; fault = none; signalled = false }

abbrev stage_ends : Round
stage_ends = record quiet { running = λ h. not (h == 9) }

abbrev controller_ends : Round
controller_ends = record quiet { code = λ h. if h == 7 then some (pos 1) else none }

never_down : Alarm true quiet life → ⊥
never_down (signal e) = cc
never_down (exited (inl (c, e))) = cc
never_down (exited (inr m)) = m
never_down (stage_down e m) = cc

calm_round : manage_py_runtime true (quiet ∷ []) life ≡ diverged
calm_round = manage_py_runtime-Calm true (quiet ∷ []) life refl (refl, never_down, tt)

-- The process that the first round starts has ended in the second one.
manage_py_runtime-Alarm_example :
    manage_py_runtime true (quiet ∷ stage_ends ∷ quiet ∷ []) life
    ≡ ok (reached true (quiet ∷ stage_ends ∷ []) life)
unfolding manage_round check_and_start process_healthy all_there
manage_py_runtime-Alarm_example =
    manage_py_runtime-Alarm true (quiet ∷ []) stage_ends (quiet ∷ []) life refl
      (refl, never_down, tt) refl (stage_down refl (inl ((λ e. cc), (refl, tt))))

controller_alarm :
    manage_py_runtime true (controller_ends ∷ quiet ∷ []) life
    ≡ ok (reached true (controller_ends ∷ []) life)
controller_alarm =
    manage_py_runtime-Alarm true [] controller_ends (quiet ∷ []) life refl tt refl
      (exited (inl (pos 1, refl)))

-- The controller starts, and is found exited in the first round.
abbrev world : World
world = record {
  show = λ n. text "1";
  openapi = λ r. ok tt;
  dry_run = λ r. raised (failed value_error);
  start = λ c. ok 7;
  signalled = false;
  rounds = controller_ends ∷ [];
}

abbrev unstarted : Life
unstarted = record life { daemon = []; process = none }

run-halts_example :
    (p : Option ℕ) × Starts world unstarted (begun world unstarted)
    × Outcome world unstarted (begun world unstarted) (run world unstarted).0 p
    × ((run world unstarted).1
        ≡ set_shutdown_notify ∷ halt_controller p ∷ set_shutdown ∷ remove_path ∷ [])
unfolding validate_server serve start_rs_runtime swallow
run-halts_example = run-halts world unstarted tt refl refl (λ e. cc)

-- It is the controller that was started which is halted.
halts_started :
    run world unstarted
    ≡ (ok tt, set_shutdown_notify ∷ halt_controller (some 7) ∷ set_shutdown ∷ remove_path ∷ [])
unfolding run validate_server serve start_rs_runtime swallow
halts_started = refl

config_of-Routed_example :
    (c : Config) × (config_of world.show served ≡ ok c)
    × Routed world.show served.router c.routes
    × (c.runtimes ≡ map (runtime_config world.show) served.runtimes)
config_of-Routed_example = config_of-Routed world.show served served-IsSound
