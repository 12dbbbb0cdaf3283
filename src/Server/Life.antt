-- ===== src/Server/Life.antt =====
-- mosec/server.py: the life of a server, from `run` on. Log lines are left out.
pub mod Rounds
pub mod Run
pub mod Tests
use mosec.Prelude.{
  ℕ, ◌≡◌, Bool, true, false, Option, none, some, List, [], ◌∷◌, ◌++◌, map, if◌then◌else◌, ◌==◌,
  length,
}
use mosec.Prelude.Eq.{Eq, nat_eq, list_eq}
use mosec.Prelude.Int.{ℤ}
use mosec.Prelude.Dict.{Dict, insert}
use mosec.Errors.{
  Text, text, Raised, Result, ok, raised, diverged, failed, index_error, assertion_error,
  is_exception, ◌>>=◌,
}
use mosec.Runtime.{Runtime, Host, check_and_start}
use mosec.Server.{Server, Router}

-- `daemon` has the process handle of a daemon; a check skips a name that has none. `process` is the
-- one of `_rs_runtime_manager`: the handle of the controller, once it is started.
pub record Life : Type 0 where
  pub server : Server
  pub daemon : Dict Text (Option ℕ)
  pub process : Option ℕ
  pub server_shutdown : Bool
  pub host : Host Text

-- What happens in a round of the management: which processes are running, the exit codes of the
-- daemons, by handle, what the start of a process raises, and whether a signal comes.
pub record Round : Type 0 where
  pub running : ℕ → Bool
  pub code : ℕ → Option ℤ
  pub fault : Option Raised
  pub signalled : Bool

-- `_terminate`, which is also the handler of the signals.
unfoldable pub terminate : Life → Life
terminate l = record l { server_shutdown = true }

-- `register_daemon` of a process.
unfoldable pub register_daemon : Text → ℕ → Life → Life
unfolding insert
register_daemon name proc l = record l { daemon = insert name (some proc) l.daemon }

-- `_check_daemon`, on the daemons that are left.
unfoldable pub check_daemon : (ℕ → Option ℤ) → Dict Text (Option ℕ) → Life → Life
unfolding terminate
check_daemon code [] l = l
check_daemon code ((name, none) ∷ daemon) l = check_daemon code daemon l
check_daemon code ((name, some proc) ∷ daemon) l =
    check_daemon code daemon (elim (code proc) [ none ↦ l | some c ↦ terminate l ])

abbrev pub with_runtimes : Life → List (Runtime Text) → Host Text → Life
with_runtimes l runtimes host = record l {
  server = record l.server { runtimes = runtimes };
  host = host;
}

-- The body of the loop in `_manage_py_runtime`.
unfoldable pub manage_round : Bool → Round → Life → Life
unfolding check_and_start check_daemon
manage_round init round l =
    let (failed_runtime, runtimes, host) =
      check_and_start [] round.running init l.server.runtimes l.host in
    let checked = with_runtimes l runtimes host in
    let told : Life = elim failed_runtime [ none ↦ checked | some r ↦ terminate checked ] in
    let after = check_daemon round.code l.daemon told in
    if round.signalled then terminate after else after

-- `_manage_py_runtime` over the rounds that are given; `diverged` is a loop that goes on behind them.
unfoldable pub manage_py_runtime : Bool → List Round → Life → Result Life
unfolding manage_round
manage_py_runtime init [] l = if l.server_shutdown then ok l else diverged
manage_py_runtime init (round ∷ rounds) l =
    let rest = manage_py_runtime false rounds (manage_round init round l) in
    if l.server_shutdown then ok l else (elim round.fault [ none ↦ rest | some e ↦ raised e ])

-- What `config.json` says of the runtimes and the routes.
pub record RuntimeConfig : Type 0 where
  pub worker : Text
  pub max_batch_size : ℤ
  pub max_wait_time : ℤ

pub record RouteConfig : Type 0 where
  pub endpoint : Text
  pub workers : List Text
  pub is_sse : Bool
  pub mime : Text

pub record Config : Type 0 where
  pub timeout : ℤ
  pub runtimes : List RuntimeConfig
  pub routes : List RouteConfig

-- `pipeline[-1]`
unfoldable pub last : {A : Type 0} → List A → Result A
last [] = raised (failed index_error)
last (x ∷ []) = ok x
last (x ∷ y ∷ xs) = last (y ∷ xs)

-- `show` is Python's decimal notation.
module _ (show : ℕ → Text) where
  -- `name` of a `Runtime`
  abbrev pub runtime_name : Runtime Text → Text
  runtime_name r = r.worker.name ++ text "_" ++ show r.stage_id

  abbrev pub runtime_config : Runtime Text → RuntimeConfig
  runtime_config r = record {
    worker = runtime_name r;
    max_batch_size = r.max_batch_size;
    max_wait_time = r.max_wait_time;
  }

  unfoldable pub route_config : Text → List (Runtime Text) → Result RouteConfig
  unfolding last
  route_config endpoint pipeline = do
    r ← last pipeline
    ok (record {
      endpoint = endpoint;
      workers = map runtime_name pipeline;
      is_sse = r.worker.is_sse;
      mime = r.worker.resp_mime_type;
    })

  unfoldable pub route_configs : Router → Result (List RouteConfig)
  unfolding route_config
  route_configs [] = ok []
  route_configs ((endpoint, pipeline) ∷ router) = do
    c ← route_config endpoint pipeline
    cs ← route_configs router
    ok (c ∷ cs)

  unfoldable pub config_of : Server → Result Config
  unfolding route_configs
  config_of s = do
    routes ← route_configs s.router
    ok (record {
      timeout = s.configs.timeout;
      runtimes = map runtime_config s.runtimes;
      routes = routes;
    })

  -- `start` writes the files and starts the controller; it gives the handle of the process.
  unfoldable pub start_rs_runtime : (Config → Result ℕ) → Life → Result Life
  unfolding config_of register_daemon
  start_rs_runtime start l = if l.server_shutdown then ok l else (do
    c ← config_of l.server
    proc ← start c
    ok (register_daemon (text "rs_runtime") proc (record l { process = some proc })))

-- What `_halt` does; the controller is halted by the `halt` of its manager, which has a process or none.
pub data Effect : Type 0 where
  set_shutdown_notify set_shutdown remove_path : Effect
  halt_controller : Option ℕ → Effect

-- The effects of `_halt`, in order.
unfoldable pub halt_effects : Option ℕ → List Effect
halt_effects process =
    set_shutdown_notify ∷ halt_controller process ∷ set_shutdown ∷ remove_path ∷ []

-- The handler of `except Exception` around the management.
unfoldable pub swallow : Result Life → Result (Unit {0})
unfolding is_exception
swallow (ok l) = ok tt
swallow (raised e) = if is_exception e then ok tt else raised e
swallow diverged = diverged

-- `finally`: behind a return and an exception, but not while the body goes on.
unfoldable pub finally_halt : Option ℕ → Result (Unit {0}) → Result (Unit {0}) × List Effect
unfolding halt_effects
finally_halt process (ok u) = (ok u, halt_effects process)
finally_halt process (raised e) = (raised e, halt_effects process)
finally_halt process diverged = (diverged, [])

-- What `run` meets: `generate_openapi` and the dry run of the other modules, the start of the
-- controller, whether a signal comes before it, and the rounds.
pub record World : Type 0 where
  pub show : ℕ → Text
  pub openapi : Router → Result (Unit {0})
  pub dry_run : Router → Result (Unit {0})
  pub start : Config → Result ℕ
  pub signalled : Bool
  pub rounds : List Round

-- `_validate_server`
unfoldable pub validate_server : World → Server → Result (Unit {0})
validate_server w s =
    if length s.runtimes == 0 then raised (failed assertion_error) else w.openapi s.router

-- The body of the `try` of `run`, with the process of the controller behind it.
unfoldable pub serve : World → Life → Option ℕ × Result (Unit {0})
unfolding start_rs_runtime manage_py_runtime swallow
serve w l = elim (start_rs_runtime w.show w.start (if w.signalled then terminate l else l)) [
  | ok m ↦ (m.process, swallow (manage_py_runtime true w.rounds m))
  | raised e ↦ (l.process, raised e)
  | diverged ↦ (l.process, diverged)
]

-- `run`, with the effects of its halt.
unfoldable pub run : World → Life → Result (Unit {0}) × List Effect
unfolding validate_server serve finally_halt
run w l = elim (validate_server w l.server) [
  | ok u ↦
      let (process, served) = serve w l in
      if l.server.configs.dry_run
      then (w.dry_run l.server.router, [])
      else finally_halt process served
  | raised e ↦ (raised e, [])
  | diverged ↦ (diverged, [])
]
