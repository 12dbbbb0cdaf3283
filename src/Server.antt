-- ===== src/Server.antt =====
-- mosec/server.py: the registration of workers and routes, and the life of a server. Log lines are
-- left out.
pub mod Routes
pub mod Life
pub mod Tests
use mosec.Prelude.{
  ℕ, suc, Bool, true, false, Option, none, some, List, [], ◌∷◌, ◌++◌, map, if◌then◌else◌, ◌==◌,
  length,
}
use mosec.Prelude.Eq.{Eq, ◌===◌, nat_eq, list_eq}
use mosec.Prelude.Int.{ℤ, at_least}
use mosec.Prelude.Dict.{Dict, append_at}
use mosec.Errors.{Text, text, Result, ok, raised, diverged, failed, value_error, runtime_error}
use mosec.Runtime.{Runtime, WorkerClass}
use mosec.Runtime.Create.{Arguments, create_runtime, align_timeout_wait}

-- `MOSEC_RESERVED_ENDPOINTS`
abbrev pub reserved_endpoints : List Text
reserved_endpoints =
    text "/"
    ∷ text "/metrics"
    ∷ text "/openapi"
    ∷ text "/openapi/metadata.json"
    ∷ text "/openapi/swagger"
    ∷ text "/openapi/swagger/"
    ∷ []

abbrev pub is_in : Text → List Text → Bool
is_in t [] = false
is_in t (u ∷ us) = if t === u then true else is_in t us

abbrev pub is_reserved : Text → Bool
is_reserved endpoint = is_in endpoint reserved_endpoints

-- `timeout` is in milliseconds, as in the options.
pub record Configs : Type 0 where
  pub timeout : ℤ
  pub wait : ℤ
  pub dry_run : Bool

-- `router` and `runtimes`, the list of the `PyRuntimeManager`, hold the same objects: an entry of the
-- router says which one by its stage id, and nothing that a check changes is read through it.
pub record Server : Type 0 where
  pub configs : Configs
  pub router : Dict Text (List (Runtime Text))
  pub runtimes : List (Runtime Text)
  pub stage_id : ℕ

abbrev pub Router : Type 0
Router = Dict Text (List (Runtime Text))

-- `_register_route` of one endpoint, and of a list of them: what was registered before one is refused
-- stays.
unfoldable pub register_endpoint : Runtime Text → Text → Router → Result (Unit {0}) × Router
register_endpoint runtime route router =
    if is_reserved route
    then (raised (failed value_error), router)
    else (ok tt, append_at route runtime router)

unfoldable pub register_route : Runtime Text → List Text → Router → Result (Unit {0}) × Router
unfolding register_endpoint
register_route runtime [] router = (ok tt, router)
register_route runtime (endpoint ∷ route) router =
    let (r, after) = register_endpoint runtime endpoint router in
    let rest = register_route runtime route after in
    elim r [ ok _ ↦ rest | raised e ↦ (raised e, after) | diverged ↦ (diverged, after) ]

-- The arguments of `Runtime` that `append_worker` passes on.
unfoldable pub worker_arguments : Configs → Arguments → Arguments
worker_arguments configs a = record a {
  timeout = if at_least 1 a.timeout then a.timeout else configs.timeout;
  max_wait_time = if at_least 1 a.max_wait_time then a.max_wait_time else configs.wait;
}

unfoldable pub append_created :
    Result (Runtime Text) → List Text → Server → Result (Unit {0}) × Server
unfolding register_route
append_created (ok runtime) route s =
    let (r, router) = register_route runtime route s.router in
    let registered = record s { router = router } in
    elim r [
      | ok _ ↦ (ok tt, record registered { runtimes = s.runtimes ++ (runtime ∷ []) })
      | raised e ↦ (raised e, registered)
      | diverged ↦ (diverged, registered)
    ]
append_created (raised e) route s = (raised e, s)
append_created diverged route s = (diverged, s)

-- A route that is a string is a list of one endpoint.
unfoldable pub append_worker : Arguments → List Text → Server → Result (Unit {0}) × Server
unfolding append_created create_runtime worker_arguments
append_worker a route s =
    let (r, stage_id) = create_runtime (worker_arguments s.configs a) s.stage_id in
    append_created r route (record s { stage_id = stage_id })

-- The inner loop of `register_runtime`, with the runtimes that were added to `unique_runtimes`.
unfoldable pub register_runtimes :
    Text
    → List (Runtime Text)
    → Router
    → List (Runtime Text)
    → Result (List (Runtime Text)) × Router
unfolding register_endpoint
register_runtimes endpoint [] router added = (ok added, router)
register_runtimes endpoint (runtime ∷ runtimes) router added =
    let (r, after) = register_endpoint runtime endpoint router in
    let rest = register_runtimes endpoint runtimes after (added ++ (runtime ∷ [])) in
    elim r [ ok _ ↦ rest | raised e ↦ (raised e, after) | diverged ↦ (diverged, after) ]

-- The outer loop.
unfoldable pub register_routes :
    Router → Router → List (Runtime Text) → Result (List (Runtime Text)) × Router
unfolding register_runtimes
register_routes [] router added = (ok added, router)
register_routes ((endpoint, runtimes) ∷ routes) router added =
    let (r, after) = register_runtimes endpoint runtimes router added in
    elim r [
      | ok all ↦ register_routes routes after all
      | raised e ↦ (raised e, after)
      | diverged ↦ (diverged, after)
    ]

-- `set_order` gives the elements of a Python set in the order in which it is iterated.
unfoldable pub register_runtime :
    (List (Runtime Text) → List (Runtime Text)) → Router → Server → Result (Unit {0}) × Server
unfolding register_routes
register_runtime set_order routes s =
    let (r, router) = register_routes routes s.router [] in
    if length s.runtimes == 0
    then (elim r [
      | ok added ↦ (
        ok tt,
        record s {
          router = router;
          runtimes =
              s.runtimes
              ++ map (align_timeout_wait s.configs.timeout s.configs.wait) (set_order added);
        },
      )
      | raised e ↦ (raised e, record s { router = router })
      | diverged ↦ (diverged, record s { router = router })
    ])
    else (raised (failed runtime_error), s)
