-- ===== src/Lib.antt =====
-- Verification of mosec, a server that runs Python workers behind an HTTP front end.
--
-- The parts of the program and how they interact. A controller in Rust speaks HTTP and hands
-- batches of requests to worker processes over Unix sockets. In each worker process
-- mosec/coordinator.py reads a batch (mosec/protocol.py), decodes it, calls the user's worker
-- (mosec/worker.py), encodes the results or turns an exception (mosec/errors.py) into a status, and
-- writes the reply. A worker that serves several models keeps them in the cache of mosec/cache.py.
-- mosec/server.py takes the options (mosec/args.py, mosec/env.py), registers the stages
-- (mosec/runtime.py) and the endpoints that they serve, writes the configuration of the controller,
-- and keeps the processes of all stages running until a signal or a failure halts the server; with
-- `--dry-run` it passes an example through the stages instead (mosec/dry_run.py).
--
-- Files:
-- - Prelude: names, Boolean tests, lists over the native numbers, equality as an interface, and
--   dictionaries as association lists in insertion order.
-- - Errors: mosec/errors.py. An exception is a value of `Raised`, a call that may raise returns a
--   `Result`, and `diverged` is a loop that has used up its fuel.
-- - Protocol: mosec/protocol.py. `Struct` has the struct formats, `Socket` the receiving side of a
--   socket and `_recv_all` (`recv_all_loop`, `recv_all`), `Receive` has `Protocol.receive`
--   (`receive`, `receive_tasks`, `receive_task`), `Send` has `Protocol.send` (`send`, `write_batch`,
--   `write_tasks`). A socket is the list of what is still to come: pieces of at least a byte, pauses
--   longer than its timeout, errors; the empty list is a peer that has closed.
-- - Cache: mosec/cache.py, `SieveCache`. The nodes of the linked list are objects on a heap, a
--   reference is a number. `put`, `get`, `remove`, `evict`, `items` are the methods; `push_head`,
--   `remove_node`, `evict_loop` and `evict_node` the private ones. Cache.Spec is the SIEVE algorithm
--   on plain lists; `Represents` (Cache.Holds) relates a cache to a queue of it.
-- - Models: `MultiModelWorker` of mosec/worker.py on top of the cache: `_ensure_model`
--   (`ensure_model`), and `forward` in Models.Forward (`group_items`, `run_groups`, `place`). The
--   methods that a user overrides are parameters.
-- - Runtime: mosec/runtime.py, and `env_var_context` of mosec/env.py. Runtime.Create has
--   `Runtime.__init__` with the validators of mosec/env.py, Runtime has `Runtime._check` and
--   `PyRuntimeManager.check_and_start`, Runtime.Halt has `RsRuntimeManager.halt`. A process is its
--   handle, its worker's number and the environment that it was started in; which handles are running
--   is a parameter of a check. Durations are in milliseconds.
-- - Options: `get_env_namespace` of mosec/env.py, and what `parse_arguments` and `get_log_level` of
--   mosec/args.py do with the parsed arguments.
-- - Server: mosec/server.py. Server has the registration (`append_worker`, `register_runtime`,
--   `register_route`), Server.Routes what it keeps, and Server.Life the life of a server
--   (`manage_py_runtime`, `check_daemon`, `start_rs_runtime`, `config_of`, `run`). What the operating
--   system reports in a round of the management is a `Round`. An entry of the router is the runtime
--   that the manager holds under the same stage id.
-- - DryRun: mosec/dry_run.py. DryRun has the worker processes and their pool, DryRun.Runner the main
--   process; a dry run is a list of actions, each a turn of a process or of the main process, or a
--   signal, so that every interleaving is one. A turn of a worker goes from its receive to its send.
-- - Redis: `RedisShmIPCMixin` of mosec/mixin/redis_worker.py (`prepare_next_id`, `serialize_ipc`,
--   `deserialize_ipc`), with the client as a record of operations and what they are documented to do.
-- - Annotations: `get_forward_input_type` and `get_forward_return_type` of mosec/utils.py, with
--   Python's `typing`, `inspect` and `eval` as a record of operations.
-- - OpenApi: `generate_openapi` of mosec/openapi.py, with the documents of the library `defspec` as
--   parameters.
-- - Coordinator: the methods `init_protocol` (Coordinator.Connect), `decode`, `encode` and
--   `coordinate` of mosec/coordinator.py, with `coordinate_round` for a round of its loop. `process`
--   is the body of the `try`, `answer_for` its `except` clauses, `reply` the `send` under the
--   semaphore. A user's worker, Python's lists and `str.encode` are parameters; `str.encode` fails on
--   a lone surrogate. Coordinator.Run has the loop of `run`, and Coordinator.Streaming the thread of
--   `streaming` and `SSEWorker.send_stream_event`, step by step.
--
-- Bounds and fuel. `_recv_all` and `receive` take the number of rounds that `_recv_all` may go;
-- the length of the payload is enough, since each round reads a byte at least. `evict` gives its
-- loops two rounds for each entry and two more (`enough_fuel`): a pass takes marks off, and the
-- second one meets an entry without a mark. The u16 and u32 fields have their limits written out.
-- `halt` needs a round for each tenth of a second of its period and one more. The loop of the
-- management runs over the rounds that it is given. A string annotation is evaluated as often as a
-- number of rounds says that is free.
--
-- Not modelled: the Rust controller; the memory and GPU metrics of a dry run and its loop over the
-- endpoints; the mixins other than that of Redis, each of which calls one function of a third-party
-- library; the texts and files of the OpenAPI document; the declarations of the options for argparse;
-- logging; `warmup` of the coordinator. JSON, pickle and the operating system are parameters.
pub mod Prelude
pub mod Errors
pub mod Protocol
pub mod Cache
pub mod Coordinator
pub mod Models
pub mod Runtime
pub mod Options
pub mod Server
pub mod DryRun
pub mod Redis
pub mod Annotations
pub mod OpenApi
