-- ===== src/Lib.antt =====
-- A verification library for argus-mcp, the gateway that puts many MCP backend servers behind one
-- endpoint. It models the core of the Python package argus_mcp/: the state that the gateway keeps
-- about its backends, and the decisions it takes on that state. All definitions run on concrete
-- inputs. Names follow the source; times and counts are natural numbers, a clock reading is an
-- argument, and a raised exception is a value of the result.
--
-- The parts, how they interact, and where they are:
-- - Base: the shared names; Base.Lists has Python's comprehensions, `any`, `all`, `sum`; Base.Dict is
--   `dict` as an association list in insertion order; Base.Equality is `==` as an interface with
--   its law (the record Comparable), which dictionaries and lists take as an instance.
-- - Breaker: argus_mcp/bridge/health/circuit_breaker.py, class CircuitBreaker. `refresh` is the
--   property `state`, which moves OPEN to HALF_OPEN; `allows_request`, `record_success`,
--   `record_failure` and `reset` keep their names. The health checker has a breaker per backend, the
--   session pool one per key.
-- - Runtime: argus_mcp/runtime/models.py: the service states, the backend phases with their table of
--   transitions, and the status record. Runtime.Service: argus_mcp/runtime/service.py, the state
--   changes of `start`, `stop` and `shutdown`, cut where the code awaits, so that they interleave.
-- - Checker: argus_mcp/bridge/health/checker.py: one check of a backend, its effect on the
--   breaker, on the status record, and on the visibility of the backend (the calls of the two
--   callbacks are returned as data).
-- - Conflict: argus_mcp/bridge/conflict.py: the four strategies as one data type; `handle_conflict`
--   returns `none` where ErrorStrategy raises.
-- - Registry: argus_mcp/bridge/capability_registry.py with bridge/filter.py and bridge/rename.py: the
--   filter, the renaming, the resolution of conflicts, and the loop that registers what a backend
--   lists; Registry.Backends has discovery of all backends, discovery of one, removal, and routing.
--   The checker's callbacks end in `remove_backend` and `discover_single_backend`.
-- - Groups: argus_mcp/bridge/groups.py: the two dictionaries of the group manager.
-- - SessionPool: argus_mcp/bridge/session_pool.py: `acquire`, `release`, `add`, `remove_all`, the
--   reaper and `stop`. A session is a number; the sessions that are closed are returned.
-- - Workflow: argus_mcp/workflows/dsl.py and steps.py: reading, validation and levels;
--   Workflow.Executor: argus_mcp/workflows/executor.py.
-- - RateLimit: argus_mcp/server/rate_limit.py: `check_rate_limit`, `record_auth_failure`,
--   `is_locked_out`, and `call`, which is `__call__` for an HTTP request. TTLCache of cachetools is a
--   predicate `lost`, with the documented fact that it keeps an entry for its time to live as a
--   hypothesis (that is, while fewer clients than its size are seen).
-- - Sessions: argus_mcp/server/session/manager.py and models.py, with a heap of the dictionaries that
--   the manager copies; `cleanup` is one sweep of the loop.
-- - Authz: argus_mcp/server/authz/policies.py and engine.py, and `authorize`, which is the guard of
--   argus_mcp/bridge/middleware/authz.py.
-- - Requests: the request context of argus_mcp/bridge/middleware/chain.py, and what a run of a request
--   gives: the context, the list of effects, and the response or the error.
-- - Plugins: argus_mcp/plugins/manager.py, registry.py, models.py: loading and the run of a hook.
--   A snapshot is a shallow copy, so a hook that fails comes with what it has changed in place.
-- - Middleware: argus_mcp/bridge/middleware/: `auth`, `recovery`, `telemetry`, `audit`, each a function of
--   the next handler, and `build_chain`; Middleware.Hooks: argus_mcp/plugins/middleware.py;
--   Middleware.Routing: routing.py, which asks the registry; Middleware.Stack: the order of
--   argus_mcp/server/lifespan.py. What authenticates a token, what a backend answers and what a
--   plugin does are parameters.
-- - Diff: argus_mcp/config/diff.py. Client: argus_mcp/bridge/client_manager.py and
--   bridge/backend_connection.py, the sessions, exit stacks and status records; what an attempt to
--   connect comes to is data. Reload: argus_mcp/runtime/service.py, `reload` with its three loops, and
--   `reconnect_backend`; it uses Diff, Client and the discovery of Registry.Backends. The order in
--   which Python iterates a set is a parameter of which only the members are known.
-- - Payload: argus_mcp/server/payload_limits.py: `buffer` is the loop over the messages that have been
--   delivered, and `unfinished` says that it still runs.
-- - Retry: argus_mcp/bridge/retry.py, `execute`.
-- - Startup: argus_mcp/bridge/startup_coordinator.py: the order of the first pass and the retries of
--   the backends that failed; whether a start opens a session is a parameter.
-- - Version: argus_mcp/bridge/version_checker.py; which characters are digits and blanks, and the
--   number of digits that `int` takes, are a record of parameters.
-- - Origin: argus_mcp/server/origin.py. Flags: argus_mcp/config/flags.py.
-- - Handlers: argus_mcp/server/handlers.py: `dispatch` runs the chain of Middleware.Stack, and
--   `handle_call_tool` chooses between the meta-tools, the composite tools and the chain.
-- - Skills: argus_mcp/skills/manager.py; what the directory holds is a parameter.
--
-- Child modules named for what they prove hold the theorems; each part's Tests has the runs at
-- concrete inputs.
--
-- Bounds and fuel: the loop of `SessionPool.add` (`evict`) has as many rounds as there are entries,
-- which is enough because each round takes one out; the loop of `topological_order` (`levels`) has as
-- many rounds as there are steps, and each round takes out at least one, or ends with the error.
-- The loops of Retry and Startup have the attempts of their Python ranges as fuel, and `decimal` of
-- Version.Parsing has the number itself, which has no more digits. All other loops are structural.
--
-- Not modelled: the network, processes, containers, files and logs, which these parts only call;
-- `fnmatch` of Python's library, a parameter where it is called; the interpolation of references
-- and the conditions of workflow steps (regular expressions), which are parameters of the executor;
-- floating point, for which times in whole units stand; the Rust twins of some classes.
pub mod Authz
pub mod RateLimit
pub mod Requests
pub mod Plugins
pub mod Middleware
pub mod Sessions
pub mod Base
pub mod Breaker
pub mod Runtime
pub mod Checker
pub mod Conflict
pub mod Registry
pub mod Diff
pub mod Skills
pub mod Handlers
pub mod Flags
pub mod Origin
pub mod Version
pub mod Startup
pub mod Retry
pub mod Payload
pub mod Reload
pub mod Client
pub mod Groups
pub mod SessionPool
pub mod Workflow
