-- ===== src/Lib.antt =====
-- Ultimate BBS Box: a registry of bulletin boards and other services, a supervisor that starts,
-- stops and watches them, a router that connects callers to them, an administration desk, an archive
-- of software, alerts on the services' health, and the configurations of the public edge, of the network
-- and of FidoNet. The files model the Python packages and modules under scripts/.
--
-- Registry (scripts/ubb_registry). `Models` has the declarations of models.py, `Queries` the
-- look-ups and the filter of registry.py, `Loader` the loading and cross-checking of loader.py. A
-- manifest is what the YAML reader and the schema check answer for a file: its document, the
-- directory under which it lies, and whether it is valid. A mapping is an association list with one
-- pair for a key (`Prelude.Dict`), where a missing key is `none`; an optional field that the schema
-- allows to be absent is an `Option`, read with the source's default where the source reads it.
-- `References` has what a successful load guarantees to the other packages.
--
-- Supervisor (scripts/ubb_supervisor). Each service has its own lock, instance, document on disk
-- and driver, so the model's state is one service's `Cell` (`Supervisor.Cell`): the instance of
-- models.py (`Supervisor.Instance`), the document last saved by persistence.py, the lifecycle
-- override, the keys of running jobs, the event journal, and the world of the driver and clock. A
-- method is an `Exec`, a function from the state to its result, a value or the exception raised,
-- and the state afterwards: what was changed before an exception stays changed, as in the source.
-- `Supervisor.Run` has starting, failing, restarting and stopping (`_ensure_running_locked`,
-- `_mark_failed_locked`, `_restart_after_failure_locked`, `_stop_locked`, `_schedule_idle_locked`),
-- `Supervisor.Methods` the public methods on one service and `_reconcile_locked`,
-- `Supervisor.Maintenance` the method `run_maintenance` and the body of `tick`'s loop up to its
-- jobs. `run_maintenance` gives up the lock while the driver runs the job: what other threads do to
-- the service in the meantime is an argument of it. `Supervisor.Calls` has sequences of calls on a
-- service, these interleavings included. `Supervisor.Local` is the shared part of the proofs: what
-- a property must satisfy for every method to keep it.
--
-- `Supervisor.Scheduler` has scheduler.py, split into the reading of a schedule and the question
-- whether it is due, and `_validate_jobs`; `Supervisor.Due` has the jobs of `tick`. What the local wall
-- clock shows at a time is an argument. A digit or a letter of a schedule is an ASCII one.
--
-- Router (scripts/ubb_router). `Router.Models` has models.py and the transition graph of
-- state_machine.py, `Router.Policy` the authorization of policy.py, and `Router.Sessions` and
-- `Router.Routing` the class of router.py: `change_state` is `_transition`, `establish` and `abandon`
-- are the two halves of `open_session`, `shut` the part of `close_session` between CLOSING and the
-- parent. A session is an object that its methods share: here it is found in the index by its id
-- each time. The supervisor, the connectors, the streams and the naming of sessions are operations
-- on a world (`Router.Sessions.Ports`). `Router.Calls` has sequences of calls, one after the other.
-- The router reads the registry through `Registry.Queries`.
--
-- Admin (scripts/ubb_admin/auth.py, scripts/ubb_dashboard.py). `Admin.Throttle` is `LoginThrottle`,
-- `Admin.Accounts` has `AuthStore`, `SessionStore` and `DashboardApp.login`, and `Admin.Actions` the
-- actions of actions.py that reach the supervisor. Hashing, new tokens and
-- the readings of the clock are arguments; the clock of the throttle
-- is in microseconds.
--
-- Archive (scripts/ubb_archive.py). `Archive.Models` has the documents, `Archive.Filenames` the
-- function `safe_filename` on code points, `Archive.Store` the archive's directories as dictionaries,
-- the look-ups and the documents that are written, `Archive.Preserve` the functions
-- `preserve_stream` and `verify_one`, `Archive.Derive` the function `derive` and `Archive.Export` the
-- function `build_export`, without the texts that it writes beside the copy. A stream is the list of its
-- reads, each a chunk or an exception; hashing is an argument. An import runs as a whole, since
-- another one of the same id is refused while the lock is there; one that looked for the document
-- before another wrote it, and takes the lock after, is left out.
--
-- Edge (scripts/ubb_edge.py). `Edge.Names` has the checks of single values, `Edge.Models` the
-- `__post_init__` of each class of parts, as a function from the fields given to the fields kept, and
-- `Edge.Config` that of `EdgeConfig`. Texts are ASCII where they are put in lower case. Python's
-- `ipaddress` is an argument.
--
-- Network (scripts/ubb_network.py, scripts/ubb_network_hardening.py). `Network.Config` has the two
-- configurations, `Network.Inventory` the checks of an inventory. The search for cycles is recursion on
-- a number that stands for Python's limit on recursion: one more than the number of services is
-- enough.
--
-- Monitoring (scripts/ubb_monitoring/engine.py). `Monitoring.Alerts` has `evaluate`, as a function
-- from the stored alerts to those stored and answered; `Monitoring.Storage` the health of a storage
-- root and `heartbeat_ingest`. Alerts that are read back are those that were written.
--
-- Ftn (scripts/ubb_ftn.py). `Ftn.Address` reads and prints FidoNet addresses, `Ftn.Config` has the
-- `__post_init__` of each class. An address is the list of its code points. A number is printed in
-- as many rounds as its size, which is more than it has digits.
--
-- A driver (drivers.py), the clock, the naming of sessions and the driver's choice are parameters
-- (`Env`): the driver's calls may change its world and its part of the instance, `runtime`, and
-- answer or raise. `Supervisor.Fake` is the fake driver and clock of drivers.py and clock.py.
-- Times are natural numbers, in microseconds, in place of ISO strings, so a time that is written and
-- parsed again is itself. A clock moves where the model sleeps or calls the world, and two readings
-- with nothing between them are the same. Messages of exceptions are left out: an exception is
-- its class, with the driver's own text where the source keeps it.
--
-- Bounds: `stack_depth` is Python's limit on recursion. Starting, failing and restarting call each
-- other with no other limit, and the model raises `recursion_limit` at the same point as Python
-- raises RecursionError, so no property assumes that the depth is enough. The wait for readiness is
-- recursion on a number of polls, two more than the timeout has microseconds, since each
-- that goes on sleeps for the poll interval or to the deadline. That these are enough on a clock that
-- moves as it sleeps is a property of `Supervisor.Waiting`.
--
-- Not modelled: files, sockets and processes; methods of the router that run beside each other;
-- the runtime manager's adapters (scripts/ubb_runtime); the dashboard's pages, backup
-- and deployment; the gateways for mail, news, IRC and offline exchange;
-- the texts that configurations are rendered to, but for the clock server's.
mod Prelude
pub mod Errors
pub mod Registry
pub mod Supervisor
pub mod Router
pub mod Admin
pub mod Archive
pub mod Edge
pub mod Network
pub mod Monitoring
pub mod Ftn
