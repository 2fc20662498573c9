-- ===== src/Lib.antt =====
-- A verification library for lean-rs: the supervisor of a Lean worker process, the pool of such
-- workers, which host the Lean runtime in child processes that can be measured, restarted and
-- reused, the planner and the builders of their work, and the pool of imported environments inside
-- one process.
--
-- The program. A parent process runs typed requests in worker children. One supervisor
-- (crates/lean-rs-worker-parent/src/supervisor.rs, `LeanWorker`) owns one child: it spawns it,
-- sends requests, watches its memory and replaces it when a limit of its policy is reached. A pool
-- (crates/lean-rs-worker-parent/src/pool.rs, `LeanWorkerPool`) owns several supervisors, one for
-- each session key, and lends them out as leases. A planner
-- (crates/lean-rs-worker-parent/src/planning.rs) groups modules into batches of one session key
-- each, and a builder (capability.rs) opens a batch's capability. Supervisor and pool talk to the
-- child in the messages of crates/lean-rs-worker-protocol/src/protocol.rs and types.rs. The child
-- (crates/lean-rs-worker-child/src/child.rs) holds several imported environments and serves one.
-- Inside one process a pool of its own (crates/lean-rs-host/src/host/pool.rs, `SessionPool`) keeps
-- imported environments for reuse.
--
-- The files.
--   Common            the names that all files share: Boolean tests, lists, options, saturating words,
--                     derived equality and order
--                     (Common/Equality, Common/Order, Common/Unique)
--   Protocol/Message  protocol.rs and types.rs: the messages and facts that the supervisor inspects
--   Protocol/Frame    protocol.rs: `write_frame`, `read_frame`
--   Protocol/Rows     protocol.rs: `DataRowEmitter`
--   Supervisor/Types  supervisor.rs: reasons, exits, errors, `duration_ms`; session.rs: the facts of a
--                     cancellation before the dispatch
--   Supervisor/Policy `LeanWorkerRestartPolicy`, `GenerationBudget` (Policy/Room: the room under a limit)
--   Supervisor/Stats  `LeanWorkerStats`, `record_restart`, `LeanWorkerLifecycleSnapshot`
--   Supervisor/Session  session.rs: `LeanWorkerSessionConfig`, the key of a pooled session
--   Supervisor/Worker `LeanWorker`, `WorkerSupervisorState`, `status`, `ensure_running`, requests in flight
--   Supervisor/Shutdown  `shutdown_child`, `wait_for_graceful_shutdown`, `kill_and_report`
--   Supervisor/Spawn  `LeanWorker::spawn`
--   Supervisor/Restart  `restart_with_reason`, `admit_restart`
--   Supervisor/Reader `read_request_messages`, the thread that reads the frames of one request
--   Supervisor/Sinks  session.rs: the reports of progress, rows and diagnostics to the parent's sinks
--   Supervisor/Stream the end of a request: `terminalize_request_response`, `record_exit_error`,
--                     `hard_rss_limit_exceeded`
--   Supervisor/Request  `read_response_with_events`, the event loop of one request
--   Supervisor/Admission  `prepare_request`, `record_request`, `record_import`
--   Supervisor/Reuse  `open_worker_session`, `note_open_session_key`
--   Supervisor/Measure  `rss_kib`, `record_command_timing`, `set_request_timeout`
--   WorkerChild/Key   protocol.rs and child.rs: `HostSessionMode`, `HostSessionKey`; supervisor.rs: how the
--                     parent fills a request from its `LeanWorkerSessionConfig`
--   WorkerChild/Sessions  crates/lean-rs-worker-child/src/child.rs: `open_or_reuse_host_session`,
--                     `evict_stale_host_sessions`; Sessions/Agree puts it against the parent's list
--   WorkerPool/Config pool.rs: `LeanWorkerSessionKey`, `LeanWorkerPoolConfig`
--   WorkerPool/Entry  `PoolEntry`, `enforce_policy`, `cycle_for_policy`
--   WorkerPool/State  `LeanWorkerPool`, its counters, `refresh_total_child_rss`, `pool_resource_facts`
--   WorkerPool/Pool   `admit_lease`, `pool_full_error`, `ensure_spawn_within_total_rss_budget`
--   WorkerPool/Lease  `acquire_lease`, `release_once`, the end of a lease
--   WorkerPool/Run    `run_with_current_session`, `ensure_valid`, `map_lifecycle_result`
--   Planner/Names     planning.rs: `validate_module_name`, the errors (Names/Split: dots and components)
--   Planner/Work      planning.rs: configuration, work items, batches, group keys and their order
--   Planner/Config    planning.rs: the builder methods of the configuration
--   Planner/Groups    the `BTreeMap` of groups and the stable sort that the planner uses
--   Planner/Plan      planning.rs: `plan_work_items`, `plan_discovered`, `plan_lake_project`; pool.rs: the
--                     builder of a session key
--   Capability/Child, Capability/Builder  capability.rs: `LeanWorkerChild`, `LeanWorkerModuleCacheLimits`,
--                     `LeanWorkerCapabilityBuilder` and its builder methods
--   Capability/Session  capability.rs: `session_key`; planning.rs: `capability_builder`
--   Capability/Worker  supervisor.rs: the builder methods of `LeanWorkerConfig`; capability.rs: the
--                     configuration that `spawn_checked_worker` makes
--   Toolchain/Abi     crates/lean-toolchain/src/loader.rs: the ABI of exports and its texts;
--                     crates/lean-rs-worker-protocol/src/worker_exports.rs: the signatures of exports
--   Texts/Bound       the bounds on the bytes of a text: `bound_message` of crates/lean-rs/src/error/mod.rs,
--                     `bound_loader_text`, `bound_rendered_info`, `bound_bootstrap_text`
--   HostPool/State    host/pool.rs: `SessionPool`, its keys, policy, counters, `take_matching`,
--                     `sweep_stale`
--   HostPool/Acquire  `acquire_with_profile`, `enforce_before_fresh_import`, `release`, `drain`
-- A child module of one of these holds proofs about it and is named for what it proves; the Tests
-- modules hold concrete workers and pools.
--
-- How the code is rendered. A method of the supervisor is a function from the worker to its result
-- and the worker that it leaves, also on an error. Whatever the operating system, the clock or the
-- child answers is an argument: a poll of the child, an RSS sample, the instants, the outcome of a
-- spawn, a frame's write error, the rounds of a wait. The waits loop over the rounds that the
-- argument lists, so they recurse on its structure and need no fuel; the loop of
-- `bound_bootstrap_text`, which need not end, takes its number of rounds. A `Duration` and an
-- `Instant` are numbers of nanoseconds, and a subtraction of instants stops at zero as
-- `saturating_duration_since` does. Counters are `u64` with `saturating_add`; a length fits a
-- `u64`. A formatted message is the list of its pieces.
-- A path of the parent's session configuration is the list of its components, which is what Rust
-- compares; the text that the child is sent for it is an argument. The paths in the key of a pool and
-- in the configuration of a planner are the texts of their components, one for each path; their order
-- matters to no plan, since one plan has one root. The elapsed times of a shutdown report are
-- left out. A lease borrows its entry exclusively: it carries the entry and gives it back when it
-- ends. A sink of the embedder is an argument that returns or panics, and what it has taken is
-- recorded.
--
-- Not modelled: the JSON codec, which is a parameter of the frames; the opening of a capability,
-- whose result is an argument of `acquire_lease`; the discovery of a project's modules, whose
-- answer is an argument of `plan_lake_project`; the aggregation of pool snapshots; the child's
-- request loop; the import of a host session, whose result is an argument of
-- `acquire_with_profile`; and the crates that call the Lean runtime through its C interface
-- (crates/lean-rs but for the bound on its error messages, crates/lean-rs-sys, the rest of
-- crates/lean-rs-host), which work on raw memory.
pub mod Capability
pub mod Common
pub mod HostPool
pub mod Planner
pub mod Protocol
pub mod Supervisor
pub mod Texts
pub mod Toolchain
pub mod WorkerChild
pub mod WorkerPool
