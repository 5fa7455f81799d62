-- ===== src/Lib.antt =====
-- A verification library for io-thread-controller: the daemon that sizes the I/O worker pools of
-- virtual machines. Paths are from the root of the repository.
--
-- The program. Discovery gives the controller (src/controller.rs) the complete list of VMs, which
-- `sync_instances` makes its inventory; a VM's status (src/instance.rs) is refreshed from a backend
-- snapshot. Once per poll, `tick` hands the fleet to a scaling engine (src/engines/mod.rs), which
-- answers with actions on VMs: none, a size up, a size down, or a revert. The controller
-- orders the actions, applies them through its guards, and reports every outcome to the engine. The
-- engine of the repository is the threshold engine (src/engines/threshold.rs): it compares the
-- utilisation with a threshold, measures the operations per second after each action, reverts an action
-- that did not pay, and holds and backs off after failures. Which VMs are managed at all is kept in a
-- registry on disk (src/state.rs). Manual requests over D-Bus bypass the engine. Settings are
-- validated when the daemon starts, and durations become poll counts (src/config.rs).
--
-- The files.
--   Base      shared names, Boolean tests, lists, sorting, saturating words, texts, maps by identifier
--   Float     the operations of `f64` that the code uses, as an interface
--   Engines   src/engines/mod.rs: `ScaleAction`, `EngineTickContext`, `AppliedOutcome` and the reasons
--             for blocking
--   Fleet     src/engines/mod.rs: the trait `ScalingEngine` as a record of operations, its default
--             `evaluate_fleet`, and the threshold engine as an implementation
--   Threshold src/engines/threshold.rs: `evaluate`, `on_applied`, notices of added and removed VMs;
--             Settings, State, Target, Validation and Build hold the functions that these call, and
--             Decisions, Runs, Recovery, Settlement, Sizing, Backoff, Isolation and Startup the proofs
--   State     src/state.rs: `VmOwnership` and `VmStateStore`; Ownership and Store prove
--   Config    src/config.rs: `Config`, `PollPeriod`, `PollConverter`, `validate_config`; Durations and
--             Validation prove
--   Registries src/engines/mod.rs, src/backends/mod.rs: engines and backends by name
--   Sockets   src/backends/mod.rs: discovery through control sockets and its cache of peers; Peers and Cache prove
--   PerVmLog  src/per_vm_log.rs: the log files of VMs
--   Rolling   src/rolling.rs: `RollingMetrics`; Window proves
--   Instance  src/instance.rs: `InstanceStatus`, the samples, and the calls of a client; Rates is
--             `update_perf_rates`, Tasks the sampling of a process and the utilisation of workers, and
--             Refresh `refresh_state`, with Policy
--   Controller src/controller.rs: Actuation is `apply_engine_decision`, with proofs in Safety and
--             Cooldown; Plan is the middle of `tick`, with Sorting, Order, Limits, Effects and View; Inventory is
--             `sync_instances`, with Tracked; Manual is `handle_set_thread_count`, with Override;
--             Registry is `persist_new_classifications`, with Durable and Agreement; HostCpu is the host's
--             CPU samples; Tick is the whole of `tick`, with Soundness; Sound is the invariant of the
--             inventory; Snapshot is the content of `GetSnapshot` and `GetStats`, and Requests
--             `handle_dbus_request` (with the requests of src/dbus.rs)
--   Daemon    src/daemon.rs: the event loop of `run`, with `Controller::new`; Ownership proves
--   Qemu      src/backends/qemu: errors (also src/backends/mod.rs); Mapping is `round_robin_vq_mapping`
--             and Names `next_qemu_iothread_id` (helpers.rs), with Balance, Decimal and Fresh; Cpu is
--             `CpuSample` and Topology `QemuTopology`; Transport is `LibvirtQmp` (libvirt.rs) with Blockstats; Client is
--             `QemuInstanceClient` (client.rs): the steps `scale_up` and `scale_down`, and in Loops
--             `set_thread_count`, in Snapshot `get_thread_pool_snapshot`; Steps and Resize prove what size a request leaves, Pool, Guest,
--             Safety and Request that it loses no queue; Backend is a host's clients as the `World` of
--             the controller, with Safety and View; Discovery is `QemuBackend` (mod.rs) and the listing of
--             `LibvirtConn` (libvirt.rs)
-- Each component has a module Examples with runs and instances of its theorems.
--
-- The correspondence. A struct is a record with the source's fields, and an enum a data type with
-- its variants. A method that changes `self` takes and returns the record; shared state behind
-- locks is passed on the same way, in the order in which the code takes the locks. `HashMap` is an
-- association list with replacement in place, whose order stands for the unspecified order of
-- iteration. `Instant` and `Duration` are nanoseconds, whose sum is not bounded (std's panic on
-- overflow is left out), and `u32`, `u64` numbers are natural numbers with the saturation or the
-- wrapping of the source written out. An `f64` is a value of a type with the operations of Float;
-- no law of it is assumed, so what is proved holds for rounding, NaN and infinities alike; the runs
-- compute with millionths. An error is a constructor that says which message it is.
--
-- Code outside the repository is an argument: the file system and the JSON codec (`Disk`, `Codec`),
-- a VM's client and the clock (`World`), what a refresh reads of a client and of procfs (`Probe`),
-- the kernel's tick rate, libvirt's monitor command and serde's decoding of its replies
-- (`Monitor`), the regexes on QEMU's metrics (`Metrics`), the file system of the log files
-- (`LogFiles`), procfs as the QEMU client reads it (`Procfs`), the control sockets (`Kernel`), and
-- the domains of libvirt (`Libvirt`). What a theorem needs of them is among its hypotheses.
--
-- Bounds and fuel. All loops of the modelled code but two run over a list or count down, so their
-- definitions are structural. The two loops of `set_thread_count` run on fuel: the size asked for and
-- one, and the size of the pool and one; Resize proves it enough. The fuel of `decimal` is the number
-- and one, which is above its count of digits. Conversions of durations are stated for durations not within one
-- poll period of the largest u64, where the code's saturating addition would no longer give a multiple.
--
-- Not modelled: log lines and status lines, the pressure samples that no engine reads, the dump and
-- the loading of JSON files, the reading of the cgroup files, the command line, and the terminal
-- dashboard.
pub mod Base
pub mod Float
pub mod Engines
pub mod Threshold
pub mod State
pub mod Config
pub mod Registries
pub mod Rolling
pub mod Instance
pub mod PerVmLog
pub mod Qemu
pub mod Sockets
pub mod Fleet
pub mod Controller
pub mod Daemon
