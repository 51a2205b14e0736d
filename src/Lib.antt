-- ===== src/Lib.antt =====
-- The HisnOS control plane: the parts of its Go daemons that keep the state of the workstation and
-- decide what may happen to it.
--
-- The core daemon holds one authoritative state, changed by its manager and, with a journal, by its
-- transaction manager. The policy engine reads that state and recommends actions. The safe-mode
-- enforcer and the watchdog keep states of their own: the watchdog restarts subsystems that fall
-- silent and asks for safe mode when a critical one keeps failing. The dashboard's backend has a
-- control plane of its own, with modes and a table of transitions. Beside them stand the self-healer,
-- which restarts services that exit, the event bus, the history of deployments with its suggestions
-- for a rollback, the coordinator that restores snapshots of all subsystems, and the state of the
-- first-run wizard. Clients reach the core daemon through the requests of its socket, which pass the
-- gate of the safe-mode enforcer; and each event on the bus makes the policy loop evaluate the state
-- and carry out what the engine recommends. The supervisor compares the state with the services that
-- really run, and the policy enforcer executes actions by their priority. Containment
-- cuts the host off in an emergency and restores it. A daemon of its own tunes the machine for a
-- gaming session and puts its files back afterwards, and a controller lowers the core daemon's share of
-- the CPU as the machine grows hot. Requests to the dashboard's backend, such as
-- preparing an update, go through guards to its control plane. Security events pass through a stream
-- that keeps the latest in a ring, and the marketplace checks the plugins that it installs and runs.
--
-- Which file models what:
--   AtomicFile     the temporary file, write, sync and rename that the parts save their states with
--                  (core/state/state.go, persist; core/runtime/safemode.go, persistState)
--   State          core/state/state.go: the record SystemState, NewManager, load, Update, persist
--   Policy         core/policy/policy.go: Evaluate as the rules P1 to P8, and the guards Can*
--   ControlPlane   dashboard/backend/state/control_plane.go: ParseMode, allowedTransitions,
--                  TransitionMode, SetVaultMounted, SetModeWithGuardLocked and the Set* methods
--   SafeMode       core/runtime/safemode.go: Enter, Exit, CanExit, IsBlocked and the stored state
--   Watchdog       core/runtime/watchdog.go: Register, Beat, tick, Status
--   Transactions   core/runtime/transaction_manager.go: Apply, ReplayJournal, CorruptionDetected,
--                  MigrateSchema and the journal
--   DeploymentGraph  core/ecosystem/deployment_graph.go: RecordCurrent, SuggestRollback, Status
--   SelfHealer     core/supervisor/self_healer.go: RestartNotify, ProbeAll, Reset and the restarts
--   EventBus       core/eventbus/eventbus.go: Subscribe, Publish, Emit
--   GlobalRollback core/orchestrator/global_rollback.go: Register, TakeSnapshot, RollbackTo*, restore,
--                  and the two hooks of core/main.go
--   Ipc            core/ipc/server.go: dispatch, the handlers cmd* and guardModeTransition, behind the
--                  gate of core/main.go
--   Daemon         core/main.go: runPolicyLoop, dispatchLegacyAction, riskLevel
--   Gaming         gaming/hispowerd: startGaming, stopGaming, safetyNet, ensureCleanStart (main.go), with
--                  throttle/throttle.go, irq/affinity.go, firewall/fastpath.go and
--                  cpu/isolator.go
--   Enforcer       core/runtime/policy_enforcer.go: Submit, Less, worker, execute
--   Supervisor     core/supervisor/supervisor.go: checkAll, recordCrash, attemptRestart
--   Containment    core/security/containment/containment.go: the measures and their restores
--   EventStream    core/telemetry/security_events_stream.go: Emit, Subscribe, Unsubscribe, Recent,
--                  RecentByCategory, persist
--   Marketplace    core/marketplace/registry.go: Install and its checks, Enable, Disable, Uninstall,
--                  Run, the index, versionGE
--   Dashboard      dashboard/backend/api: UpdatePrepare, UpdateApply, UpdateRollback, UpdateValidate
--                  (update.go), VaultLock, VaultMount (vault.go), FirewallReload (firewall.go),
--                  SystemReboot (reboot.go), SystemModeTransition (system.go), LabStart, LabStop
--                  (lab.go), LabNetworkProfileSet (lab_network.go) and the guards of state_guards.go
--   Thermal        core/performance/thermal_controller.go: Tick, maxTemperature, classifyTier, applyTier
--   Onboarding     onboarding/backend/state/state.go: MarkStepComplete, MarkComplete, AddWarning, and
--                  the pages of onboarding/backend/api/wizard.go that call them
-- A method of a struct is a function from the state of that struct to the new state and the error.
-- What the surroundings decide (the clock, which file operation fails, whether a line is appended) is
-- an argument. Mutexes make each method one step, and a history is a list of calls. Commands, alerts
-- and goroutines that a method starts are a list of effects. Times are nanoseconds since Go's zero
-- time, as natural numbers, and a difference of times stops at zero. JSON, SHA-256 and floating-point
-- comparison are parameters, with the round trip of an encoding as a hypothesis where a theorem needs
-- it. Strings are the library's texts. Each loop is structural, but for the
-- worker of the policy enforcer: its fuel is the length of the queue, which is enough since each turn
-- takes one action out. The policy loop runs on a list of turns.
--
-- A request to the dashboard is one step too: requests that come while a script runs are not modelled.
-- Of the files that a gaming session changes, cpu.max and smp_affinity are modelled, and not the
-- scaling governor and the settings of the scheduler (tuning/tuning.go).
--
-- Not modelled: log lines, HTTP and sockets, the parts that only run external programs or parse
-- /proc, the wiring of the programs, and statistics over floating-point numbers.
mod Common
pub mod AtomicFile
pub mod State
pub mod Policy
pub mod ControlPlane
pub mod SafeMode
pub mod Watchdog
pub mod Transactions
pub mod DeploymentGraph
pub mod SelfHealer
pub mod EventBus
pub mod Onboarding
pub mod GlobalRollback
pub mod Ipc
pub mod Daemon
pub mod Gaming
pub mod Enforcer
pub mod Supervisor
pub mod Containment
pub mod EventStream
pub mod Marketplace
pub mod Dashboard
pub mod Thermal
