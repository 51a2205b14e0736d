-- ===== src/Gaming/Session.antt =====
-- gaming/hispowerd/main.go: a gaming session, from `startGaming` to `stopGaming`, the safety net and
-- the cleanup at the start of the daemon.
-- cpu/isolator.go, tuning/tuning.go and the mode of the control plane are known by the calls they
-- get and by what they answer. Events and the names of the game are left out.
use hisnos_secure_workstatio.Common.{
  Bool, true, false, not, ◌&&◌, List, [], ◌∷◌, ◌++◌, String, if◌then◌else◌,
}
use hisnos_secure_workstatio.Gaming.{
  Config, Env, Machine, Saved, Throttler, throttle_apply, throttle_restore,
}
use hisnos_secure_workstatio.Gaming.Irq.{
  irq_apply, irq_restore, irq_emergency, fast_apply, fast_restore, fast_emergency,
}

-- `applied`.
pub record Applied : Type 0 where
  pub cpu_isolation : Bool
  pub irq_affinity : Bool
  pub throttled : Bool
  pub firewall_fast : Bool
  pub tuned : Bool
  pub mode_changed : Bool

abbrev pub nothing_applied : Applied
nothing_applied = record {
  cpu_isolation = false;
  irq_affinity = false;
  throttled = false;
  firewall_fast = false;
  tuned = false;
  mode_changed = false;
}

-- The calls of the parts that are not modelled.
pub data Call : Type 0 where
  isolate unisolate reset_cpus tune untune verify_policy : Call
  set_mode : String → Call

-- `gaming_active` is that field of the state file, in memory and as it is stored.
pub record Session : Type 0 where
  pub gaming : Bool
  pub phases : Applied
  pub throttler : Throttler
  pub irq_saved : List Saved
  pub fast_applied : Bool
  pub gaming_active : Bool
  pub stored_active : Bool
  pub machine : Machine

-- The new state of the daemon, and the calls in their order.
abbrev pub Done : Type 0
Done = Session × List Call

abbrev pub stored : Env → Bool → Session → Session
stored env active d = record d {
  gaming_active = active;
  stored_active = if env.state_writes then active else d.stored_active;
}

-- `startGaming`: a phase that fails does not stop the next one.
unfoldable pub start_gaming : Config → Env → Session → Done
unfolding irq_apply throttle_apply fast_apply
start_gaming cfg env d =
    let (irq_saved, m1, irq_fine) = irq_apply cfg env d.machine in
    let (throttler, m2, throttle_fine) = throttle_apply cfg env m1 in
    let (fast_applied, m3, fast_fine) = fast_apply env d.fast_applied m2 in
    (
      stored env true (record d {
        gaming = true;
        phases = record {
          cpu_isolation = env.isolates;
          irq_affinity = irq_fine;
          throttled = throttle_fine;
          firewall_fast = fast_fine;
          tuned = env.tunes;
          mode_changed = env.mode_sets;
        };
        throttler = throttler;
        irq_saved = irq_saved;
        fast_applied = fast_applied;
        machine = m3;
      }),
      isolate ∷ tune ∷ set_mode "gaming-performance" ∷ [],
    )

abbrev pub called : Bool → List Call → List Call
called c calls = if c then calls else []

-- The steps of `stopGaming` that change the machine, in their order: phase 5, 4 and 3.
unfoldable pub stop_fast : Env → Session → Session
unfolding fast_restore
stop_fast env d =
    let (applied, m) = fast_restore env d.fast_applied d.machine in
    if d.phases.firewall_fast then record d { fast_applied = applied; machine = m } else d

unfoldable pub stop_throttle : Config → Env → Session → Session
unfolding throttle_restore
stop_throttle cfg env d =
    let (t, m, fine) = throttle_restore cfg env d.throttler d.machine in
    if d.phases.throttled then record d { throttler = t; machine = m } else d

-- `EmergencyRestore` follows a `Restore` that failed.
unfoldable pub restore_irqs : Env → List Saved → Machine → List Saved × Machine
unfolding irq_restore irq_emergency
restore_irqs env saved m =
    let (saved1, m1, fine) = irq_restore env saved m in
    if fine then (saved1, m1) else irq_emergency env saved1 m1

unfoldable pub stop_irqs : Env → Session → Session
unfolding restore_irqs
stop_irqs env d =
    let (saved, m) = restore_irqs env d.irq_saved d.machine in
    if d.phases.irq_affinity then record d { irq_saved = saved; machine = m } else d

-- `stopGaming`.
unfoldable pub stop_gaming : Config → Env → Session → Done
unfolding stop_fast stop_throttle stop_irqs
stop_gaming cfg env d =
    if d.gaming
    then (
      stored env false (record (stop_irqs env (stop_throttle cfg env (stop_fast env d))) {
        gaming = false;
        phases = nothing_applied;
      }),
      called d.phases.tuned (untune ∷ [])
          ++ (called d.phases.firewall_fast (verify_policy ∷ [])
              ++ (called d.phases.cpu_isolation
                    (unisolate ∷ called (not env.unisolates) (reset_cpus ∷ []))
                  ++ called d.phases.mode_changed (set_mode "normal" ∷ []))),
    )
    else (d, [])

-- What `safetyNet` and `ensureCleanStart` have in common.
unfoldable pub clean_up : Config → Env → Session → Done
unfolding irq_emergency fast_emergency throttle_restore
clean_up cfg env d =
    let (saved, m1) = irq_emergency env d.irq_saved d.machine in
    let (applied, m2) = fast_emergency env m1 in
    let (t, m3, fine) = throttle_restore cfg env d.throttler m2 in
    (
      stored env false
          (record d { irq_saved = saved; fast_applied = applied; throttler = t; machine = m3 }),
      reset_cpus ∷ untune ∷ set_mode "normal" ∷ [],
    )

unfoldable pub safety_net : Config → Env → Session → Done
unfolding clean_up
safety_net cfg env d = if d.gaming then clean_up cfg env d else (d, [])

unfoldable pub ensure_clean_start : Config → Env → Session → Done
unfolding clean_up
ensure_clean_start cfg env d = if d.gaming_active then clean_up cfg env d else (d, [])

-- A new process on the machine and the state file of an old one.
unfoldable pub new_process : Session → Session
new_process d = record d {
  gaming = false;
  phases = nothing_applied;
  throttler = record { saved = []; timer_stopped = false };
  irq_saved = [];
  fast_applied = false;
  gaming_active = d.stored_active;
}

-- `cycle`, with what the control plane and the detector say.
unfoldable pub cycle : Config → Env → Bool → Bool → Session → Done
unfolding start_gaming stop_gaming
cycle cfg env blocked active d =
    if blocked
    then stop_gaming cfg env d
    else if active && not d.gaming
    then start_gaming cfg env d
    else if not active && d.gaming
    then stop_gaming cfg env d
    else (d, [])
