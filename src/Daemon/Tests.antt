-- ===== src/Daemon/Tests.antt =====
-- core/main.go: the policy loop at concrete states.
use hisnos_secure_workstatio.Common.{◌≡◌, arith, true, false, none, pos, [], ◌∷◌}
use hisnos_secure_workstatio.AtomicFile.Tests.{plain, no_fault, disk_full}
use hisnos_secure_workstatio.State.{SystemState, Mode, normal, safe_mode, default_state}
use hisnos_secure_workstatio.Daemon.{World, Daemon, channel, handle_event, run_policy_loop}
use hisnos_secure_workstatio.Daemon.Loop.{run_policy_loop-drains}
use hisnos_secure_workstatio.Daemon.Decisions.{handle_event-next_mode}

abbrev usual : World
usual = record { now = 9; fails = no_fault; vault_executes = true; firewall_executes = true }

-- The disk is full and nothing outside works.
abbrev broken : World
broken = record { now = 9; fails = disk_full; vault_executes = false; firewall_executes = false }

-- A state at risk 95, with its vault open.
abbrev at_risk : Mode → SystemState
at_risk k = record (default_state 5) {
  mode = k;
  risk = record { score = pos 95; level = "critical"; last_update = 0 };
  vault = record { mounted = true; exposure_seconds = pos 7 };
  lab = record { active = true; session_id = "s1"; network_profile = "isolated" };
}

-- The same at a low risk, with the firewall and the audit pipeline up.
abbrev recovered : SystemState
recovered = record (at_risk safe_mode) {
  risk = record { score = pos 20; level = "low"; last_update = 0 };
  firewall = record { active = true; enforced_profile = "default"; last_reload = 0 };
  subsystems = record {
    dashboard_alive = false;
    threatd_alive = true;
    logd_alive = true;
    nftables_alive = true;
  };
}

abbrev daemon : SystemState → Daemon SystemState
daemon s = record {
  manager = record { state = s; disk = record { live = none; temp = none } };
  bus =
      record {
        buffer = record { type = "ModeChanged"; timestamp = 3; payload = "startup" } ∷ [];
        filter = "";
      }
      ∷ [];
}

run_policy_loop-drains_example :
    channel
      (run_policy_loop
        (plain SystemState)
        (usual ∷ broken ∷ usual ∷ broken ∷ [])
        (daemon (at_risk normal))).bus
    ≡ []
run_policy_loop-drains_example =
    run_policy_loop-drains (plain SystemState) (usual ∷ broken ∷ usual ∷ broken ∷ [])
      (daemon (at_risk normal)) (omega arith)

-- Safe mode is left without an acknowledgement.
handle_event-next_mode_example :
    (handle_event (plain SystemState) usual (daemon recovered)).manager.state.mode ≡ normal
handle_event-next_mode_example = handle_event-next_mode (plain SystemState) usual (daemon recovered)
