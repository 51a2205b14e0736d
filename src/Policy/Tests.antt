-- ===== src/Policy/Tests.antt =====
-- The policy engine at concrete states.
use hisnos_secure_workstatio.Common.{◌≡◌, true, false}
use hisnos_secure_workstatio.State.{SystemState, safe_mode, default_state}
use hisnos_secure_workstatio.Policy.{reject_lab_start, evaluate}
use hisnos_secure_workstatio.Policy.Rules.{mentions, wanted, evaluate-wanted}

-- Safe mode with every condition for leaving it met.
abbrev calm : SystemState
calm = record (default_state 5) {
  mode = safe_mode;
  firewall = record { active = true; enforced_profile = "strict"; last_reload = 3 };
  subsystems = record {
    dashboard_alive = false;
    threatd_alive = true;
    logd_alive = true;
    nftables_alive = true;
  };
}

evaluate-wanted_example : mentions reject_lab_start (evaluate calm) ≡ wanted reject_lab_start calm
evaluate-wanted_example = evaluate-wanted reject_lab_start calm
