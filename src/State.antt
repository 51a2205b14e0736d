-- ===== src/State.antt =====
-- core/state/state.go: the daemon's state record and its manager.
-- Times are nanoseconds since Go's zero time, so that `t.IsZero()` is `t == 0`. The mutex makes
-- each method one step. encoding/json is the argument `json`.
pub mod Manager
mod Tests
use hisnos_secure_workstatio.Common.{ℕ, ℤ, pos, Bool, true, false, String}

-- `other` carries any text that is none of the named constants (the empty one too).
pub data Mode : Type 0 where
  normal gaming lab_active update_preparing update_pending_reboot rollback_mode safe_mode : Mode
  other : String → Mode

pub record RiskState : Type 0 where
  pub score : ℤ
  pub level : String
  pub last_update : ℕ

pub record VaultState : Type 0 where
  pub mounted : Bool
  pub exposure_seconds : ℤ

pub record LabState : Type 0 where
  pub active : Bool
  pub session_id : String
  pub network_profile : String

pub record FirewallState : Type 0 where
  pub active : Bool
  pub enforced_profile : String
  pub last_reload : ℕ

pub record UpdateState : Type 0 where
  pub phase : String
  pub target_deployment : String

pub record SubsystemState : Type 0 where
  pub dashboard_alive : Bool
  pub threatd_alive : Bool
  pub logd_alive : Bool
  pub nftables_alive : Bool

pub record SystemState : Type 0 where
  pub version : ℤ
  pub mode : Mode
  pub updated_at : ℕ
  pub risk : RiskState
  pub vault : VaultState
  pub lab : LabState
  pub firewall : FirewallState
  pub update : UpdateState
  pub subsystems : SubsystemState

abbrev pub state_version : ℤ
state_version = pos 1

-- The fields that the literal leaves out have Go's zero values.
abbrev pub default_state : ℕ → SystemState
default_state now = record {
  version = state_version;
  mode = normal;
  updated_at = now;
  risk = record { score = pos 0; level = "low"; last_update = 0 };
  vault = record { mounted = false; exposure_seconds = pos 0 };
  lab = record { active = false; session_id = ""; network_profile = "" };
  firewall = record { active = false; enforced_profile = "default"; last_reload = 0 };
  update = record { phase = ""; target_deployment = "" };
  subsystems = record {
    dashboard_alive = false;
    threatd_alive = false;
    logd_alive = false;
    nftables_alive = false;
  };
}

-- The mode tests of the source, `m == state.ModeSafeMode` and so on.
abbrev pub is_safe_mode : Mode → Bool
is_safe_mode safe_mode = true
is_safe_mode _ = false

abbrev pub is_update_preparing : Mode → Bool
is_update_preparing update_preparing = true
is_update_preparing _ = false

abbrev pub is_update_pending : Mode → Bool
is_update_pending update_pending_reboot = true
is_update_pending _ = false
