-- ===== src/ControlPlane.antt =====
-- dashboard/backend/state/control_plane.go: the control plane's state record.
-- Times are nanoseconds since Go's zero time; `meta` is the JSON text of the value given.
pub mod Modes
pub mod Manager
mod Tests
use hisnos_secure_workstatio.Common.{ℕ, ℤ, pos, Bool, true, false, List, [], ◌∷◌, String}

-- `other` carries any text that is none of the named constants (the empty one too).
pub data Mode : Type 0 where
  normal gaming lab_active vault_mounted update_preparing update_pending rollback_mode : Mode
  other : String → Mode

pub record Transition : Type 0 where
  pub from : Mode
  pub to : Mode
  pub action : String
  pub at : ℕ
  pub meta : String

-- `profile_other` as `other` above.
pub data LabNetworkProfile : Type 0 where
  offline allowlist dns_sinkhole http_proxy : LabNetworkProfile
  profile_other : String → LabNetworkProfile

pub record LabFacts : Type 0 where
  pub network_profile : LabNetworkProfile
  pub allowed_cidrs : List String
  pub proxy_addr : String
  pub veth_host_iface : String
  pub nft_session_set : String

pub record KernelValidation : Type 0 where
  pub last_result : String
  pub last_time : String
  pub last_deployment : String

pub record UpdateFacts : Type 0 where
  pub staged_deployment : String
  pub staged_prepare_time : String
  pub last_apply_time : String
  pub last_rollback_time : String

pub record SystemState : Type 0 where
  pub version : ℤ
  pub mode : Mode
  pub vault_flag : Bool
  pub update_facts : UpdateFacts
  pub kernel_validation : KernelValidation
  pub lab : LabFacts
  pub last_transition : Transition
  pub updated_at : ℕ

-- The initial state; the fields that the literal leaves out have Go's zero values.
abbrev pub default_state : ℕ → SystemState
default_state now = record {
  version = pos 1;
  mode = normal;
  vault_flag = false;
  update_facts = record {
    staged_deployment = "";
    staged_prepare_time = "";
    last_apply_time = "";
    last_rollback_time = "";
  };
  kernel_validation = record { last_result = ""; last_time = ""; last_deployment = "" };
  lab = record {
    network_profile = profile_other "";
    allowed_cidrs = [];
    proxy_addr = "";
    veth_host_iface = "";
    nft_session_set = "";
  };
  last_transition = record { from = normal; to = normal; action = "init"; at = now; meta = "" };
  updated_at = now;
}
