-- ===== src/Ipc.antt =====
-- core/ipc/server.go: the requests of the daemon's socket, their replies, and the tests on commands
-- and modes.
-- A request is served in one step; the socket and the JSON of the lines are left out. Parameters
-- that are missing or of another type are read as "" and false, as the source does. What an outside
-- call answers is part of `Env`; the events that go to the bus are a list of their types. The
-- injected handler and the extensions keep states of their own and do not get the state manager.
pub mod Dispatch
mod Rule
pub mod Guard
pub mod Failures
pub mod Blocked
pub mod SafeModeGate
mod Tests
use text.Mathlib.Text.{◌==◌ as str_eq}
use hisnos_secure_workstatio.Common.{
  ℕ, ℤ, pos, Bool, true, false, not, ◌&&◌, ◌||◌, Option, none, some, List, [], ◌∷◌, ◌⊎◌, inl, inr,
  String, at_least, if◌then◌else◌,
}
use hisnos_secure_workstatio.AtomicFile.{Json, FileStep}
use hisnos_secure_workstatio.State.{
  SystemState, Mode, normal, gaming, lab_active, update_preparing, update_pending_reboot,
  rollback_mode, safe_mode, other,
}
use hisnos_secure_workstatio.State.Manager.{Manager, PersistError, update}
use hisnos_secure_workstatio.Policy.{
  Verdict, permit, refuse, can_start_lab, can_start_gaming, can_reload_firewall,
}

-- `Params` by the keys that the handlers read.
pub record Params : Type 0 where
  pub mode : String
  pub profile : String
  pub session_id : String
  pub confirm : Bool
  pub operator : String

pub record Request : Type 0 where
  pub id : String
  pub command : String
  pub params : Params

-- The data of a reply.
pub data Reply : Type 0 where
  nothing acknowledged : Reply
  snapshot health_of : SystemState → Reply
  mode_set : String → Reply
  lab_session : String → String → Reply
  reloaded_at : ℕ → Reply
  preflight_passed : ℤ → String → Reply
  safe_mode_left : String → Reply
  extension_data : String → Reply

-- The errors of a reply.
pub data Failure : Type 0 where
  blocked mode_required vault_lock_failed firewall_failed preflight_exec gaming_failed : Failure
  confirm_required not_configured exit_rejected : Failure
  unknown_mode unknown_command policy_rejected extension_error : String → Failure
  forbidden : Mode → Mode → Failure
  preflight_failed : ℤ → String → Failure
  not_persisted : PersistError → Failure

pub record Response : Type 0 where
  pub id : String
  pub result : Reply ⊎ Failure

abbrev pub ok : String → Reply → Response
ok id d = record { id = id; result = inl d }

abbrev pub err_resp : String → Failure → Response
err_resp id e = record { id = id; result = inr e }

-- `gate` says which commands safe mode blocks, `acknowledge` is the injected handler, and
-- `extensions` are the registered commands; each may be missing. `preflight` is `none` if the
-- script cannot be run.
pub record Env : Type 0 where
  pub now : ℕ
  pub fails : FileStep → Bool
  pub session : String
  pub gate : Option (String → Bool)
  pub vault_locks : Bool
  pub firewall_reloads : Bool
  pub gaming_starts : Bool
  pub preflight : Option (ℤ × String)
  pub acknowledge : Option (String → Bool)
  pub extensions : String → Option (Params → Reply ⊎ String)

abbrev pub read_only_commands : List String
read_only_commands =
    "get_state" ∷ "health" ∷ "acknowledge_alert" ∷ "acknowledge_safe_mode" ∷ "lock_vault"
    ∷ "stop_lab" ∷ "stop_gaming" ∷ "get_performance_profile" ∷ "get_automation_status"
    ∷ "get_update_status" ∷ "get_module_registry" ∷ "get_fleet_identity" ∷ []

abbrev pub is_one_of : String → List String → Bool
is_one_of c [] = false
is_one_of c (k ∷ ks) = str_eq c k || is_one_of c ks

unfoldable pub is_read_only : String → Bool
is_read_only c = is_one_of c read_only_commands

-- `state.Mode(modeStr)` and the switch over the constants.
unfoldable pub known_mode : String → Option Mode
known_mode t =
    if str_eq t "normal"
    then some normal
    else if str_eq t "gaming"
    then some gaming
    else if str_eq t "lab-active"
    then some lab_active
    else if str_eq t "update-preparing"
    then some update_preparing
    else if str_eq t "update-pending-reboot"
    then some update_pending_reboot
    else if str_eq t "rollback-mode"
    then some rollback_mode
    else if str_eq t "safe-mode"
    then some safe_mode
    else none

abbrev pub from_preparing : Mode → Bool
from_preparing normal = true
from_preparing update_pending_reboot = true
from_preparing safe_mode = true
from_preparing _ = false

abbrev pub from_rollback : Mode → Bool
from_rollback normal = true
from_rollback safe_mode = true
from_rollback _ = false

-- `guardModeTransition` returns no error.
unfoldable pub guard_permits : Mode → Mode → Bool
guard_permits update_preparing to = from_preparing to
guard_permits rollback_mode to = from_rollback to
guard_permits _ to = true

abbrev pub or_default : String → String → String
or_default t d = if str_eq t "" then d else t

abbrev pub after_lab : Mode → Mode
after_lab lab_active = normal
after_lab m = m

abbrev pub after_gaming : Mode → Mode
after_gaming gaming = normal
after_gaming m = m

-- What the handlers give to `Update`.
abbrev pub with_mode : Mode → SystemState → SystemState
with_mode m s = record s { mode = m }

abbrev pub vault_locked : SystemState → SystemState
vault_locked s = record s { vault = record { mounted = false; exposure_seconds = pos 0 } }

abbrev pub lab_started : String → String → SystemState → SystemState
lab_started session profile s = record s {
  mode = lab_active;
  lab = record { active = true; session_id = session; network_profile = profile };
}

abbrev pub lab_stopped : SystemState → SystemState
lab_stopped s = record s {
  lab = record (s.lab) { active = false; session_id = "" };
  mode = after_lab s.mode;
}

abbrev pub firewall_reloaded : ℕ → SystemState → SystemState
firewall_reloaded now s = record s {
  firewall = record (s.firewall) { last_reload = now; active = true };
}

abbrev pub preparing : SystemState → SystemState
preparing s = record s {
  mode = update_preparing;
  update = record (s.update) { phase = "preparing" };
}
