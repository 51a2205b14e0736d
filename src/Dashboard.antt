-- ===== src/Dashboard.antt =====
-- dashboard/backend/api: the HTTP handlers that read or change the control plane's state
-- (state_guards.go and the confirmation of api.go here; update.go, vault.go, firewall.go, reboot.go,
-- system.go, lab.go and lab_network.go in the children). A handler is one step, also where a script
-- runs for long; the texts of its reply are left out. The scripts, nft, systemctl, rpm-ostree and the
-- daemon behind the socket are the answers in `Env`.
pub mod Updates
pub mod Devices
pub mod Lab
mod Tests
use text.Mathlib.Text.{◌==◌ as str_eq}
use hisnos_secure_workstatio.Common.{
  ℕ, Bool, true, false, not, ◌||◌, Option, none, some, String, ◌==◌, if◌then◌else◌,
}
use hisnos_secure_workstatio.AtomicFile.{Json}
use hisnos_secure_workstatio.ControlPlane.{
  Mode, normal, update_preparing, update_pending, rollback_mode, SystemState,
}
use hisnos_secure_workstatio.ControlPlane.Modes.{mode_eq}
use hisnos_secure_workstatio.ControlPlane.Manager.{
  Manager, Env as ManagerEnv, Error, invalid_transition, load_failed, file_error, ensure_loaded,
}

-- `ErrInvalidTransition` and so on.
pub data GuardCode : Type 0 where
  transition_invalid forbidden_by_state vault_must_be_locked rollback_blocks_prepare : GuardCode
  firewall_blocked_prepare kernel_validation_required firewall_compatibility_required : GuardCode
  concurrent_update : GuardCode

-- `done` and `streamed` carry the exit code of the script; `unavailable` is a script or the state.
pub data Reply : Type 0 where
  unconfirmed unavailable internal_error bad_request unauthorized conflict : Reply
  lock_failed stream_failed rebooting via_daemon mounted : Reply
  refused : GuardCode → Reply
  done streamed : ℕ → Reply

-- What the surroundings decide during one request.
pub record Env : Type 0 where
  -- the manager's calls of the request, in their order
  pub manager : ℕ → ManagerEnv
  pub token_matches : Bool
  pub update_script : Bool
  pub vault_script : Bool
  pub vault_lock_file : Bool
  -- the facts of update-state, unless the file cannot be read
  pub facts : Option (String → String)
  -- the checksum of the booted deployment
  pub booted : Option String
  -- the exit code of `nft list table inet hisnos_egress`
  pub nft_table : Option ℕ
  -- the exit code of the script or command that the handler runs
  pub exit_code : Option ℕ
  -- the reply can be flushed; the script starts, and the exit code that its channel gives
  pub streams : Bool
  pub prepare : Option (Option ℕ)
  -- the daemon is there, and its command works
  pub daemon : Option Bool
  -- the passphrase of a request that is JSON
  pub passphrase : Option String
  -- a text of the error that speaks of a wrong password
  pub wrong_password : Bool
  -- `map[string]any{"exit_code": n}`
  pub exit_meta : ℕ → String

abbrev pub status_conflict : ℕ
status_conflict = 409

-- writeGuardError, and the status of the other replies.
unfoldable pub status : Reply → ℕ
status unconfirmed = 403
status unavailable = 503
status internal_error = 500
status bad_request = 400
status unauthorized = 401
status lock_failed = 500
status conflict = status_conflict
status (refused kernel_validation_required) = 412
status (refused _) = status_conflict
status _ = 200

-- A key that the file does not have reads as the empty text, and so does a file that cannot be read.
abbrev pub fact : Env → String → String
fact env key = elim env.facts [ none ↦ "" | some f ↦ f key ]

-- `none` is that there is no objection.
unfoldable pub kernel_validation_ok : Env → Option GuardCode
kernel_validation_ok env = elim env.facts [
  | none ↦ some kernel_validation_required
  | some f ↦
      if not (str_eq (f "last_validate_result") "ok")
      then some kernel_validation_required
      else elim env.booted [
        | none ↦ some kernel_validation_required
        | some checksum ↦
            if str_eq (f "last_validate_deployment") ""
              || not (str_eq (f "last_validate_deployment") checksum)
            then some kernel_validation_required
            else none
      ]
]

unfoldable pub firewall_compatibility_ok : Env → Option GuardCode
firewall_compatibility_ok env = elim env.nft_table [
  | none ↦ some firewall_compatibility_required
  | some code ↦ if code == 0 then none else some firewall_compatibility_required
]

unfoldable pub mode_allows_firewall : Mode → Option GuardCode
mode_allows_firewall mode =
    if mode_eq mode update_preparing
    then some firewall_blocked_prepare
    else if mode_eq mode update_pending
    then some forbidden_by_state
    else if mode_eq mode rollback_mode
    then some forbidden_by_state
    else none

-- An error of the manager, as every handler answers it: the first two are guard errors.
abbrev pub manager_refused : Error → Reply
manager_refused invalid_transition = refused transition_invalid
manager_refused load_failed = refused transition_invalid
manager_refused file_error = internal_error

abbrev pub Served : Type 0 → Type 0
Served B = Manager B × Reply

-- `s, err := h.stateMgr.GetSnapshot()`, then the rest of the handler.
abbrev pub after_snapshot :
    {B : Type 0} → (Manager B → Served B) → Manager B × Option Error → Served B
after_snapshot rest (m, some err) = (m, unavailable)
after_snapshot rest (m, none) = rest m

abbrev pub with_snapshot :
    {B : Type 0} → Json SystemState B → Env → (Manager B → Served B) → Manager B → Served B
with_snapshot json env rest m = after_snapshot rest (ensure_loaded json (env.manager 0) m)

-- A call of the manager whose error ends the handler.
abbrev pub if_changed : {B : Type 0} → (Manager B → Served B) → Manager B × Option Error → Served B
if_changed rest (m, some err) = (m, manager_refused err)
if_changed rest (m, none) = rest m
