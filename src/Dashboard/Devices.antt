-- ===== src/Dashboard/Devices.antt =====
-- dashboard/backend/api: locking and mounting the vault (vault.go), reloading the firewall
-- (firewall.go) and rebooting (reboot.go).
pub mod Recovery
pub mod Staying
use text.Mathlib.Text.{◌==◌ as str_eq}
use hisnos_secure_workstatio.Common.{
  ℕ, Bool, true, false, not, Option, none, some, String, ◌==◌, if◌then◌else◌,
}
use hisnos_secure_workstatio.AtomicFile.{Json}
use hisnos_secure_workstatio.ControlPlane.{Mode, update_preparing, rollback_mode, SystemState}
use hisnos_secure_workstatio.ControlPlane.Modes.{mode_eq}
use hisnos_secure_workstatio.ControlPlane.Manager.{Manager, mounts, step}
use hisnos_secure_workstatio.Dashboard.{
  forbidden_by_state, Reply, unconfirmed, unavailable, internal_error, bad_request, unauthorized,
  lock_failed, rebooting, via_daemon, mounted, refused, done, Env, mode_allows_firewall, Served,
  with_snapshot, if_changed,
}

module _ {B : Type 0} (json : Json SystemState B) where
  -- `SetVaultMounted`, and the reply if there is no error.
  abbrev pub note_vault : Env → ℕ → Bool → String → ℕ → Reply → Manager B → Served B
  note_vault env i now_mounted action code reply m =
      if_changed (λ noted. (noted, reply))
        (step json (env.manager i) (mounts now_mounted action (env.exit_meta code)) m)

  unfoldable pub lock_script : Env → Manager B → Served B
  lock_script env m = elim env.exit_code [
    | none ↦ (m, internal_error)
    | some code ↦
        if not (code == 0)
        then (m, lock_failed)
        else note_vault env 0 false "vault_lock" code (done code) m
  ]

  -- Behind the daemon the control plane hears nothing of the lock.
  unfoldable pub vault_lock : Env → Manager B → Served B
  unfolding lock_script
  vault_lock env m = if not env.token_matches then (m, unconfirmed) else elim env.daemon [
    | some works ↦ (m, if works then via_daemon else internal_error)
    | none ↦ if not env.vault_script then (m, unavailable) else lock_script env m
  ]

  unfoldable pub mount_script : Env → Manager B → Served B
  mount_script env m = elim env.exit_code [
    | none ↦ (m, internal_error)
    | some code ↦
        if not (code == 0)
        then (m, if env.wrong_password then unauthorized else internal_error)
        else note_vault env 1 true "vault_mount" code mounted m
  ]

  unfoldable pub mount_loaded : Env → Manager B → Served B
  unfolding mount_script
  mount_loaded env m =
      if mode_eq m.cached.mode rollback_mode
      then (m, refused forbidden_by_state)
      else elim env.passphrase [
        | none ↦ (m, bad_request)
        | some text ↦ if str_eq text "" then (m, bad_request) else mount_script env m
      ]

  unfoldable pub vault_mount : Env → Manager B → Served B
  unfolding mount_loaded
  vault_mount env m =
      if not env.token_matches
      then (m, unconfirmed)
      else if not env.vault_script
      then (m, unavailable)
      else with_snapshot json env (mount_loaded env) m

  abbrev pub exit_reply : Option ℕ → Reply
  exit_reply none = internal_error
  exit_reply (some code) = done code

  -- `done` says that the firewall was reloaded by systemctl.
  unfoldable pub reload_loaded : Env → Manager B → Served B
  unfolding mode_allows_firewall
  reload_loaded env m = elim (mode_allows_firewall m.cached.mode) [
    | some code ↦ (m, refused code)
    | none ↦ (m, exit_reply env.exit_code)
  ]

  unfoldable pub firewall_reload : Env → Manager B → Served B
  unfolding reload_loaded
  firewall_reload env m = if not env.token_matches then (m, unconfirmed) else elim env.daemon [
    | some works ↦ (m, if works then via_daemon else internal_error)
    | none ↦ with_snapshot json env (reload_loaded env) m
  ]

  unfoldable pub reboot_loaded : Env → Manager B → Served B
  reboot_loaded env m =
      if mode_eq m.cached.mode update_preparing
      then (m, refused forbidden_by_state)
      else (m, rebooting)

  unfoldable pub system_reboot : Env → Manager B → Served B
  unfolding reboot_loaded
  system_reboot env m =
      if not env.token_matches
      then (m, unconfirmed)
      else with_snapshot json env (reboot_loaded env) m
