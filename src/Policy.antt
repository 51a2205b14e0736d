-- ===== src/Policy.antt =====
-- core/policy/policy.go: the deterministic policy engine and the admission guards.
pub mod Rules
pub mod Guards
mod Tests
use hisnos_secure_workstatio.Common.{
  ℕ, Bool, true, false, not, ◌&&◌, ◌||◌, List, [], ◌∷◌, ◌++◌, String, at_least, if◌then◌else◌,
}
use hisnos_secure_workstatio.State.{
  Mode, normal, gaming, lab_active, update_preparing, update_pending_reboot, rollback_mode,
  safe_mode, other, SystemState, is_safe_mode, is_update_preparing,
}

pub data ActionType : Type 0 where
  force_vault_lock firewall_strict_profile firewall_restore reject_lab_start : ActionType
  reject_gaming_start enter_safe_mode exit_safe_mode restart_subsystem : ActionType
  increase_risk_score notify : ActionType

-- The payload maps that the rules build.
pub data Payload : Type 0 where
  no_payload : Payload
  delta : ℕ → Payload
  unit_scope : String → String → Payload

pub record Action : Type 0 where
  pub type : ActionType
  pub payload : Payload
  pub reason : String

abbrev action : ActionType → String → Action
action t r = record { type = t; payload = no_payload; reason = r }

abbrev when : Bool → List Action → List Action
when c actions = if c then actions else []

abbrev pub critical : SystemState → Bool
critical s = at_least s.risk.score 80

-- The rules P1 to P8, in the order of the source.
unfoldable pub rule_p1 : SystemState → List Action
rule_p1 s = when (critical s && not (is_safe_mode s.mode)) (
    when s.vault.mounted (action force_vault_lock "risk_score >= 80" ∷ [])
    ++ action firewall_strict_profile "risk_score >= 80" ∷ [])

unfoldable pub rule_p2 : SystemState → List Action
rule_p2 s = when (is_update_preparing s.mode) (
    action reject_lab_start "mode=update-preparing"
    ∷ action reject_gaming_start "mode=update-preparing"
    ∷ [])

unfoldable pub rule_p3 : SystemState → List Action
rule_p3 s = when (s.lab.active && s.vault.mounted) (
    record {
      type = increase_risk_score;
      payload = delta 10;
      reason = "lab_active && vault_mounted: concurrent access risk";
    }
    ∷ [])

unfoldable pub rule_p4 : SystemState → List Action
rule_p4 s =
    when (not s.firewall.active && not (is_safe_mode s.mode))
      (action enter_safe_mode "firewall_inactive" ∷ [])

unfoldable pub rule_p5 : SystemState → List Action
rule_p5 s =
    when (not s.subsystems.logd_alive && not (is_safe_mode s.mode))
      (action enter_safe_mode "logd_dead: audit pipeline offline" ∷ [])

unfoldable pub rule_p6 : SystemState → List Action
rule_p6 s =
    when (is_safe_mode s.mode)
      (action reject_lab_start "mode=safe-mode" ∷ action reject_gaming_start "mode=safe-mode" ∷ [])

unfoldable pub rule_p7 : SystemState → List Action
rule_p7 s =
    when
      (is_safe_mode s.mode && (s.firewall.active && (s.subsystems.logd_alive && not (critical s))))
      (action exit_safe_mode "firewall_active && logd_alive && risk_score < 80" ∷ [])

unfoldable pub rule_p8 : SystemState → List Action
rule_p8 s = when (not s.subsystems.threatd_alive) (
    record {
      type = restart_subsystem;
      payload = unit_scope "hisnos-threatd.service" "user";
      reason = "threatd_dead";
    }
    ∷ [])

unfoldable pub evaluate : SystemState → List Action
unfolding rule_p1 rule_p2 rule_p3 rule_p4 rule_p5 rule_p6 rule_p7 rule_p8
evaluate s =
    rule_p1 s
    ++ (rule_p2 s
        ++ (rule_p3 s ++ (rule_p4 s ++ (rule_p5 s ++ (rule_p6 s ++ (rule_p7 s ++ rule_p8 s))))))

-- The text of a mode, as `string(s.Mode)`.
abbrev pub mode_text : Mode → String
mode_text normal = "normal"
mode_text gaming = "gaming"
mode_text lab_active = "lab-active"
mode_text update_preparing = "update-preparing"
mode_text update_pending_reboot = "update-pending-reboot"
mode_text rollback_mode = "rollback-mode"
mode_text safe_mode = "safe-mode"
mode_text (other t) = t

-- A guard's answer: (true, "") or (false, reason).
pub data Verdict : Type 0 where
  permit : Verdict
  refuse : String → Verdict

unfoldable pub can_start_lab : SystemState → Verdict
can_start_lab s =
    if is_update_preparing s.mode
    then refuse "mode=update-preparing"
    else if is_safe_mode s.mode
    then refuse "mode=safe-mode"
    else if s.lab.active
    then refuse "lab_already_active"
    else if critical s
    then refuse "risk_score_critical"
    else permit

unfoldable pub can_start_gaming : SystemState → Verdict
can_start_gaming s =
    if is_update_preparing s.mode
    then refuse "mode=update-preparing"
    else if is_safe_mode s.mode
    then refuse "mode=safe-mode"
    else if critical s
    then refuse "risk_score_critical"
    else permit

unfoldable pub can_lock_vault : SystemState → Verdict
can_lock_vault s = permit

abbrev reload_verdict : Mode → Verdict
reload_verdict update_preparing = refuse "mode=update-preparing"
reload_verdict update_pending_reboot = refuse "mode=update-pending-reboot"
reload_verdict _ = permit

unfoldable pub can_reload_firewall : SystemState → Verdict
can_reload_firewall s = reload_verdict s.mode
