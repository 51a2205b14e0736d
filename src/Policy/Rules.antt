-- ===== src/Policy/Rules.antt =====
-- core/policy/policy.go: what `Evaluate` recommends, action by action.
use mathlib.Core.Logic.{ite}
use hisnos_secure_workstatio.Common.{
  ◌≡◌, refl, Bool, true, false, not, ◌&&◌, ◌||◌, List, [], ◌∷◌, ◌++◌, arith,
}
use hisnos_secure_workstatio.State.{SystemState, is_safe_mode, is_update_preparing}
use hisnos_secure_workstatio.Policy.{
  ActionType, force_vault_lock, firewall_strict_profile, firewall_restore, reject_lab_start,
  reject_gaming_start, enter_safe_mode, exit_safe_mode, restart_subsystem, increase_risk_score,
  notify, Action, critical, evaluate,
}

ActionType-discrete : Discrete ActionType
ActionType-discrete = hlevel

-- Whether a list of actions has one of the given type.
unfoldable pub mentions : ActionType → List Action → Bool
unfolding ActionType-discrete
mentions t [] = false
mentions t (a ∷ rest) = ite (ActionType-discrete a.type t) true (mentions t rest)

mentions-append :
    (t : ActionType) (xs ys : List Action)
    → mentions t (xs ++ ys) ≡ (mentions t xs || mentions t ys)
unfolding mentions
mentions-append t [] ys = refl
mentions-append t (x ∷ xs) ys = ground (arith, mentions-append t xs ys)

-- When each action is wanted, said without the rules.
abbrev pub wanted : ActionType → SystemState → Bool
wanted force_vault_lock s = critical s && (not (is_safe_mode s.mode) && s.vault.mounted)
wanted firewall_strict_profile s = critical s && not (is_safe_mode s.mode)
wanted firewall_restore s = false
wanted reject_lab_start s = is_update_preparing s.mode || is_safe_mode s.mode
wanted reject_gaming_start s = is_update_preparing s.mode || is_safe_mode s.mode
wanted enter_safe_mode s =
    not (is_safe_mode s.mode) && (not s.firewall.active || not s.subsystems.logd_alive)
wanted exit_safe_mode s =
    is_safe_mode s.mode && (s.firewall.active && (s.subsystems.logd_alive && not (critical s)))
wanted restart_subsystem s = not s.subsystems.threatd_alive
wanted increase_risk_score s = s.lab.active && s.vault.mounted
wanted notify s = false

-- For every type of action and every state: the engine recommends the action exactly when the
-- table `wanted` says so.
pub evaluate-wanted : (t : ActionType) (s : SystemState) → mentions t (evaluate s) ≡ wanted t s
unfolding mentions evaluate
evaluate-wanted force_vault_lock s = ground arith
evaluate-wanted firewall_strict_profile s = ground arith
evaluate-wanted firewall_restore s = ground arith
evaluate-wanted reject_lab_start s = ground arith
evaluate-wanted reject_gaming_start s = ground arith
evaluate-wanted enter_safe_mode s = ground arith
evaluate-wanted exit_safe_mode s = ground arith
evaluate-wanted restart_subsystem s = ground arith
evaluate-wanted increase_risk_score s = ground arith
evaluate-wanted notify s = ground arith

-- The engine never asks to enter and to leave safe mode at once, and it asks to leave only while
-- it asks neither for a vault lock nor for the strict firewall.
pub exit_safe_mode_alone :
    (s : SystemState)
    → mentions exit_safe_mode (evaluate s) ≡ true
    → (mentions enter_safe_mode (evaluate s) ≡ false)
      × (mentions force_vault_lock (evaluate s) ≡ false)
      × (mentions firewall_strict_profile (evaluate s) ≡ false)
exit_safe_mode_alone s h = ground (
  arith,
  evaluate-wanted exit_safe_mode s,
  evaluate-wanted enter_safe_mode s,
  evaluate-wanted force_vault_lock s,
  evaluate-wanted firewall_strict_profile s,
)
