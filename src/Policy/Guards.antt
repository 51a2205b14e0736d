-- ===== src/Policy/Guards.antt =====
-- core/policy/policy.go: the admission guards agree with the rules of the engine.
use hisnos_secure_workstatio.Common.{◌≡◌, ◌↔◌, ◌≢◌, ◌⊎◌, false, arith}
use hisnos_secure_workstatio.State.{SystemState, update_preparing, update_pending_reboot}
use hisnos_secure_workstatio.Policy.{
  reject_lab_start, reject_gaming_start, critical, evaluate, permit, can_start_lab,
  can_start_gaming, can_reload_firewall,
}
use hisnos_secure_workstatio.Policy.Rules.{mentions, evaluate-wanted}

-- A lab may start exactly when the engine does not reject it, no lab runs and the risk score is
-- below 80.
pub can_start_lab_iff :
    (s : SystemState)
    → (can_start_lab s ≡ permit) ↔ (
        (mentions reject_lab_start (evaluate s) ≡ false)
        × (s.lab.active ≡ false)
        × (critical s ≡ false))
unfolding can_start_lab
can_start_lab_iff s = ground (arith, evaluate-wanted reject_lab_start s)

-- Gaming may start exactly when the engine does not reject it and the risk score is below 80.
pub can_start_gaming_iff :
    (s : SystemState)
    → (can_start_gaming s ≡ permit)
      ↔ ((mentions reject_gaming_start (evaluate s) ≡ false) × (critical s ≡ false))
unfolding can_start_gaming
can_start_gaming_iff s = ground (arith, evaluate-wanted reject_gaming_start s)

-- Whenever a lab may start, gaming may start.
pub lab_then_gaming : (s : SystemState) → can_start_lab s ≡ permit → can_start_gaming s ≡ permit
unfolding can_start_lab can_start_gaming
lab_then_gaming s h = ground arith

-- A firewall reload is refused exactly in the two update modes.
pub can_reload_firewall_iff :
    (s : SystemState)
    → (can_reload_firewall s ≢ permit)
      ↔ ((s.mode ≡ update_preparing) ⊎ (s.mode ≡ update_pending_reboot))
unfolding can_reload_firewall
can_reload_firewall_iff s = ground arith
