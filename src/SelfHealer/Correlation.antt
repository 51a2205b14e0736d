-- ===== src/SelfHealer/Correlation.antt =====
-- core/supervisor/self_healer.go: what counts as a correlated failure.
use text.Mathlib.Text.{◌==◌ as str_eq}
use text.Mathlib.TextEquality.{eq_iff}
use hisnos_secure_workstatio.Common.{
  ℕ, ◌+◌, ◌<◌, ◌≤◌, ◌≡◌, refl, Bool, true, [], ◌∷◌, String, arith,
}
use hisnos_secure_workstatio.SelfHealer.{
  emits, correlated_failure, correlated_failure_window, new_self_healer, register, restart_notify,
  put, find, record_failure, set_at, decide, detect_correlation, recently_failed, backoff_for,
}

str_eq_refl : (a : String) → str_eq a a ≡ true
str_eq_refl a = (eq_iff a a).1 refl

-- Where one service alone is registered, three failures of it within two minutes are reported as a
-- correlated failure, and after the third the service is not started again.
pub restart_notify-alone :
    (name : String) (check : Bool) (t1 t2 t3 : ℕ)
    → 0 < t1
    → t1 ≤ t2
    → t2 ≤ t3
    → t3 < t1 + correlated_failure_window
    → let sh0 = register name check (new_self_healer true) in
      let (sh1, x1) = restart_notify t1 name sh0 in
      let (sh2, x2) = restart_notify t2 name sh1 in
      let (sh3, x3) = restart_notify t3 name sh2 in
      (x3
        ≡ emits "service_failed"
          ∷ emits "safe_mode_triggered"
          ∷ correlated_failure (name ∷ [])
          ∷ [])
unfolding register restart_notify put find record_failure set_at decide detect_correlation
    recently_failed backoff_for
restart_notify-alone name check t1 t2 t3 p a b c = ground (arith, str_eq_refl name)
