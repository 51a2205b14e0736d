-- ===== src/SelfHealer/Tests.antt =====
-- The self-healer at concrete services.
use hisnos_secure_workstatio.Common.{◌*◌, ◌≤◌, ◌≡◌, true, false, List, [], ◌∷◌, arith}
use hisnos_secure_workstatio.SelfHealer.{
  SelfHealer, emits, correlated_failure, second, new_self_healer, register, restart_notify,
}
use hisnos_secure_workstatio.SelfHealer.Attempts.{
  Call, notifies, tries, run, restarts_of, run-restarts_of,
}
use hisnos_secure_workstatio.SelfHealer.Correlation.{restart_notify-alone}

abbrev healer : SelfHealer
healer = register "lab" false (new_self_healer true)

abbrev calls : List Call
calls = notifies second "lab" ∷ tries "lab" false ∷ notifies (4 * second) "lab" ∷ []

run-restarts_of_example : restarts_of "lab" (run calls healer).1 ≤ 6
run-restarts_of_example = run-restarts_of "lab" calls healer tt

restart_notify-alone_example :
    let (sh1, x1) = restart_notify (10 * second) "lab" healer in
    let (sh2, x2) = restart_notify (20 * second) "lab" sh1 in
    let (sh3, x3) = restart_notify (30 * second) "lab" sh2 in
    x3 ≡ emits "service_failed" ∷ emits "safe_mode_triggered" ∷ correlated_failure ("lab" ∷ []) ∷ []
restart_notify-alone_example =
    restart_notify-alone "lab" false (10 * second) (20 * second) (30 * second) (omega arith)
      (omega arith) (omega arith) (omega arith)
