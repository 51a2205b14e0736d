-- ===== src/Ipc/Tests.antt =====
-- core/ipc/server.go at concrete requests.
use text.Mathlib.TextEquality.{eq_iff}
use hisnos_secure_workstatio.Common.{
  ◌≡◌, ◌≢◌, ◌↔◌, ◌⊎◌, refl, true, false, none, some, inr, pos, [], ◌∷◌, String,
}
use hisnos_secure_workstatio.AtomicFile.{write_temp, write_atomic}
use hisnos_secure_workstatio.AtomicFile.Tests.{plain, no_fault, disk_full}
use hisnos_secure_workstatio.State.{SystemState, Mode, safe_mode, gaming, default_state}
use hisnos_secure_workstatio.State.Manager.{
  Manager, PersistError, file_failed, update, updated, persist,
}
use hisnos_secure_workstatio.SafeMode.Tests.{scores, alarmed}
use hisnos_secure_workstatio.SafeMode.Laws.{IsDangerous}
use hisnos_secure_workstatio.Ipc.{
  Params, Request, Env, not_persisted, is_read_only, guard_permits, ok, mode_set, blocked,
  known_mode,
}
use hisnos_secure_workstatio.Ipc.Dispatch.{serve, cmd_set_mode, update_or_fail, dispatch}
use hisnos_secure_workstatio.Ipc.Failures.{dispatch_error}
use hisnos_secure_workstatio.Ipc.Blocked.{gated, dispatch-blocked_iff}
use hisnos_secure_workstatio.Ipc.Guard.{command}
use hisnos_secure_workstatio.Ipc.SafeModeGate.{
  serve_all, serve_all-safe_mode, set_mode_leaves_safe_mode,
}

abbrev in_mode : Mode → Manager SystemState
in_mode k = record {
  state = record (default_state 5) { mode = k };
  disk = record { live = none; temp = none };
}

abbrev calm_env : Env
calm_env = record {
  now = 9;
  fails = no_fault;
  session = "s1";
  gate = none;
  vault_locks = true;
  firewall_reloads = true;
  gaming_starts = true;
  preflight = some (pos 1, "warnings");
  acknowledge = none;
  extensions = λ c. none;
}

abbrev full_env : Env
full_env = record calm_env { fails = disk_full }

abbrev to_mode : String → Params
to_mode k = record { mode = k; profile = ""; session_id = ""; confirm = false; operator = "" }

differ : ◌≢◌ {A = String} "stop_lab" "set_mode"
differ q = let bad = (eq_iff "stop_lab" "set_mode").1 q in cc

abbrev to_gaming : Request
to_gaming = command "1" "set_mode" (to_mode "gaming")

-- The reply that the state could not be written.
dispatch_error_example :
    let (m', events, reply) = dispatch (plain SystemState) full_env to_gaming (in_mode safe_mode) in
    (events ≡ [])
    × ((m' ≡ in_mode safe_mode)
        ⊎ ((p : PersistError) × (not_persisted (file_failed write_temp) ≡ not_persisted p)
            × (m'.disk.live ≡ none)))
unfolding dispatch serve is_read_only cmd_set_mode known_mode guard_permits update_or_fail update
    persist updated write_atomic
dispatch_error_example =
    dispatch_error (plain SystemState) full_env to_gaming (in_mode safe_mode)
      (not_persisted (file_failed write_temp)) refl

dispatch-blocked_iff_example :
    ((dispatch
        (plain SystemState)
        (gated scores (plain SystemState) alarmed calm_env)
        (command "2" "start_lab" (to_mode ""))
        (in_mode safe_mode)).2.result
      ≡ inr blocked)
    ↔ ((alarmed.state.active ≡ true) × IsDangerous "start_lab")
dispatch-blocked_iff_example =
    dispatch-blocked_iff scores (plain SystemState) alarmed calm_env
      (command "2" "start_lab" (to_mode "")) (in_mode safe_mode)

serve_all-safe_mode_example :
    (serve_all scores
      (plain SystemState)
      alarmed
      ((calm_env, command "3" "stop_lab" (to_mode "")) ∷ [])
      (in_mode safe_mode)).state.mode
    ≡ safe_mode
serve_all-safe_mode_example =
    serve_all-safe_mode scores (plain SystemState) alarmed
      ((calm_env, command "3" "stop_lab" (to_mode "")) ∷ []) (in_mode safe_mode) refl (differ, tt)
      refl

set_mode_leaves_safe_mode_example :
    let (m', events, reply) =
      dispatch
        (plain SystemState)
        (gated scores (plain SystemState) alarmed calm_env)
        (command "4" "set_mode" (to_mode "gaming"))
        (in_mode safe_mode) in
    (m'.state.mode ≡ gaming) × (reply ≡ ok "4" (mode_set "gaming"))
unfolding update known_mode write_atomic
set_mode_leaves_safe_mode_example =
    set_mode_leaves_safe_mode scores (plain SystemState) alarmed calm_env
      (command "4" "set_mode" (to_mode "gaming")) (in_mode safe_mode) gaming refl refl refl refl
      refl
