-- ===== src/Dashboard/Tests.antt =====
-- dashboard/backend/api: requests to a control plane that is loaded.
use text.Mathlib.Text.{◌==◌ as str_eq}
use hisnos_secure_workstatio.Common.{
  ◌≡◌, refl, inl, true, false, none, some, List, [], ◌∷◌, if◌then◌else◌,
}
use hisnos_secure_workstatio.AtomicFile.Tests.{plain}
use hisnos_secure_workstatio.ControlPlane.{Mode, gaming, rollback_mode, SystemState, default_state}
use hisnos_secure_workstatio.ControlPlane.Manager.{Manager, ensure_loaded}
use hisnos_secure_workstatio.Dashboard.{done, Env, kernel_validation_ok, firewall_compatibility_ok}
use hisnos_secure_workstatio.Dashboard.Updates.{
  update_prepare, update_rollback, update_apply, apply_loaded, run_apply,
}
use hisnos_secure_workstatio.Dashboard.Updates.Moves.{In, PrepareOutcome, update_prepare-Outcome}
use hisnos_secure_workstatio.Dashboard.Updates.Rollback.{update_rollback-stays}
use hisnos_secure_workstatio.Dashboard.Updates.Guards.{Cleared, update_apply-Cleared}
use hisnos_secure_workstatio.Dashboard.Lab.{LabStop}
use hisnos_secure_workstatio.Dashboard.Devices.Recovery.{
  Request, prepares, applies, locks, mounts_vault, sets_mode, stops_lab, serve_all,
  serve_all-rollback_mode,
}

-- Every call works, and the deployment "c1" runs and passed its validation.
abbrev usual : Env
usual = record {
  manager = λ i. record { now = i; default_written = true; change_written = true };
  token_matches = true;
  update_script = true;
  vault_script = true;
  vault_lock_file = false;
  facts = some (λ key. if str_eq key "last_validate_result" then "ok" else "c1");
  booted = some "c1";
  nft_table = some 0;
  exit_code = some 0;
  streams = true;
  prepare = some (some 0);
  daemon = none;
  passphrase = some "secret";
  wrong_password = false;
  exit_meta = λ code. "{}";
}

abbrev in_mode : Mode → Manager SystemState
in_mode mode = record {
  file = none;
  cached = record (default_state 1) { mode = mode };
  cache_valid = true;
}

abbrev failing : Env
failing = record usual { exit_code = some 2 }

update_prepare-Outcome_example :
    PrepareOutcome
      (plain SystemState)
      gaming
      (update_prepare (plain SystemState) usual (in_mode gaming))
update_prepare-Outcome_example =
    update_prepare-Outcome (plain SystemState) usual (in_mode gaming) refl

update_rollback-stays_example :
    In (update_rollback (plain SystemState) failing (in_mode gaming)).0 rollback_mode
update_rollback-stays_example =
    update_rollback-stays (plain SystemState) failing (in_mode gaming) refl refl refl (inl refl)

applied : (update_apply (plain SystemState) usual (in_mode gaming)).1 ≡ done 0
unfolding update_apply apply_loaded run_apply kernel_validation_ok firewall_compatibility_ok
    ensure_loaded
applied = refl

update_apply-Cleared_example :
    Cleared usual
      (ensure_loaded (plain SystemState) (usual.manager 0) (in_mode gaming)).0.cached.mode
update_apply-Cleared_example =
    update_apply-Cleared (plain SystemState) usual (in_mode gaming) applied

abbrev session : LabStop
session = record { session = some (some "3f"); meta = λ id. "{}" }

abbrev reqs : List (Env × Request)
reqs =
    (usual, prepares)
    ∷ (failing, applies)
    ∷ (usual, locks)
    ∷ (usual, mounts_vault)
    ∷ (usual, sets_mode (some "normal"))
    ∷ (usual, stops_lab session)
    ∷ []

serve_all-rollback_mode_example :
    In (serve_all (plain SystemState) reqs (in_mode rollback_mode)) rollback_mode
serve_all-rollback_mode_example =
    serve_all-rollback_mode (plain SystemState) reqs (in_mode rollback_mode)
      (tt, (tt, (tt, (tt, (tt, (tt, tt)))))) (refl, refl)
