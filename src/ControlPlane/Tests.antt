-- ===== src/ControlPlane/Tests.antt =====
-- The control plane at concrete states.
use hisnos_secure_workstatio.Common.{◌≡◌, refl, ◌⊎◌, true, false, some, List, [], ◌∷◌}
use hisnos_secure_workstatio.AtomicFile.Tests.{plain}
use hisnos_secure_workstatio.ControlPlane.{
  SystemState, normal, gaming, update_preparing, rollback_mode, default_state,
}
use hisnos_secure_workstatio.ControlPlane.Modes.{allowed}
use hisnos_secure_workstatio.ControlPlane.Manager.{
  Manager, Env, invalid_transition, Call, transitions, mounts, step,
}
use hisnos_secure_workstatio.ControlPlane.Manager.Laws.{Wrote, after, admitted, step-Wrote}
use hisnos_secure_workstatio.ControlPlane.Manager.History.{
  run, Leaves, restart, run-Leaves, failed_write_in_force,
}

abbrev S : Type 0
S = SystemState

abbrev good : Env
good = record { now = 9; default_written = true; change_written = true }

abbrev full : Env
full = record { now = 9; default_written = true; change_written = false }

abbrev loaded : Manager S
loaded = record { file = some (default_state 5); cached = default_state 5; cache_valid = true }

abbrev rolling : Manager S
rolling = record loaded { cached = record (default_state 5) { mode = rollback_mode } }

step-Wrote_example :
    let c = mounts true "vault_mount" "" in
    let r = step (plain S) good c loaded in
    (admitted c loaded.cached ≡ true) × Wrote (plain S) (after good c loaded.cached) loaded r
    ⊎ (admitted c loaded.cached ≡ false) × (r ≡ (loaded, some invalid_transition))
step-Wrote_example = step-Wrote (plain S) good (mounts true "vault_mount" "") loaded refl

abbrev calls : List (Env × Call)
calls =
    (good, transitions update_preparing "prepare" "") ∷ (good, transitions normal "reset" "") ∷ []

run-Leaves_example :
    ((run (plain S) calls rolling).cached.mode ≡ rollback_mode) ⊎ Leaves (plain S) calls rolling
run-Leaves_example = run-Leaves (plain S) calls rolling refl refl

failed_write_in_force_example :
    let m' = (step (plain S) full (transitions gaming "start" "") loaded).0 in
    (m'.cached ≡ after full (transitions gaming "start" "") loaded.cached)
    × ((restart (plain S) good m').cached ≡ loaded.cached)
unfolding step allowed
failed_write_in_force_example =
    failed_write_in_force (plain S) full good (transitions gaming "start" "") loaded
      (default_state 5) refl refl refl refl
