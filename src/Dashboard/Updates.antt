-- ===== src/Dashboard/Updates.antt =====
-- dashboard/backend/api/update.go: preparing, applying, rolling back and validating an update.
pub mod Moves
pub mod Rollback
pub mod Guards
use hisnos_secure_workstatio.Common.{
  ℕ, Bool, true, false, not, ◌||◌, Option, none, some, String, ◌==◌, if◌then◌else◌,
}
use hisnos_secure_workstatio.AtomicFile.{Json}
use hisnos_secure_workstatio.ControlPlane.{
  Mode, normal, update_preparing, update_pending, rollback_mode, SystemState, UpdateFacts,
  KernelValidation,
}
use hisnos_secure_workstatio.ControlPlane.Modes.{mode_eq}
use hisnos_secure_workstatio.ControlPlane.Manager.{
  Manager, Env as ManagerEnv, Error, transitions, updates, validates, step,
}
use hisnos_secure_workstatio.Dashboard.{
  GuardCode, forbidden_by_state, vault_must_be_locked, rollback_blocks_prepare, concurrent_update,
  Reply, unconfirmed, unavailable, internal_error, stream_failed, refused, done, streamed, Env,
  fact, kernel_validation_ok, firewall_compatibility_ok, Served, with_snapshot, if_changed,
}

-- The fields that the literals leave out are empty.
abbrev pub prepared_facts : Env → UpdateFacts
prepared_facts env = record {
  staged_deployment = fact env "staged_deployment";
  staged_prepare_time = fact env "staged_prepare_time";
  last_apply_time = "";
  last_rollback_time = "";
}

abbrev pub applied_facts : Env → UpdateFacts
applied_facts env = record {
  staged_deployment = fact env "staged_deployment";
  staged_prepare_time = fact env "staged_prepare_time";
  last_apply_time = fact env "last_apply_time";
  last_rollback_time = "";
}

abbrev pub rolled_back_facts : Env → UpdateFacts
rolled_back_facts env = record {
  staged_deployment = "";
  staged_prepare_time = "";
  last_apply_time = "";
  last_rollback_time = fact env "last_rollback_time";
}

abbrev pub validation_facts : Env → KernelValidation
validation_facts env = record {
  last_result = fact env "last_validate_result";
  last_time = fact env "last_validate_time";
  last_deployment = fact env "last_validate_deployment";
}

-- `exitCode := 1`, unless the channel gives one.
abbrev pub final_code : Option ℕ → ℕ
final_code none = 1
final_code (some code) = code

module _ {B : Type 0} (json : Json SystemState B) where
  -- `_ = h.stateMgr.TransitionMode(…)`: the error is dropped.
  abbrev pub move : ManagerEnv → Mode → String → String → Manager B → Manager B
  move env to action meta m = (step json env (transitions to action meta) m).0

  abbrev pub note_facts : ManagerEnv → UpdateFacts → String → Manager B → Manager B
  note_facts env facts action m = (step json env (updates facts action "{}") m).0

  -- The end of UpdatePrepare, once the script has ended.
  unfoldable pub finish_prepare : Env → Mode → ℕ → Manager B → Manager B
  finish_prepare env previous code m =
      if code == 0
      then move (env.manager 3) update_pending "update_prepare_to_pending_reboot" "{}"
          (note_facts (env.manager 2) (prepared_facts env) "update_prepare_completed" m)
      else move (env.manager 2) previous "update_prepare_failed" (env.exit_meta code) m

  unfoldable pub stream_prepare : Env → Mode → Manager B → Served B
  unfolding finish_prepare
  stream_prepare env previous m =
      if not env.streams then (m, internal_error) else elim env.prepare [
        | none ↦ (move (env.manager 2) previous "update_prepare_start_failed" "{}" m, stream_failed)
        | some given ↦
            (finish_prepare env previous (final_code given) m, streamed (final_code given))
      ]

  -- The handler's rest, where it has the state.
  unfoldable pub prepare_loaded : Env → Manager B → Served B
  unfolding stream_prepare
  prepare_loaded env m =
      if mode_eq m.cached.mode rollback_mode
      then (m, refused rollback_blocks_prepare)
      else if mode_eq m.cached.mode update_preparing || mode_eq m.cached.mode update_pending
      then (m, refused concurrent_update)
      else if_changed (stream_prepare env m.cached.mode)
          (step json (env.manager 1) (transitions update_preparing "update_prepare_start" "{}") m)

  unfoldable pub update_prepare : Env → Manager B → Served B
  unfolding prepare_loaded
  update_prepare env m =
      if not env.update_script
      then (m, unavailable)
      else with_snapshot json env (prepare_loaded env) m

  -- The script of UpdateApply, after the guards.
  unfoldable pub run_apply : Env → Manager B → Served B
  run_apply env m = elim env.exit_code [
    | none ↦ (move (env.manager 1) m.cached.mode "update_apply_exec_failed" "{}" m, internal_error)
    | some code ↦
        if not (code == 0)
        then (
          move (env.manager 1) m.cached.mode "update_apply_failed" (env.exit_meta code) m,
          done code,
        )
        else (
          move (env.manager 2) update_pending "update_apply_to_pending_reboot" "{}"
              (note_facts (env.manager 1) (applied_facts env) "update_apply_completed" m),
          done code,
        )
  ]

  unfoldable pub apply_loaded : Env → Manager B → Served B
  unfolding run_apply
  apply_loaded env m =
      if mode_eq m.cached.mode rollback_mode
      then (m, refused forbidden_by_state)
      else if mode_eq m.cached.mode update_pending
      then (m, refused concurrent_update)
      else if env.vault_lock_file
      then (m, refused vault_must_be_locked)
      else elim (kernel_validation_ok env) [
        | some code ↦ (m, refused code)
        | none ↦ elim (firewall_compatibility_ok env) [
          | some code ↦ (m, refused code)
          | none ↦ run_apply env m
        ]
      ]

  unfoldable pub update_apply : Env → Manager B → Served B
  unfolding apply_loaded
  update_apply env m =
      if not env.token_matches
      then (m, unconfirmed)
      else if not env.update_script
      then (m, unavailable)
      else with_snapshot json env (apply_loaded env) m

  -- The script of UpdateRollback, in rollback-mode.
  unfoldable pub run_rollback : Env → Mode → Manager B → Served B
  run_rollback env previous m = elim env.exit_code [
    | none ↦ (move (env.manager 2) previous "update_rollback_exec_failed" "{}" m, internal_error)
    | some code ↦
        if not (code == 0)
        then (
          move (env.manager 2) previous "update_rollback_failed" (env.exit_meta code) m,
          done code,
        )
        else (
          note_facts (env.manager 2) (rolled_back_facts env) "update_rollback_completed" m,
          done code,
        )
  ]

  unfoldable pub rollback_loaded : Env → Manager B → Served B
  unfolding run_rollback
  rollback_loaded env m =
      if mode_eq m.cached.mode update_preparing || mode_eq m.cached.mode update_pending
      then (m, refused concurrent_update)
      else if mode_eq m.cached.mode rollback_mode
      then (m, refused concurrent_update)
      else if_changed (run_rollback env m.cached.mode)
          (step json (env.manager 1) (transitions rollback_mode "update_rollback_start" "{}") m)

  unfoldable pub update_rollback : Env → Manager B → Served B
  unfolding rollback_loaded
  update_rollback env m =
      if not env.token_matches
      then (m, unconfirmed)
      else if not env.update_script
      then (m, unavailable)
      else with_snapshot json env (rollback_loaded env) m

  -- Both errors of the manager are dropped.
  unfoldable pub update_validate : Env → Manager B → Served B
  update_validate env m = if not env.update_script then (m, unavailable) else elim env.exit_code [
    | none ↦ (m, internal_error)
    | some code ↦
        let noted =
          (step json (env.manager 0)
            (validates (validation_facts env) "update_validate_completed" (env.exit_meta code))
            m).0 in
        (
          if code == 0
              then move (env.manager 1) normal "update_validate_pass_to_normal" "{}" noted
              else move (env.manager 1) rollback_mode "update_validate_fail_to_rollback_mode" "{}"
                  noted,
          done code,
        )
  ]
