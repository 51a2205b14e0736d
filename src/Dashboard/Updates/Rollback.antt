-- ===== src/Dashboard/Updates/Rollback.antt =====
-- dashboard/backend/api/update.go: the mode after a rollback was asked for.
use mathlib.Core.Path.{subst}
use hisnos_secure_workstatio.Common.{
  ◌≡◌, refl, sym, ◌∙◌, ◌≢◌, ◌⊎◌, inl, inr, true, false, ◌==◌, Bool-cases, Option-cases, arith,
}
use hisnos_secure_workstatio.AtomicFile.{Json}
use hisnos_secure_workstatio.ControlPlane.{
  Mode, gaming, lab_active, update_preparing, update_pending, rollback_mode, SystemState,
}
use hisnos_secure_workstatio.ControlPlane.Modes.{mode_eq, allowed}
use hisnos_secure_workstatio.ControlPlane.Manager.{Manager}
use hisnos_secure_workstatio.Dashboard.{Reply, internal_error, done, Env, Served}
use hisnos_secure_workstatio.Dashboard.Updates.{
  move, rolled_back_facts, run_rollback, rollback_loaded, update_rollback,
}
use hisnos_secure_workstatio.Dashboard.Updates.Moves.{
  In, moved, with_snapshot_of_valid, move-In, note_facts-In, if_changed-rule,
}

back_lem : (to : Mode) → (moved rollback_mode to ≡ rollback_mode) ⊎ (moved rollback_mode to ≡ to)
unfolding allowed
back_lem to = ground arith

no_way_back :
    (to : Mode) → (to ≡ gaming) ⊎ (to ≡ lab_active) → moved rollback_mode to ≡ rollback_mode
unfolding allowed
no_way_back to (inl e) = rw e refl
no_way_back to (inr e) = rw e refl

elsewhere :
    (mode : Mode)
    → (mode ≡ gaming) ⊎ (mode ≡ lab_active)
    → (mode_eq mode update_preparing ≡ false)
      × (mode_eq mode update_pending ≡ false)
      × (mode_eq mode rollback_mode ≡ false)
      × (allowed mode rollback_mode ≡ true)
unfolding allowed
elsewhere mode (inl e) = rw e (refl, refl, refl, refl)
elsewhere mode (inr e) = rw e (refl, refl, refl, refl)

module _ {B : Type 0} (json : Json SystemState B) where
  abbrev pub RollbackOutcome : Mode → Served B → Type 0
  RollbackOutcome mode t = In t.0 rollback_mode ⊎ In t.0 mode × (t.1 ≢ done 0)

  -- The script failed, and the mode from before is asked for.
  gave_up :
      (mode : Mode) (m : Manager B) (reply : Reply)
      → In m (moved rollback_mode mode)
      → (reply ≢ done 0)
      → RollbackOutcome mode (m, reply)
  gave_up mode m reply i n = elim (back_lem mode) [
    | inl e ↦ inl (subst (In m) e i)
    | inr e ↦ inr (subst (In m) e i, n)
  ]

  run_rollback-Outcome :
      (env : Env) (mode : Mode) (m : Manager B)
      → In m rollback_mode
      → RollbackOutcome mode (run_rollback json env mode m)
  unfolding run_rollback
  run_rollback-Outcome env mode m i = elim (Option-cases env.exit_code) [
    | inl e ↦
        rw (run_rollback, e)
          (gave_up mode (move json (env.manager 2) mode "update_rollback_exec_failed" "{}" m)
            internal_error
            (move-In json (env.manager 2) mode "update_rollback_exec_failed" "{}" m rollback_mode i)
            (λ x. cc))
    | inr (code, e) ↦ elim (Bool-cases (code == 0)) [
      | inl z ↦
          rw (run_rollback, e, z)
            (inl (
              note_facts-In json (env.manager 2) (rolled_back_facts env) "update_rollback_completed"
                m rollback_mode i))
      | inr z ↦
          rw (run_rollback, e, z)
            (gave_up mode
              (move json (env.manager 2) mode "update_rollback_failed" (env.exit_meta code) m)
              (done code)
              (move-In json (env.manager 2) mode "update_rollback_failed" (env.exit_meta code) m
                rollback_mode i)
              (λ x. ground arith))
    ]
  ]

  -- From gaming and from lab-active there is no way back.
  run_rollback-stays :
      (env : Env) (mode : Mode) (m : Manager B)
      → (mode ≡ gaming) ⊎ (mode ≡ lab_active)
      → In m rollback_mode
      → In (run_rollback json env mode m).0 rollback_mode
  unfolding run_rollback
  run_rollback-stays env mode m g i = elim (Option-cases env.exit_code) [
    | inl e ↦
        rw (run_rollback, e)
          (subst (In (move json (env.manager 2) mode "update_rollback_exec_failed" "{}" m))
            (no_way_back mode g)
            (move-In json (env.manager 2) mode "update_rollback_exec_failed" "{}" m rollback_mode
              i))
    | inr (code, e) ↦ elim (Bool-cases (code == 0)) [
      | inl z ↦
          rw (run_rollback, e, z)
            (note_facts-In json (env.manager 2) (rolled_back_facts env) "update_rollback_completed"
              m rollback_mode i)
      | inr z ↦
          rw (run_rollback, e, z)
            (subst
              (In (move json (env.manager 2) mode "update_rollback_failed" (env.exit_meta code) m))
              (no_way_back mode g)
              (move-In json (env.manager 2) mode "update_rollback_failed" (env.exit_meta code) m
                rollback_mode i))
    ]
  ]

  rollback_loaded-Outcome :
      (env : Env) (m : Manager B)
      → m.cache_valid ≡ true
      → RollbackOutcome m.cached.mode (rollback_loaded json env m)
  unfolding rollback_loaded
  rollback_loaded-Outcome env m v = elim (Bool-cases (mode_eq m.cached.mode update_preparing)) [
    | inl y ↦ rw y (inr ((v, refl), λ x. cc))
    | inr n ↦ elim (Bool-cases (mode_eq m.cached.mode update_pending)) [
      | inl y ↦ rw (n, y) (inr ((v, refl), λ x. cc))
      | inr n2 ↦ elim (Bool-cases (mode_eq m.cached.mode rollback_mode)) [
        | inl y ↦ rw (n, n2, y) (inr ((v, refl), λ x. cc))
        | inr n3 ↦
            rw (n, n2, n3)
              (if_changed-rule json (RollbackOutcome m.cached.mode)
                (run_rollback json env m.cached.mode) (env.manager 1) rollback_mode
                "update_rollback_start" "{}" m v
                (λ a m' i. (run_rollback-Outcome env m.cached.mode m' i, inl i))
                (λ a. inr ((v, refl), λ x. cc)) n3)
      ]
    ]
  ]

  -- A request to roll back, at a loaded manager: the mode is afterwards rollback-mode, or what it was
  -- and then the reply is no success.
  pub update_rollback-Outcome :
      (env : Env) (m : Manager B)
      → m.cache_valid ≡ true
      → RollbackOutcome m.cached.mode (update_rollback json env m)
  unfolding update_rollback
  update_rollback-Outcome env m v = elim (Bool-cases env.token_matches) [
    | inr n ↦ simp n (inr ((v, refl), λ x. cc))
    | inl y ↦ elim (Bool-cases env.update_script) [
      | inr n ↦ simp (y, n) (inr ((v, refl), λ x. cc))
      | inl z ↦
          simp (y, z)
            (subst (RollbackOutcome m.cached.mode)
              (sym (with_snapshot_of_valid json env (rollback_loaded json env) m v))
              (rollback_loaded-Outcome env m v))
    ]
  ]

  rollback_loaded-stays :
      (env : Env) (m : Manager B)
      → m.cache_valid ≡ true
      → (m.cached.mode ≡ gaming) ⊎ (m.cached.mode ≡ lab_active)
      → In (rollback_loaded json env m).0 rollback_mode
  unfolding rollback_loaded
  rollback_loaded-stays env m v g =
      let (n, n2, n3, a) = elsewhere m.cached.mode g in
      rw (n, n2, n3)
        (if_changed-rule json (λ t. In t.0 rollback_mode) (run_rollback json env m.cached.mode)
          (env.manager 1) rollback_mode "update_rollback_start" "{}" m v
          (λ may m' i. (run_rollback-stays env m.cached.mode m' g i, i))
          (λ never. absurd (let bad : true ≡ false = sym a ∙ never in cc)) n3)

  -- But from gaming or lab-active a confirmed request leads into rollback-mode even if the script
  -- fails, since the table of transitions has no way back.
  pub update_rollback-stays :
      (env : Env) (m : Manager B)
      → m.cache_valid ≡ true
      → env.token_matches ≡ true
      → env.update_script ≡ true
      → (m.cached.mode ≡ gaming) ⊎ (m.cached.mode ≡ lab_active)
      → In (update_rollback json env m).0 rollback_mode
  unfolding update_rollback
  update_rollback-stays env m v t u g =
      simp (t, u)
        (subst (λ (s : Served B). In s.0 rollback_mode)
          (sym (with_snapshot_of_valid json env (rollback_loaded json env) m v))
          (rollback_loaded-stays env m v g))
