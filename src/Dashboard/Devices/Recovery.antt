-- ===== src/Dashboard/Devices/Recovery.antt =====
-- dashboard/backend/api: sequences of requests that begin in rollback-mode.
use hisnos_secure_workstatio.Common.{
  ℕ, zero, suc, ◌≡◌, ap, ◌∙◌, ◌≢◌, inl, inr, true, false, Option, some, List, [], ◌∷◌, ◌==◌,
  Bool-cases, Option-cases, All, String, arith,
}
use hisnos_secure_workstatio.AtomicFile.{Json}
use hisnos_secure_workstatio.ControlPlane.{
  update_preparing, update_pending, rollback_mode, SystemState,
}
use hisnos_secure_workstatio.ControlPlane.Manager.{Manager, validates, mounts, step}
use hisnos_secure_workstatio.ControlPlane.Manager.Laws.{vault_mode, step-Wrote}
use hisnos_secure_workstatio.Dashboard.{done, Env, Served, mode_allows_firewall}
use hisnos_secure_workstatio.Dashboard.Updates.{
  prepare_loaded, update_prepare, apply_loaded, update_apply, rollback_loaded, update_rollback,
  update_validate, validation_facts,
}
use hisnos_secure_workstatio.Dashboard.Updates.Moves.{In, move-In}
use hisnos_secure_workstatio.Dashboard.Devices.Staying.{
  Stays, if_changed-Stays, in_mode, snapshot-Stays,
}
use hisnos_secure_workstatio.Dashboard.Lab.{
  LabStart, LabStop, LabNetwork, system_mode_transition, lab_start, lab_stop,
  lab_network_profile_set,
}
use hisnos_secure_workstatio.Dashboard.Lab.Staying.{
  transition-Stays, start-Stays, stop-Stays, network-Stays,
}
use hisnos_secure_workstatio.Dashboard.Devices.{
  lock_script, vault_lock, mount_loaded, vault_mount, reload_loaded, firewall_reload, reboot_loaded,
  system_reboot,
}

pub data Request : Type 0 where
  prepares applies rolls_back validates_update : Request
  locks mounts_vault reloads reboots : Request
  sets_mode : Option String → Request
  starts_lab : LabStart → Request
  stops_lab : LabStop → Request
  sets_lab_network : LabNetwork → Request

module _ {B : Type 0} (json : Json SystemState B) where
  unfoldable pub serve : Env → Request → Manager B → Served B
  serve env prepares m = update_prepare json env m
  serve env applies m = update_apply json env m
  serve env rolls_back m = update_rollback json env m
  serve env validates_update m = update_validate json env m
  serve env locks m = vault_lock json env m
  serve env mounts_vault m = vault_mount json env m
  serve env reloads m = firewall_reload json env m
  serve env reboots m = system_reboot json env m
  serve env (sets_mode body) m = system_mode_transition json env body m
  serve env (starts_lab lab) m = lab_start json env lab m
  serve env (stops_lab stop) m = lab_stop json env stop m
  serve env (sets_lab_network net) m = lab_network_profile_set json env net m

  pub serve_all : List (Env × Request) → Manager B → Manager B
  serve_all [] m = m
  serve_all ((env, req) ∷ rest) m = serve_all rest (serve env req m).0

-- The request does not report that a validation passed.
abbrev pub NotPassed : Env × Request → Type 0
NotPassed (env, validates_update) = env.exit_code ≢ some 0
NotPassed (env, _) = Unit

module _ {B : Type 0} (json : Json SystemState B) where
  prepare-Stays :
      (env : Env) (m : Manager B) → In m rollback_mode → Stays (update_prepare json env m)
  unfolding update_prepare prepare_loaded
  prepare-Stays env m i = elim (Bool-cases env.update_script) [
    | inr n ↦ simp n i
    | inl y ↦
        let blocked : Stays (prepare_loaded json env m) = simp (in_mode m rollback_mode i) i in
        simp y (snapshot-Stays json env (prepare_loaded json env) m i blocked)
  ]

  apply-Stays : (env : Env) (m : Manager B) → In m rollback_mode → Stays (update_apply json env m)
  unfolding update_apply apply_loaded
  apply-Stays env m i = elim (Bool-cases env.token_matches) [
    | inr n ↦ simp n i
    | inl t ↦ elim (Bool-cases env.update_script) [
      | inr n ↦ simp (t, n) i
      | inl y ↦
          let blocked : Stays (apply_loaded json env m) = simp (in_mode m rollback_mode i) i in
          simp (t, y) (snapshot-Stays json env (apply_loaded json env) m i blocked)
    ]
  ]

  rollback-Stays :
      (env : Env) (m : Manager B) → In m rollback_mode → Stays (update_rollback json env m)
  unfolding update_rollback rollback_loaded
  rollback-Stays env m i = elim (Bool-cases env.token_matches) [
    | inr n ↦ simp n i
    | inl t ↦ elim (Bool-cases env.update_script) [
      | inr n ↦ simp (t, n) i
      | inl y ↦
          let blocked : Stays (rollback_loaded json env m) =
            simp
              (in_mode m update_preparing i, in_mode m update_pending i, in_mode m rollback_mode i)
              i in
          simp (t, y) (snapshot-Stays json env (rollback_loaded json env) m i blocked)
    ]
  ]

  validates-In :
      (env : Env) (code : ℕ) (m : Manager B)
      → In m rollback_mode
      → In
          (step json
            (env.manager 0)
            (validates (validation_facts env) "update_validate_completed" (env.exit_meta code))
            m).0
          rollback_mode
  validates-In env code m i =
      elim (step-Wrote json (env.manager 0)
        (validates (validation_facts env) "update_validate_completed" (env.exit_meta code)) m i.0) [
          | inl (a, (w, k, _)) ↦ (k ∙ i.0, ap (λ (s : SystemState). s.mode) w ∙ i.1)
          | inr (a, r) ↦ absurd (let bad : true ≡ false = a in cc)
        ]

  validate-Stays :
      (env : Env) (m : Manager B)
      → env.exit_code ≢ some 0
      → In m rollback_mode
      → Stays (update_validate json env m)
  unfolding update_validate
  validate-Stays env m failed i = elim (Bool-cases env.update_script) [
    | inr n ↦ simp n i
    | inl y ↦ elim (Option-cases env.exit_code) [
      | inl e ↦ simp (update_validate, y, e) i
      | inr (zero, e) ↦ absurd (failed e)
      | inr (suc code, e) ↦
          let other : (suc code == 0) ≡ false = ground arith in
          let noted =
            (step json (env.manager 0)
              (validates (validation_facts env) "update_validate_completed"
                (env.exit_meta (suc code)))
              m).0 in
          simp (update_validate, y, e, other)
            (move-In json (env.manager 1) rollback_mode "update_validate_fail_to_rollback_mode" "{}"
              noted rollback_mode (validates-In env (suc code) m i))
    ]
  ]

  unmount-In :
      (env : Env) (code : ℕ) (m : Manager B)
      → In m rollback_mode
      → In
          (step json (env.manager 0) (mounts false "vault_lock" (env.exit_meta code)) m).0
          rollback_mode
  unmount-In env code m i =
      elim (step-Wrote json (env.manager 0) (mounts false "vault_lock" (env.exit_meta code)) m
        i.0) [
          | inl (a, (w, k, _)) ↦
              (k ∙ i.0, ap (λ (s : SystemState). s.mode) w ∙ ap (λ mode. vault_mode mode false) i.1)
          | inr (a, r) ↦ absurd (let bad : true ≡ false = a in cc)
        ]

  lock_script-Stays :
      (env : Env) (m : Manager B) → In m rollback_mode → Stays (lock_script json env m)
  unfolding lock_script
  lock_script-Stays env m i = elim (Option-cases env.exit_code) [
    | inl e ↦ simp (lock_script, e) i
    | inr (code, e) ↦ elim (Bool-cases (code == 0)) [
      | inr n ↦ simp (lock_script, e, n) i
      | inl z ↦
          simp (lock_script, e, z)
            (if_changed-Stays (done code)
              (step json (env.manager 0) (mounts false "vault_lock" (env.exit_meta code)) m)
              (unmount-In env code m i))
    ]
  ]

  lock-Stays : (env : Env) (m : Manager B) → In m rollback_mode → Stays (vault_lock json env m)
  unfolding vault_lock
  lock-Stays env m i = elim (Bool-cases env.token_matches) [
    | inr n ↦ simp n i
    | inl t ↦ elim (Option-cases env.daemon) [
      | inr (works, e) ↦ simp (vault_lock, t, e) i
      | inl e ↦ elim (Bool-cases env.vault_script) [
        | inr n ↦ simp (vault_lock, t, e, n) i
        | inl y ↦ simp (vault_lock, t, e, y) (lock_script-Stays env m i)
      ]
    ]
  ]

  mount-Stays : (env : Env) (m : Manager B) → In m rollback_mode → Stays (vault_mount json env m)
  unfolding vault_mount mount_loaded
  mount-Stays env m i = elim (Bool-cases env.token_matches) [
    | inr n ↦ simp n i
    | inl t ↦ elim (Bool-cases env.vault_script) [
      | inr n ↦ simp (t, n) i
      | inl y ↦
          let blocked : Stays (mount_loaded json env m) = simp (in_mode m rollback_mode i) i in
          simp (t, y) (snapshot-Stays json env (mount_loaded json env) m i blocked)
    ]
  ]

  reload_loaded-Stays :
      (env : Env) (m : Manager B) → In m rollback_mode → Stays (reload_loaded json env m)
  unfolding reload_loaded
  reload_loaded-Stays env m i = elim (Option-cases (mode_allows_firewall m.cached.mode)) [
    | inl e ↦ simp (reload_loaded, e) i
    | inr (code, e) ↦ simp (reload_loaded, e) i
  ]

  reload-Stays :
      (env : Env) (m : Manager B) → In m rollback_mode → Stays (firewall_reload json env m)
  unfolding firewall_reload
  reload-Stays env m i = elim (Bool-cases env.token_matches) [
    | inr n ↦ simp n i
    | inl t ↦ elim (Option-cases env.daemon) [
      | inr (works, e) ↦ simp (firewall_reload, t, e) i
      | inl e ↦
          simp (firewall_reload, t, e)
            (snapshot-Stays json env (reload_loaded json env) m i (reload_loaded-Stays env m i))
    ]
  ]

  reboot-Stays : (env : Env) (m : Manager B) → In m rollback_mode → Stays (system_reboot json env m)
  unfolding system_reboot reboot_loaded
  reboot-Stays env m i = elim (Bool-cases env.token_matches) [
    | inr n ↦ simp n i
    | inl t ↦
        let here : Stays (reboot_loaded json env m) = simp (in_mode m update_preparing i) i in
        simp t (snapshot-Stays json env (reboot_loaded json env) m i here)
  ]

  serve-Stays :
      (env : Env) (req : Request) (m : Manager B)
      → NotPassed (env, req)
      → In m rollback_mode
      → Stays (serve json env req m)
  unfolding serve
  serve-Stays env prepares m n i = prepare-Stays env m i
  serve-Stays env applies m n i = apply-Stays env m i
  serve-Stays env rolls_back m n i = rollback-Stays env m i
  serve-Stays env validates_update m n i = validate-Stays env m n i
  serve-Stays env locks m n i = lock-Stays env m i
  serve-Stays env mounts_vault m n i = mount-Stays env m i
  serve-Stays env reloads m n i = reload-Stays env m i
  serve-Stays env reboots m n i = reboot-Stays env m i
  serve-Stays env (sets_mode body) m n i = transition-Stays json env body m i
  serve-Stays env (starts_lab lab) m n i = start-Stays json env lab m i
  serve-Stays env (stops_lab stop) m n i = stop-Stays json env stop m i
  serve-Stays env (sets_lab_network net) m n i = network-Stays json env net m i

  -- Requests that come one after another, each when the one before is answered: a loaded control plane
  -- in rollback-mode stays there as long as no validation succeeds, whatever the scripts answer and
  -- whether or not the state can be written. The requests are all that change the control plane: those
  -- of update.go, vault.go, firewall.go, reboot.go, system.go, lab.go and lab_network.go.
  pub serve_all-rollback_mode :
      (reqs : List (Env × Request)) (m : Manager B)
      → All NotPassed reqs
      → In m rollback_mode
      → In (serve_all json reqs m) rollback_mode
  unfolding serve_all
  serve_all-rollback_mode [] m n i = i
  serve_all-rollback_mode ((env, req) ∷ rest) m (n, ns) i =
      serve_all-rollback_mode rest (serve json env req m).0 ns (serve-Stays env req m n i)
