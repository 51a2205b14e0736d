-- ===== src/Dashboard/Updates/Guards.antt =====
-- dashboard/backend/api/update.go: what stands before an update is applied.
use text.Mathlib.Text.{◌==◌ as str_eq}
use text.Mathlib.TextEquality.{eq_iff}
use hisnos_secure_workstatio.Common.{
  zero, suc, ◌≡◌, sym, ap, ◌∙◌, inl, inr, true, false, Option, none, some, ◌==◌, Bool-cases,
  Option-cases, arith,
}
use hisnos_secure_workstatio.AtomicFile.{Json}
use hisnos_secure_workstatio.ControlPlane.{Mode, update_pending, rollback_mode, SystemState}
use hisnos_secure_workstatio.ControlPlane.Modes.{mode_eq}
use hisnos_secure_workstatio.ControlPlane.Manager.{Manager, Error, ensure_loaded}
use hisnos_secure_workstatio.Dashboard.{
  done, Env, fact, kernel_validation_ok, firewall_compatibility_ok, Served, after_snapshot,
}
use hisnos_secure_workstatio.Dashboard.Updates.{run_apply, apply_loaded, update_apply}

-- The last validation passed, for the deployment that runs.
abbrev pub Validated : Env → Type 0
Validated env =
    (fact env "last_validate_result" ≡ "ok")
    × (env.booted ≡ some (fact env "last_validate_deployment"))

-- Nothing stands against applying an update in a mode.
abbrev pub Cleared : Env → Mode → Type 0
Cleared env mode =
    (env.token_matches ≡ true)
    × (env.vault_lock_file ≡ false)
    × Validated env
    × (env.nft_table ≡ some 0)
    × (env.exit_code ≡ some 0)
    × (mode_eq mode rollback_mode ≡ false)
    × (mode_eq mode update_pending ≡ false)

kernel_validation_ok_lem : (env : Env) → kernel_validation_ok env ≡ none → Validated env
unfolding kernel_validation_ok
kernel_validation_ok_lem env h = elim (Option-cases env.facts) [
  | inl e ↦ absurd (let bad = rw (e, kernel_validation_ok) at h in cc)
  | inr (f, e) ↦ elim (Bool-cases (str_eq (f "last_validate_result") "ok")) [
    | inr n ↦ absurd (let bad = rw (e, kernel_validation_ok, n) at h in cc)
    | inl y ↦ elim (Option-cases env.booted) [
      | inl b ↦ absurd (let bad = rw (e, kernel_validation_ok, y, b) at h in cc)
      | inr (checksum, b) ↦ elim (Bool-cases (str_eq (f "last_validate_deployment") "")) [
        | inl z ↦ absurd (let bad = rw (e, kernel_validation_ok, y, b, z) at h in cc)
        | inr z ↦ elim (Bool-cases (str_eq (f "last_validate_deployment") checksum)) [
          | inr n ↦ absurd (let bad = rw (e, kernel_validation_ok, y, b, z, n) at h in cc)
          | inl s ↦
              let (to, from) = eq_iff (f "last_validate_result") "ok" in
              let (to2, from2) = eq_iff (f "last_validate_deployment") checksum in
              rw e (to y, b ∙ ap some (sym (to2 s)))
        ]
      ]
    ]
  ]
]

firewall_compatibility_ok_lem :
    (env : Env) → firewall_compatibility_ok env ≡ none → env.nft_table ≡ some 0
unfolding firewall_compatibility_ok
firewall_compatibility_ok_lem env h = elim (Option-cases env.nft_table) [
  | inl e ↦ absurd (let bad = rw (e, firewall_compatibility_ok) at h in cc)
  | inr (zero, e) ↦ e
  | inr (suc code, e) ↦ absurd (let bad = rw (e, firewall_compatibility_ok) at h in ground arith)
]

after_snapshot-done :
    {B : Type 0} (rest : Manager B → Served B) (t : Manager B × Option Error)
    → (after_snapshot rest t).1 ≡ done 0
    → (rest t.0).1 ≡ done 0
after_snapshot-done rest (m, none) h = h
after_snapshot-done rest (m, some e) h = absurd (let bad = h in cc)

module _ {B : Type 0} (json : Json SystemState B) where
  run_apply_lem :
      (env : Env) (m : Manager B) → (run_apply json env m).1 ≡ done 0 → env.exit_code ≡ some 0
  unfolding run_apply
  run_apply_lem env m h = elim (Option-cases env.exit_code) [
    | inl e ↦ absurd (let bad = rw (e, run_apply) at h in cc)
    | inr (zero, e) ↦ e
    | inr (suc code, e) ↦
        let other : (suc code == 0) ≡ false = ground arith in
        absurd (let bad : done (suc code) ≡ done 0 = rw (e, run_apply, other) at h in ground arith)
  ]

  apply_loaded-Cleared :
      (env : Env) (m : Manager B)
      → env.token_matches ≡ true
      → (apply_loaded json env m).1 ≡ done 0
      → Cleared env m.cached.mode
  unfolding apply_loaded
  apply_loaded-Cleared env m t h = elim (Bool-cases (mode_eq m.cached.mode rollback_mode)) [
    | inl y ↦ absurd (let bad = rw y at h in cc)
    | inr n ↦ elim (Bool-cases (mode_eq m.cached.mode update_pending)) [
      | inl y ↦ absurd (let bad = rw (n, y) at h in cc)
      | inr n2 ↦ elim (Bool-cases env.vault_lock_file) [
        | inl y ↦ absurd (let bad = simp (n, n2, y) at h in cc)
        | inr n3 ↦ elim (Option-cases (kernel_validation_ok env)) [
          | inr (code, k) ↦ absurd (let bad = simp (n, n2, n3, apply_loaded, k) at h in cc)
          | inl k ↦ elim (Option-cases (firewall_compatibility_ok env)) [
            | inr (code, f) ↦ absurd (let bad = simp (n, n2, n3, apply_loaded, k, f) at h in cc)
            | inl f ↦
                let x : env.exit_code ≡ some 0 =
                  run_apply_lem env m (simp (n, n2, n3, apply_loaded, k, f) at h) in
                (
                  t,
                  n3,
                  kernel_validation_ok_lem env k,
                  firewall_compatibility_ok_lem env f,
                  x,
                  n,
                  n2,
                )
          ]
        ]
      ]
    ]
  ]

  -- Whatever the manager holds: if a request to apply an update is answered with the exit code 0, the
  -- request was confirmed, the vault was locked, the last validation passed for the deployment that
  -- runs, the firewall's table was loaded, the script succeeded, and the state was loaded in a mode
  -- other than rollback-mode and update-pending-reboot.
  pub update_apply-Cleared :
      (env : Env) (m : Manager B)
      → (update_apply json env m).1 ≡ done 0
      → Cleared env (ensure_loaded json (env.manager 0) m).0.cached.mode
  unfolding update_apply
  update_apply-Cleared env m h = elim (Bool-cases env.token_matches) [
    | inr n ↦ absurd (let bad = simp n at h in cc)
    | inl t ↦ elim (Bool-cases env.update_script) [
      | inr n ↦ absurd (let bad = simp (t, n) at h in cc)
      | inl u ↦ apply_loaded-Cleared env (ensure_loaded json (env.manager 0) m).0 t (
          after_snapshot-done (apply_loaded json env) (ensure_loaded json (env.manager 0) m)
            (simp (t, u) at h))
    ]
  ]
