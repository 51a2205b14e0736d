-- ===== src/ControlPlane/Manager/Laws.antt =====
-- What one call of the control plane's manager does on each branch.
use text.Mathlib.TextEquality.{eq_iff}
use mathlib.Core.Path.{subst}
use hisnos_secure_workstatio.Common.{
  ◌≡◌, refl, ◌⊎◌, inl, inr, Bool, true, false, ◌||◌, Option, none, some, String, arith, Bool-cases,
  Option-cases, ap, sym,
}
use hisnos_secure_workstatio.AtomicFile.{Json}
use hisnos_secure_workstatio.ControlPlane.{Mode, other, SystemState, normal, vault_mounted}
use hisnos_secure_workstatio.ControlPlane.Modes.{mode_eq, allowed}
use hisnos_secure_workstatio.ControlPlane.Manager.{
  Manager, Env, Error, invalid_transition, file_error, load_failed, Call, transitions, mounts,
  updates, validates, configures, transition_mode, step, set_mode_with_guard, record_transition,
  persist_locked, ensure_loaded, touched, if_loaded, vault_switch, set_facts, mount_loaded,
  facts_loaded,
}

pub mode_eq-eq : (a b : Mode) → mode_eq a b ≡ true → a ≡ b
mode_eq-eq (other a) (other b) h = ap other ((eq_iff a b).0 h)
mode_eq-eq normal b h = ground arith
mode_eq-eq _ b h = ground arith

-- The mode after the vault is mounted or locked.
abbrev pub vault_mode : Mode → Bool → Mode
vault_mode normal true = vault_mounted
vault_mode vault_mounted false = normal
vault_mode mode _ = mode

-- What each call asks of the state, and when it is refused.
abbrev pub after : Env → Call → SystemState → SystemState
after env (transitions to action meta) s = touched env to action meta s
after env (mounts mounted action meta) s =
    touched env (vault_mode s.mode mounted) action meta (record s { vault_flag = mounted })
after env (updates facts action meta) s =
    touched env s.mode action meta (record s { update_facts = facts })
after env (validates k action meta) s =
    touched env s.mode action meta (record s { kernel_validation = k })
after env (configures facts action meta) s =
    touched env s.mode action meta (record s { lab = facts })

abbrev pub admitted : Call → SystemState → Bool
admitted (transitions to action meta) s = mode_eq s.mode to || allowed s.mode to
admitted (mounts mounted action meta) s = true
admitted (updates facts action meta) s = true
admitted (validates k action meta) s = true
admitted (configures facts action meta) s = true

module _ {B : Type 0} (json : Json SystemState B) where
  -- The outcome of a call that gives a manager the state `s`: the state in memory is `s` in any
  -- case; the file holds it if no error is returned, and else what it held before.
  abbrev pub Wrote : SystemState → Manager B → Manager B × Option Error → Type 0
  Wrote s m r =
      (r.0.cached ≡ s)
      × (r.0.cache_valid ≡ m.cache_valid)
      × ((r.1 ≡ none) × ((b : B) × (json.marshal_indent s ≡ some b) × (r.0.file ≡ some b))
          ⊎ (r.1 ≡ some file_error) × (r.0.file ≡ m.file))

  persist_locked-Wrote :
      (w : Bool) (s : SystemState) (m : Manager B)
      → Wrote s m (persist_locked json w s (record m { cached = s }))
  unfolding persist_locked
  persist_locked-Wrote false s m = (refl, refl, inr (refl, refl))
  persist_locked-Wrote true s m = elim (Option-cases (json.marshal_indent s)) [
    | inl e ↦ rw (e, persist_locked) (refl, refl, inr (refl, refl))
    | inr (b, e) ↦ rw (e, persist_locked) (refl, refl, inl (refl, (b, refl, refl)))
  ]

  pub record_transition-Wrote :
      (env : Env) (to : Mode) (action meta : String) (m : Manager B)
      → Wrote (touched env to action meta m.cached) m (record_transition json env to action meta m)
  unfolding record_transition
  record_transition-Wrote env to action meta m =
      persist_locked-Wrote env.change_written (touched env to action meta m.cached) m

  -- What the guarded change of mode does.
  abbrev pub Guarded : Env → Mode → String → String → Manager B → Manager B × Option Error → Type 0
  Guarded env to action meta m r =
      ((mode_eq m.cached.mode to || allowed m.cached.mode to) ≡ true)
        × Wrote (touched env to action meta m.cached) m r
      ⊎ ((mode_eq m.cached.mode to || allowed m.cached.mode to) ≡ false)
        × (r ≡ (m, some invalid_transition))

  pub set_mode_with_guard-Guarded :
      (env : Env) (to : Mode) (action meta : String) (m : Manager B)
      → Guarded env to action meta m (set_mode_with_guard json env to action meta m)
  unfolding set_mode_with_guard
  set_mode_with_guard-Guarded env to action meta m = elim (Bool-cases (mode_eq m.cached.mode to)) [
    | inl same ↦ inl (
      rw same,
      rw (same, set_mode_with_guard)
          (subst
            (λ k.
              Wrote (touched env k action meta m.cached) m
                (record_transition json env m.cached.mode action meta m))
            (mode_eq-eq m.cached.mode to same)
            (record_transition-Wrote env m.cached.mode action meta m)),
    )
    | inr differ ↦ elim (Bool-cases (allowed m.cached.mode to)) [
      | inl may ↦ inl (
        rw (differ, may),
        rw (differ, may, set_mode_with_guard) (record_transition-Wrote env to action meta m),
      )
      | inr never ↦ inr (rw (differ, never), rw (differ, never, set_mode_with_guard) refl)
    ]
  ]

  pub ensure_loaded_of_valid :
      (env : Env) (m : Manager B) → m.cache_valid ≡ true → ensure_loaded json env m ≡ (m, none)
  unfolding ensure_loaded
  ensure_loaded_of_valid env m v = rw (v, ensure_loaded)

  transition_mode_of_valid :
      (env : Env) (to : Mode) (action meta : String) (m : Manager B)
      → m.cache_valid ≡ true
      → transition_mode json env to action meta m ≡ set_mode_with_guard json env to action meta m
  unfolding transition_mode
  transition_mode_of_valid env to action meta m v =
      ap (if_loaded json load_failed (set_mode_with_guard json env to action meta))
        (ensure_loaded_of_valid env m v)

  -- A change of mode that the table allows is always made.
  allowed_change :
      (env : Env) (to : Mode) (action meta : String) (m : Manager B)
      → allowed m.cached.mode to ≡ true
      → Wrote
          (touched env to action meta m.cached)
          m
          (set_mode_with_guard json env to action meta m)
  allowed_change env to action meta m a = elim (set_mode_with_guard-Guarded env to action meta m) [
    | inl (_, w) ↦ w
    | inr (never, _) ↦ ground (arith, a, never)
  ]

  vault_switch-Wrote :
      (env : Env) (from : Mode) (mounted : Bool) (action meta : String) (m : Manager B)
      → m.cached.mode ≡ from
      → Wrote
          (touched env (vault_mode from mounted) action meta m.cached)
          m
          (vault_switch json env from mounted action meta m)
  unfolding allowed
  vault_switch-Wrote env normal true action meta m e =
      allowed_change env vault_mounted action meta m (rw e)
  vault_switch-Wrote env vault_mounted false action meta m e =
      allowed_change env normal action meta m (rw e)
  vault_switch-Wrote env from mounted action meta m e =
      record_transition-Wrote env from action meta m

  -- A call that is made of a part behind `if_loaded`.
  loaded_call :
      (env : Env) (s : SystemState) (m : Manager B)
      → m.cache_valid ≡ true
      → (e : Error) (rest : Manager B → Manager B × Option Error) → Wrote s m (rest m)
      → Wrote s m (if_loaded json e rest (ensure_loaded json env m))
  loaded_call env s m v e rest w =
      subst (Wrote s m) (sym (ap (if_loaded json e rest) (ensure_loaded_of_valid env m v))) w

  facts_call :
      (f : SystemState → SystemState) (env : Env) (action meta : String) (m : Manager B)
      → m.cache_valid ≡ true
      → Wrote
          (touched env m.cached.mode action meta (f m.cached))
          m
          (set_facts json f env action meta m)
  facts_call f env action meta m v =
      loaded_call env _ m v file_error (facts_loaded json f env action meta)
        (record_transition-Wrote env m.cached.mode action meta (record m { cached = f m.cached }))

  -- The contract of a loaded manager, for every method and every outcome of the file write. Only a
  -- transition that the table does not allow is refused, and then nothing changes. Any other call
  -- makes its change in memory; it reports no error exactly when the file holds the new state, and
  -- an error when the file is as it was.
  pub step-Wrote :
      (env : Env) (c : Call) (m : Manager B)
      → m.cache_valid ≡ true
      → let r = step json env c m in
        (admitted c m.cached ≡ true) × Wrote (after env c m.cached) m r
        ⊎ (admitted c m.cached ≡ false) × (r ≡ (m, some invalid_transition))
  unfolding step
  step-Wrote env (transitions to action meta) m v =
      rw (transition_mode_of_valid env to action meta m v)
        (set_mode_with_guard-Guarded env to action meta m)
  step-Wrote env (mounts mounted action meta) m v = inl (
    refl,
    loaded_call env _ m v file_error (mount_loaded json env mounted action meta) (
        vault_switch-Wrote env m.cached.mode mounted action meta
          (record m { cached = record (m.cached) { vault_flag = mounted } }) refl),
  )
  step-Wrote env (updates facts action meta) m v =
      inl (refl, facts_call (λ s. record s { update_facts = facts }) env action meta m v)
  step-Wrote env (validates k action meta) m v =
      inl (refl, facts_call (λ s. record s { kernel_validation = k }) env action meta m v)
  step-Wrote env (configures facts action meta) m v =
      inl (refl, facts_call (λ s. record s { lab = facts }) env action meta m v)
