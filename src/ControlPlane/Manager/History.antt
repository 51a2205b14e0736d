-- ===== src/ControlPlane/Manager/History.antt =====
-- Sequences of calls of the control plane's manager, and restarts of the dashboard.
use mathlib.Core.Path.{subst}
use hisnos_secure_workstatio.Common.{
  ◌≡◌, refl, sym, ap, ◌∙◌, ◌⊎◌, inl, inr, Bool, true, false, ◌||◌, none, some, List, [], ◌∷◌, arith,
}
use hisnos_secure_workstatio.AtomicFile.{Json}
use hisnos_secure_workstatio.ControlPlane.{Mode, SystemState, normal, vault_mounted, rollback_mode}
use hisnos_secure_workstatio.ControlPlane.Modes.{mode_eq, allowed, permitted, allowed-permitted}
use hisnos_secure_workstatio.ControlPlane.Manager.{
  Manager, Env, file_error, invalid_transition, Call, transitions, mounts, updates, validates,
  configures, step, ensure_loaded,
}
use hisnos_secure_workstatio.ControlPlane.Manager.Laws.{
  after, admitted, vault_mode, step-Wrote, mode_eq-eq,
}

-- Staying in a mode, or a move that the table permits.
abbrev pub MayMove : Mode → Mode → Type 0
MayMove from to = (to ≡ from) ⊎ (permitted from to ≡ true)

vault_mode-MayMove : (mode : Mode) (mounted : Bool) → MayMove mode (vault_mode mode mounted)
vault_mode-MayMove mode mounted = ground arith

guarded-MayMove : (from to : Mode) → (mode_eq from to || allowed from to) ≡ true → MayMove from to
guarded-MayMove from to h = ground (arith, mode_eq-eq from to, allowed-permitted from to)

after-MayMove :
    (env : Env) (c : Call) (s : SystemState)
    → admitted c s ≡ true
    → MayMove s.mode (after env c s).mode
after-MayMove env (transitions to action meta) s h = guarded-MayMove s.mode to h
after-MayMove env (mounts mounted action meta) s h = vault_mode-MayMove s.mode mounted
after-MayMove env (updates facts action meta) s h = inl refl
after-MayMove env (validates k action meta) s h = inl refl
after-MayMove env (configures facts action meta) s h = inl refl

rollback_mode-MayMove :
    (to : Mode)
    → MayMove rollback_mode to
    → (to ≡ rollback_mode) ⊎ ((to ≡ normal) ⊎ (to ≡ vault_mounted))
rollback_mode-MayMove to h = ground (arith, mode_eq-eq to normal, mode_eq-eq to vault_mounted)

module _ {B : Type 0} (json : Json SystemState B) where
  -- Whatever method is called, and whether or not the file can be written, the mode stays or makes
  -- a move of the table; and a loaded manager stays loaded.
  pub step-MayMove :
      (env : Env) (c : Call) (m : Manager B)
      → m.cache_valid ≡ true
      → let m' = (step json env c m).0 in
        MayMove m.cached.mode m'.cached.mode × (m'.cache_valid ≡ true)
  step-MayMove env c m v = elim (step-Wrote json env c m v) [
    | inl (a, w) ↦ (
      subst (λ (s : SystemState). MayMove m.cached.mode s.mode) (sym w.0)
          (after-MayMove env c m.cached a),
      w.1 ∙ v,
    )
    | inr (_, e) ↦ rw e (inl refl, v)
  ]

  pub run : List (Env × Call) → Manager B → Manager B
  run [] m = m
  run ((env, c) ∷ cs) m = run cs (step json env c m).0

  -- At some point of a run the mode is one of the two that rollback-mode may be left for.
  abbrev pub Leaves : List (Env × Call) → Manager B → Type 0
  Leaves [] m = (m.cached.mode ≡ normal) ⊎ (m.cached.mode ≡ vault_mounted)
  Leaves ((env, c) ∷ cs) m =
      ((m.cached.mode ≡ normal) ⊎ (m.cached.mode ≡ vault_mounted)) ⊎ Leaves cs (step json env c m).0

  Leaves-here :
      (cs : List (Env × Call)) (m : Manager B)
      → (m.cached.mode ≡ normal) ⊎ (m.cached.mode ≡ vault_mounted)
      → Leaves cs m
  Leaves-here [] m h = h
  Leaves-here ((env, c) ∷ cs) m h = inl h

  -- A run of a loaded manager that begins in rollback-mode stays there unless it passes through normal or
  -- vault-mounted: rollback-mode blocks an update from being prepared.
  pub run-Leaves :
      (cs : List (Env × Call)) (m : Manager B)
      → m.cache_valid ≡ true
      → m.cached.mode ≡ rollback_mode
      → ((run cs m).cached.mode ≡ rollback_mode) ⊎ Leaves cs m
  unfolding run
  run-Leaves [] m v r = inl r
  run-Leaves ((env, c) ∷ cs) m v r =
      let (may, v') = step-MayMove env c m v in
      let m' = (step json env c m).0 in
      elim (rollback_mode-MayMove m'.cached.mode (subst (λ k. MayMove k m'.cached.mode) r may)) [
        | inl still ↦ elim (run-Leaves cs m' v' still) [ inl e ↦ inl e | inr l ↦ inr (inr l) ]
        | inr out ↦ inr (inr (Leaves-here cs m' out))
      ]

  -- A new process: the cache is not valid, and the file is read.
  abbrev pub restart : Env → Manager B → Manager B
  restart env m = (ensure_loaded json env (record m { cache_valid = false })).0

  restart-read :
      (env : Env) (m : Manager B) (b : B) (s : SystemState)
      → m.file ≡ some b
      → json.unmarshal b ≡ some s
      → (restart env m).cached ≡ s
  unfolding ensure_loaded
  restart-read env m b s f d = ground arith

  -- Any call of a loaded manager that reports no error survives a restart, if the encoding of the new
  -- state reads back: the new process has the same state.
  pub step-restart :
      (env env' : Env) (c : Call) (m : Manager B)
      → m.cache_valid ≡ true
      → ((b : B)
          → json.marshal_indent (after env c m.cached) ≡ some b
          → json.unmarshal b ≡ some (after env c m.cached))
      → (step json env c m).1 ≡ none
      → (restart env' (step json env c m).0).cached ≡ (step json env c m).0.cached
  step-restart env env' c m v decodes ok = elim (step-Wrote json env c m v) [
    | inl (_, (s, _, inl (_, (b, e, f)))) ↦
        restart-read env' (step json env c m).0 b _ f (decodes b e) ∙ sym s
    | inl (_, (_, _, inr (e, _))) ↦ cc
    | inr (_, e) ↦ let q : (step json env c m).1 ≡ some invalid_transition = ap (λ r. r.1) e in cc
  ]

  -- A call of a loaded manager, whose state the file holds, that reports a failed write is in force
  -- all the same, until a restart undoes it: the
  -- state in memory is the one asked for, and the new process reads the state from before.
  pub failed_write_in_force :
      (env env' : Env) (c : Call) (m : Manager B) (b : B)
      → m.cache_valid ≡ true
      → m.file ≡ some b
      → json.unmarshal b ≡ some m.cached
      → (step json env c m).1 ≡ some file_error
      → let m' = (step json env c m).0 in
        (m'.cached ≡ after env c m.cached) × ((restart env' m').cached ≡ m.cached)
  failed_write_in_force env env' c m b v f d failed = elim (step-Wrote json env c m v) [
    | inl (_, (_, _, inl (e, _))) ↦ cc
    | inl (_, (s, _, inr (_, same))) ↦
        (s, restart-read env' (step json env c m).0 b m.cached (same ∙ f) d)
    | inr (_, e) ↦ let q : (step json env c m).1 ≡ some invalid_transition = ap (λ r. r.1) e in cc
  ]
