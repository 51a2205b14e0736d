-- ===== src/ControlPlane/Manager.antt =====
-- dashboard/backend/state/control_plane.go: the manager's methods.
-- The mutex makes each method one step. A step takes the time and, for the two places where it may
-- write the file (loading the defaults, and its own change), whether that write succeeds.
pub mod Laws
pub mod History
use hisnos_secure_workstatio.Common.{
  ℕ, Bool, true, false, Option, none, some, String, if◌then◌else◌,
}
use hisnos_secure_workstatio.AtomicFile.{Json}
use hisnos_secure_workstatio.ControlPlane.{
  Mode, normal, gaming, lab_active, vault_mounted, update_preparing, update_pending, rollback_mode,
  other, Transition, LabFacts, KernelValidation, UpdateFacts, SystemState, default_state,
}
use hisnos_secure_workstatio.ControlPlane.Modes.{mode_eq, allowed}

-- The guard errors that the manager returns, and the file's errors.
pub data Error : Type 0 where
  invalid_transition load_failed : Error
  file_error : Error

pub record Manager (B : Type 0) : Type 0 where
  pub file : Option B
  pub cached : SystemState
  pub cache_valid : Bool

-- What the surroundings of a call decide. `false` is an error of MkdirAll, WriteFile or Rename,
-- each of which leaves the state file as it was.
pub record Env : Type 0 where
  pub now : ℕ
  pub default_written : Bool
  pub change_written : Bool

-- A state with its transition, mode and time written.
abbrev pub touched : Env → Mode → String → String → SystemState → SystemState
touched env to action meta s = record s {
  last_transition = record { from = s.mode; to = to; action = action; at = env.now; meta = meta };
  mode = to;
  updated_at = env.now;
}

module _ {B : Type 0} (json : Json SystemState B) where
  abbrev write_file : Bool → Option B → Manager B → Manager B × Option Error
  write_file true (some b) m = (record m { file = some b }, none)
  write_file true none m = (m, some file_error)
  write_file false b m = (m, some file_error)

  unfoldable pub persist_locked : Bool → SystemState → Manager B → Manager B × Option Error
  persist_locked written s m = write_file written (json.marshal_indent s) m

  abbrev read_file : Option B → Option SystemState
  read_file none = none
  read_file (some b) = json.unmarshal b

  -- The state that Go returns beside the error is `cached` of the new manager.
  unfoldable pub ensure_loaded : Env → Manager B → Manager B × Option Error
  unfolding persist_locked
  ensure_loaded env m = if m.cache_valid then (m, none) else elim (read_file m.file) [
    | some s ↦ (record m { cached = s; cache_valid = true }, none)
    | none ↦
        let s = default_state env.now in
        persist_locked env.default_written s (record m { cached = s; cache_valid = true })
  ]

  -- `m.cached.LastTransition = …; m.cached.UpdatedAt = …; return m.persistLocked(m.cached)`.
  unfoldable pub record_transition :
      Env → Mode → String → String → Manager B → Manager B × Option Error
  unfolding persist_locked
  record_transition env to action meta m =
      let s = touched env to action meta m.cached in
      persist_locked env.change_written s (record m { cached = s })

  -- `setModeLocked`, and the branch for `from == to`, which writes the same fields.
  unfoldable pub set_mode_with_guard :
      Env → Mode → String → String → Manager B → Manager B × Option Error
  unfolding record_transition
  set_mode_with_guard env to action meta m =
      if mode_eq m.cached.mode to
      then record_transition env m.cached.mode action meta m
      else if allowed m.cached.mode to
      then record_transition env to action meta m
      else (m, some invalid_transition)

  -- `s, err := m.ensureLoadedLocked(); if err != nil { return … }`, then the rest.
  abbrev pub if_loaded :
      Error
      → (Manager B → Manager B × Option Error)
      → Manager B × Option Error
      → Manager B × Option Error
  if_loaded e rest r = elim r.1 [ none ↦ rest r.0 | some _ ↦ (r.0, some e) ]

  -- Both errors of the source that wrap a failed load have the code of `invalid_transition`; the
  -- model keeps them apart.
  unfoldable pub transition_mode :
      Env → Mode → String → String → Manager B → Manager B × Option Error
  unfolding ensure_loaded set_mode_with_guard
  transition_mode env to action meta m =
      if_loaded load_failed (set_mode_with_guard env to action meta) (ensure_loaded env m)

  -- The mode follows the flag in the two modes of the "normal family"; elsewhere it stays.
  abbrev pub vault_switch :
      Env → Mode → Bool → String → String → Manager B → Manager B × Option Error
  vault_switch env normal true action meta m = set_mode_with_guard env vault_mounted action meta m
  vault_switch env vault_mounted false action meta m = set_mode_with_guard env normal action meta m
  vault_switch env from mounted action meta m = record_transition env from action meta m

  -- `s.VaultMounted = vaultMounted; m.cached = s`, then the switch.
  abbrev pub mount_loaded : Env → Bool → String → String → Manager B → Manager B × Option Error
  mount_loaded env mounted action meta l =
      vault_switch env l.cached.mode mounted action meta
        (record l { cached = record (l.cached) { vault_flag = mounted } })

  unfoldable pub set_vault_mounted :
      Env → Bool → String → String → Manager B → Manager B × Option Error
  unfolding ensure_loaded set_mode_with_guard record_transition
  set_vault_mounted env mounted action meta m =
      if_loaded file_error (mount_loaded env mounted action meta) (ensure_loaded env m)

  -- `SetUpdateFacts`, `SetKernelValidation` and `SetLabFacts` differ in the field that they set.
  abbrev pub facts_loaded :
      (SystemState → SystemState) → Env → String → String → Manager B → Manager B × Option Error
  facts_loaded f env action meta l =
      record_transition env l.cached.mode action meta (record l { cached = f l.cached })

  abbrev pub set_facts :
      (SystemState → SystemState) → Env → String → String → Manager B → Manager B × Option Error
  set_facts f env action meta m =
      if_loaded file_error (facts_loaded f env action meta) (ensure_loaded env m)

  unfoldable pub set_update_facts :
      Env → UpdateFacts → String → String → Manager B → Manager B × Option Error
  unfolding ensure_loaded record_transition
  set_update_facts env facts = set_facts (λ s. record s { update_facts = facts }) env

  unfoldable pub set_kernel_validation :
      Env → KernelValidation → String → String → Manager B → Manager B × Option Error
  unfolding ensure_loaded record_transition
  set_kernel_validation env k = set_facts (λ s. record s { kernel_validation = k }) env

  unfoldable pub set_lab_facts :
      Env → LabFacts → String → String → Manager B → Manager B × Option Error
  unfolding ensure_loaded record_transition
  set_lab_facts env facts = set_facts (λ s. record s { lab = facts }) env

-- One call of a method that changes the state.
pub data Call : Type 0 where
  transitions : Mode → String → String → Call
  mounts : Bool → String → String → Call
  updates : UpdateFacts → String → String → Call
  validates : KernelValidation → String → String → Call
  configures : LabFacts → String → String → Call

module _ {B : Type 0} (json : Json SystemState B) where
  unfoldable pub step : Env → Call → Manager B → Manager B × Option Error
  unfolding transition_mode set_vault_mounted set_update_facts set_kernel_validation set_lab_facts
  step env (transitions to action meta) = transition_mode json env to action meta
  step env (mounts mounted action meta) = set_vault_mounted json env mounted action meta
  step env (updates facts action meta) = set_update_facts json env facts action meta
  step env (validates k action meta) = set_kernel_validation json env k action meta
  step env (configures facts action meta) = set_lab_facts json env facts action meta
