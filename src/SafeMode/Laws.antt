-- ===== src/SafeMode/Laws.antt =====
-- core/runtime/safemode.go: what entering, blocking and leaving do on each branch.
use text.Mathlib.TextEquality.{eq_iff}
use hisnos_secure_workstatio.Common.{
  ℕ, ◌≡◌, refl, ◌↔◌, ◌⊎◌, inl, inr, Bool, true, false, not, ◌&&◌, some, [], String, arith,
  if◌then◌else◌, ◌∙◌, ap,
}
use hisnos_secure_workstatio.AtomicFile.{
  Disk, FileStep, write_temp, create_temp, rename_temp, whole, partial,
}
use hisnos_secure_workstatio.AtomicFile.Laws.{write_unchecked_lem}
use hisnos_secure_workstatio.SafeMode.{
  Setting, SafeModeState, SafeModeEnforcer, blocked_command, enter, entered, is_blocked, can_exit,
  exit, load_state, new_enforcer, persist_state,
}

abbrev pub IsDangerous : String → Type 0
IsDangerous command =
    (command ≡ "start_lab")
    ⊎ ((command ≡ "start_gaming") ⊎ ((command ≡ "prepare_update") ⊎ (command ≡ "unlock_vault")))

module _ {F B : Type 0} (setting : Setting F B) where
  open setting use {at_or_above, json}

  -- Which commands are blocked: outside safe mode none, and in safe mode exactly the four that
  -- start a lab, start gaming, prepare an update and unlock the vault. So locking the vault is
  -- never blocked.
  pub is_blocked_iff :
      (e : SafeModeEnforcer F B) (command : String)
      → (is_blocked setting e command ≡ true) ↔ ((e.state.active ≡ true) × IsDangerous command)
  unfolding is_blocked blocked_command
  is_blocked_iff e command = ground (
    arith,
    eq_iff command "start_lab",
    eq_iff command "start_gaming",
    eq_iff command "prepare_update",
    eq_iff command "unlock_vault",
  )

  -- Leaving safe mode: the call succeeds exactly when the watchdog is content and the score is below the
  -- threshold. A refused call changes nothing, runs nothing and lists the reasons; a successful one
  -- leaves the enforcer inactive.
  pub exit_lem :
      (fails : FileStep → Bool) (now : ℕ) (operator : String) (score : F) (watchdog_ok : Bool)
      (e : SafeModeEnforcer F B)
      → let (e', effects, issues) = exit setting fails now operator score watchdog_ok e in
        let may = watchdog_ok && not (at_or_above score e.state.exit_score_threshold) in
        (may ≡ true) × (issues ≡ []) × (e'.state.active ≡ false)
        ⊎ (may ≡ false)
          × ((e' ≡ e) × (effects ≡ []) × (issues ≡ can_exit setting e score watchdog_ok true))
  unfolding exit
  exit_lem fails now operator score watchdog_ok e = ground arith

  -- Entering twice is entering once: the second call changes nothing, the reason included, and has
  -- no effects.
  pub enter-enter :
      (fails fails' : FileStep → Bool) (now now' : ℕ) (reason reason' : String)
      (e : SafeModeEnforcer F B)
      → let e' = (enter setting fails now reason e).0 in
        (e'.state.active ≡ true) × (enter setting fails' now' reason' e' ≡ (e', []))
  unfolding enter
  enter-enter fails fails' now now' reason reason' e = ground arith

  load_written :
      (failed : Bool) (s : SafeModeState F) (b : B)
      → json.unmarshal b ≡ some s
      → s.active ≡ true
      → (load_state setting (some (if failed then partial else whole b))).active ≡ not failed
  unfolding load_state
  load_written true s b d a = refl
  load_written false s b d a = rw (d, load_state) (rw a)

  persist_state_live :
      (fails : FileStep → Bool) (s : SafeModeState F) (d : Disk B) (b : B)
      → json.marshal_indent s ≡ some b
      → fails create_temp ≡ false
      → fails rename_temp ≡ false
      → (persist_state setting fails s d).live
        ≡ some (if fails write_temp then partial else whole b)
  unfolding persist_state
  persist_state_live fails s d b m c r =
      rw (m, persist_state)
        (elim (write_unchecked_lem fails b d) [
          | inl (h, _) ↦ ground (arith, h, c, r)
          | inr (_, l) ↦ l
        ])

  enter_disk :
      (fails : FileStep → Bool) (now : ℕ) (reason : String) (e : SafeModeEnforcer F B)
      → e.state.active ≡ false
      → (enter setting fails now reason e).0.disk
        ≡ persist_state setting fails (entered setting now reason) e.disk
  unfolding enter
  enter_disk fails now reason e off = rw (off, enter)

  -- A restart after safe mode was entered, where the encoding reads back and the temporary file could
  -- be created and renamed: the new process is in safe mode exactly when the data could be written. After a failed write the file is cut short, since the error of the write is
  -- not looked at, and safe mode is forgotten.
  pub enter-new_enforcer :
      (fails : FileStep → Bool) (now : ℕ) (reason : String) (dry observed : Bool)
      (e : SafeModeEnforcer F B) (b : B)
      → e.state.active ≡ false
      → json.marshal_indent (entered setting now reason) ≡ some b
      → json.unmarshal b ≡ some (entered setting now reason)
      → fails create_temp ≡ false
      → fails rename_temp ≡ false
      → (new_enforcer setting dry observed (enter setting fails now reason e).0.disk).state.active
        ≡ not (fails write_temp)
  unfolding new_enforcer
  enter-new_enforcer fails now reason dry observed e b off m d c r =
      ap (λ l. (load_state setting l).active)
        (ap (λ (k : Disk B). k.live) (enter_disk fails now reason e off)
          ∙ persist_state_live fails (entered setting now reason) e.disk b m c r)
      ∙ load_written (fails write_temp) (entered setting now reason) b d refl
