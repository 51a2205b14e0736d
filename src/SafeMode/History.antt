-- ===== src/SafeMode/History.antt =====
-- core/runtime/safemode.go: sequences of calls of the enforcer.
use hisnos_secure_workstatio.Common.{
  ℕ, suc, ◌≡◌, refl, inl, inr, Bool, true, false, not, ◌&&◌, List, [], ◌∷◌, String, arith,
}
use hisnos_secure_workstatio.AtomicFile.{FileStep}
use hisnos_secure_workstatio.SafeMode.{SafeModeEnforcer, Setting, Effect, enter, exit, emits, runs}
use hisnos_secure_workstatio.SafeMode.Laws.{exit_lem}

-- One call of a method that changes the enforcer, with the time and what fails on the disk.
pub data Call (F : Type 0) : Type 0 where
  enters : (FileStep → Bool) → ℕ → String → Call F
  exits : (FileStep → Bool) → ℕ → String → F → Bool → Call F

-- How many commands a list of effects runs.
abbrev pub commands : List Effect → ℕ
commands [] = 0
commands (emits x ∷ es) = commands es
commands (runs c args ∷ es) = suc (commands es)

module _ {F B : Type 0} (setting : Setting F B) where
  open setting use {at_or_above}

  abbrev pub step : Call F → SafeModeEnforcer F B → SafeModeEnforcer F B
  step (enters fails now reason) e = (enter setting fails now reason e).0
  step (exits fails now operator score ok) e = (exit setting fails now operator score ok e).0

  pub run : List (Call F) → SafeModeEnforcer F B → SafeModeEnforcer F B
  run [] e = e
  run (c ∷ cs) e = run cs (step c e)

  -- An exit that an operator asks for while the watchdog is content and the score is below `t`.
  abbrev pub releases : F → Call F → Bool
  releases t (enters fails now reason) = false
  releases t (exits fails now operator score ok) = ok && not (at_or_above score t)

  abbrev pub NoRelease : F → List (Call F) → Type 0
  NoRelease t [] = Unit
  NoRelease t (c ∷ cs) = (releases t c ≡ false) × NoRelease t cs

  step_stays :
      (c : Call F) (e : SafeModeEnforcer F B)
      → e.state.active ≡ true
      → releases e.state.exit_score_threshold c ≡ false
      → step c e ≡ e
  unfolding enter
  step_stays (enters fails now reason) e a n = ground arith
  step_stays (exits fails now operator score ok) e a n =
      elim (exit_lem setting fails now operator score ok e) [
        | inl (may, _, _) ↦ ground (arith, may, n)
        | inr (_, (same, _, _)) ↦ same
      ]

  -- Safe mode is only left by an operator, with a content watchdog and a score below the threshold
  -- that was set on entry: calls without such an exit leave the enforcer exactly as it was.
  pub run_stays :
      (cs : List (Call F)) (e : SafeModeEnforcer F B)
      → e.state.active ≡ true
      → NoRelease e.state.exit_score_threshold cs
      → run cs e ≡ e
  unfolding run
  run_stays [] e a n = refl
  run_stays (c ∷ cs) e a n = rw (step_stays c e a n.0) (run_stays cs e a n.1)

  -- A score below the threshold together with a content watchdog lets an operator out of active safe
  -- mode, after any calls that did not.
  pub run-exits :
      (cs : List (Call F)) (e : SafeModeEnforcer F B) (fails : FileStep → Bool) (now : ℕ)
      (operator : String) (score : F)
      → e.state.active ≡ true
      → NoRelease e.state.exit_score_threshold cs
      → at_or_above score e.state.exit_score_threshold ≡ false
      → (step (exits fails now operator score true) (run cs e)).state.active ≡ false
  run-exits cs e fails now operator score a n below =
      rw (run_stays cs e a n) (elim (exit_lem setting fails now operator score true e) [
        | inl (_, _, off) ↦ off
        | inr (may, _) ↦ ground (arith, may, below)
      ])

  abbrev pub effects_of : Call F → SafeModeEnforcer F B → List Effect
  effects_of (enters fails now reason) e = (enter setting fails now reason e).1
  effects_of (exits fails now operator score ok) e = (exit setting fails now operator score ok e).1

  -- In a dry run no command is run, whatever the call.
  pub dry_run-commands :
      (c : Call F) (e : SafeModeEnforcer F B) → e.dry_run ≡ true → commands (effects_of c e) ≡ 0
  unfolding enter exit
  dry_run-commands (enters fails now reason) e d = ground arith
  dry_run-commands (exits fails now operator score ok) e d = ground arith
