-- ===== src/Onboarding.antt =====
-- onboarding/backend/state/state.go: the steps of the first-run wizard, and the stored state; the
-- handlers of its pages are `Pages`.
-- Timestamps are texts that the caller's clock gives. The map of steps is a list by name.
pub mod Wizard
pub mod Pages
pub mod Flags
mod Tests
use text.Mathlib.Text.{◌==◌ as str_eq}
use hisnos_secure_workstatio.Common.{
  ℕ, Bool, true, false, not, ◌&&◌, ◌||◌, Option, none, some, List, [], ◌∷◌, ◌++◌, String,
  if◌then◌else◌,
}
use hisnos_secure_workstatio.AtomicFile.{
  Json, Content, partial, whole, Disk, FileStep, create_temp, write_temp, sync_temp, close_temp,
  rename_temp, write_atomic,
}
use hisnos_secure_workstatio.State.Manager.{PersistError, marshal_failed, failed_step}

pub data StepName : Type 0 where
  welcome vault firewall threat gaming verify : StepName
  other : String → StepName

abbrev pub step_eq : StepName → StepName → Bool
step_eq welcome welcome = true
step_eq vault vault = true
step_eq firewall firewall = true
step_eq threat threat = true
step_eq gaming gaming = true
step_eq verify verify = true
step_eq (other a) (other b) = str_eq a b
step_eq _ _ = false

abbrev pub all_steps : List StepName
all_steps = welcome ∷ vault ∷ firewall ∷ threat ∷ gaming ∷ verify ∷ []

pub record StepState : Type 0 where
  pub completed : Bool
  pub skipped_at : String
  pub notes : String

pub record OnboardingState : Type 0 where
  pub started_at : String
  pub completed_at : String
  pub completed : Bool
  pub current_step : StepName
  pub steps : List (StepName × StepState)
  pub firewall_profile : String
  pub threat_notify : Bool
  pub gaming_group_enabled : Bool
  pub vault_initialized : Bool
  pub warnings : List String

-- The loop of `nextStep` over what is left of `AllSteps`.
unfoldable pub step_after : StepName → List StepName → StepName
step_after step [] = verify
step_after step (s ∷ []) = verify
step_after step (s ∷ n ∷ rest) = if step_eq s step then n else step_after step (n ∷ rest)

unfoldable pub next_step : StepName → StepName
unfolding step_after
next_step step = step_after step all_steps

-- `s.Steps[step] = …`.
unfoldable pub put_step :
    StepName → StepState → List (StepName × StepState) → List (StepName × StepState)
put_step step v [] = (step, v) ∷ []
put_step step v ((k, w) ∷ rest) =
    if step_eq k step then (k, v) ∷ rest else (k, w) ∷ put_step step v rest

unfoldable pub lookup_step : StepName → List (StepName × StepState) → Option StepState
lookup_step step [] = none
lookup_step step ((k, w) ∷ rest) = if step_eq k step then some w else lookup_step step rest

abbrev pub done : StepState
done = record { completed = true; skipped_at = ""; notes = "" }

unfoldable pub step_marked : StepName → OnboardingState → OnboardingState
unfolding put_step next_step
step_marked step s = record s { steps = put_step step done s.steps; current_step = next_step step }

unfoldable pub completed_marked : String → OnboardingState → OnboardingState
completed_marked now s = record s { completed = true; completed_at = now; current_step = verify }

-- `line` is the message behind the time in brackets.
unfoldable pub warned : String → OnboardingState → OnboardingState
warned line s = record s { warnings = s.warnings ++ line ∷ [] }

abbrev pub initial_state : String → List String → OnboardingState
initial_state now warnings = record {
  started_at = now;
  completed_at = "";
  completed = false;
  current_step = welcome;
  steps = [];
  firewall_profile = "";
  threat_notify = false;
  gaming_group_enabled = false;
  vault_initialized = false;
  warnings = warnings;
}

abbrev pub corrupt_warning : String
corrupt_warning = "state file corrupt — reset to initial state"

pub record Manager (B : Type 0) : Type 0 where
  pub state : OnboardingState
  pub disk : Disk B

-- The error of the first Close is not looked at.
abbrev pub close_unchecked : (FileStep → Bool) → FileStep → Bool
close_unchecked fails create_temp = fails create_temp
close_unchecked fails write_temp = fails write_temp
close_unchecked fails sync_temp = fails sync_temp
close_unchecked fails close_temp = false
close_unchecked fails rename_temp = fails rename_temp

module _ {B : Type 0} (json : Json OnboardingState B) where
  abbrev pub state_or_reset : String → Option OnboardingState → OnboardingState
  state_or_reset now (some s) = s
  state_or_reset now none = initial_state now (corrupt_warning ∷ [])

  unfoldable pub load : String → Option (Content B) → OnboardingState
  load now none = initial_state now []
  load now (some partial) = initial_state now (corrupt_warning ∷ [])
  load now (some (whole b)) = state_or_reset now (json.unmarshal b)

  unfoldable pub new_manager : String → Disk B → Manager B
  unfolding load
  new_manager now d = record { state = load now d.live; disk = d }

  unfoldable pub persist :
      (FileStep → Bool) → OnboardingState → Disk B → Disk B × Option PersistError
  persist fails s d = elim (json.marshal_indent s) [
    | none ↦ (d, some marshal_failed)
    | some b ↦ let (d', e) = write_atomic (close_unchecked fails) b d in (d', failed_step e)
  ]

  unfoldable pub update :
      (FileStep → Bool)
      → (OnboardingState → OnboardingState)
      → Manager B
      → Manager B × Option PersistError
  unfolding persist
  update fails f m =
      let (d, e) = persist fails (f m.state) m.disk in (record { state = f m.state; disk = d }, e)

  unfoldable pub mark_step_complete :
      (FileStep → Bool) → StepName → Manager B → Manager B × Option PersistError
  unfolding update step_marked
  mark_step_complete fails step m = update fails (step_marked step) m

  unfoldable pub mark_complete :
      (FileStep → Bool) → String → Manager B → Manager B × Option PersistError
  unfolding update completed_marked
  mark_complete fails now m = update fails (completed_marked now) m

  unfoldable pub add_warning :
      (FileStep → Bool) → String → Manager B → Manager B × Option PersistError
  unfolding update warned
  add_warning fails line m = update fails (warned line) m
