-- ===== src/SafeMode.antt =====
-- core/runtime/safemode.go: the safe-mode enforcer.
-- A risk score is a float64: its type `F` and the test `>=` on it are arguments. Times are
-- nanoseconds since Go's zero time. The two locks that `Exit` takes one after the other are one
-- step here. Log lines are left out; what a method does outside the process is its list of effects.
pub mod Laws
pub mod History
pub mod Tests
use text.Mathlib.Text.{◌==◌ as str_eq}
use hisnos_secure_workstatio.Common.{
  ℕ, Bool, true, false, not, ◌&&◌, ◌||◌, Option, none, some, List, [], ◌∷◌, ◌++◌, String,
  if◌then◌else◌,
}
use hisnos_secure_workstatio.AtomicFile.{
  Json, Content, partial, whole, Disk, FileStep, write_unchecked, content_or_empty,
}

pub record SafeModeState (F : Type 0) : Type 0 where
  pub active : Bool
  pub entered_at : ℕ
  pub reason : String
  pub acknowledged_at : ℕ
  pub acknowledged_by : String
  pub exit_score_threshold : F

-- An event given to the observer, or a command that is run.
pub data Effect : Type 0 where
  emits : String → Effect
  runs : String → List String → Effect

pub record SafeModeEnforcer (F B : Type 0) : Type 0 where
  pub state : SafeModeState F
  pub dry_run : Bool
  pub observed : Bool
  pub disk : Disk B

-- The keys of `SafeModeBlockedCommands`, whose values are all true.
unfoldable pub blocked_command : String → Bool
blocked_command c =
    str_eq c "start_lab"
    || (str_eq c "start_gaming" || (str_eq c "prepare_update" || str_eq c "unlock_vault"))

-- `run` and `runBestEffort`: nothing is run in a dry run, and a failure is only logged.
abbrev pub run_command : Bool → String → List String → List Effect
run_command true name args = []
run_command false name args = runs name args ∷ []

unfoldable pub apply_actions : Bool → List Effect
apply_actions dry =
    run_command dry "nft" ("-f" ∷ "/etc/nftables/hisnos-strict.nft" ∷ [])
    ++ (run_command dry "systemctl" ("--user" ∷ "stop" ∷ "hisnos-hispowerd.service" ∷ [])
        ++ (run_command dry "auditctl" ("-f" ∷ "2" ∷ [])
            ++ run_command dry "notify-send" (
                "--urgency=critical" ∷ "--icon=security-low" ∷ "HisnOS Safe Mode"
                ∷ "System has entered SAFE MODE. Check governance dashboard." ∷ [])))

unfoldable pub restore_actions : Bool → List Effect
restore_actions dry =
    run_command dry "systemctl" ("reload-or-restart" ∷ "nftables" ∷ [])
    ++ (run_command dry "auditctl" ("-f" ∷ "1" ∷ [])
        ++ run_command dry "notify-send" (
            "--urgency=normal" ∷ "--icon=security-high" ∷ "HisnOS Safe Mode Exited"
            ∷ "System has returned to normal operation." ∷ []))

-- The reasons that `CanExit` lists; no reason is its nil error.
pub data Issue : Type 0 where
  unhealthy score_too_high not_acknowledged : Issue

abbrev notify : Bool → String → List Effect
notify observed event = if observed then emits event ∷ [] else []

-- What the code takes from outside: `>=` on float64, DefaultExitThreshold (40.0) and encoding/json.
pub record Setting (F B : Type 0) : Type 0 where
  pub at_or_above : F → F → Bool
  pub default_threshold : F
  pub json : Json (SafeModeState F) B

module _ {F B : Type 0} (setting : Setting F B) where
  open setting use {at_or_above, default_threshold, json}

  abbrev initial_state : SafeModeState F
  initial_state = record {
    active = false;
    entered_at = 0;
    reason = "";
    acknowledged_at = 0;
    acknowledged_by = "";
    exit_score_threshold = default_threshold;
  }

  abbrev keep_if_active : Option (SafeModeState F) → SafeModeState F
  keep_if_active none = initial_state
  keep_if_active (some s) = if s.active then s else initial_state

  -- A state file that is missing, cut short or no JSON is ignored, and so is an inactive state.
  unfoldable pub load_state : Option (Content B) → SafeModeState F
  load_state none = initial_state
  load_state (some partial) = initial_state
  load_state (some (whole b)) = keep_if_active (json.unmarshal b)

  unfoldable pub new_enforcer : Bool → Bool → Disk B → SafeModeEnforcer F B
  unfolding load_state
  new_enforcer dry observed d = record {
    state = load_state d.live;
    dry_run = dry;
    observed = observed;
    disk = d;
  }

  unfoldable pub persist_state : (FileStep → Bool) → SafeModeState F → Disk B → Disk B
  persist_state fails s d = write_unchecked fails (content_or_empty (json.marshal_indent s)) d

  abbrev pub entered : ℕ → String → SafeModeState F
  entered now reason = record {
    active = true;
    entered_at = now;
    reason = reason;
    acknowledged_at = 0;
    acknowledged_by = "";
    exit_score_threshold = default_threshold;
  }

  unfoldable pub enter :
      (FileStep → Bool) → ℕ → String → SafeModeEnforcer F B → SafeModeEnforcer F B × List Effect
  unfolding persist_state apply_actions
  enter fails now reason e =
      if e.state.active
      then (e, [])
      else let s = entered now reason in
        (
          record e { state = s; disk = persist_state fails s e.disk },
          notify e.observed "safe_mode_entered" ++ apply_actions e.dry_run,
        )

  unfoldable pub is_blocked : SafeModeEnforcer F B → String → Bool
  is_blocked e command = if e.state.active then blocked_command command else false

  unfoldable pub can_exit : SafeModeEnforcer F B → F → Bool → Bool → List Issue
  can_exit e score watchdog_ok operator_ack =
      (if watchdog_ok then [] else unhealthy ∷ [])
      ++ ((if at_or_above score e.state.exit_score_threshold then score_too_high ∷ [] else [])
          ++ (if operator_ack then [] else not_acknowledged ∷ []))

  abbrev exited : ℕ → String → SafeModeState F → SafeModeState F
  exited now operator s = record s {
    active = false;
    acknowledged_at = now;
    acknowledged_by = operator;
  }

  -- Behind the check of `CanExit`.
  unfoldable pub leave :
      (FileStep → Bool) → ℕ → String → SafeModeEnforcer F B → SafeModeEnforcer F B × List Effect
  unfolding persist_state restore_actions
  leave fails now operator e =
      if e.state.active
      then (let s = exited now operator e.state in
          (
            record e { state = s; disk = persist_state fails s e.disk },
            notify e.observed "safe_mode_exited" ++ restore_actions e.dry_run,
          ))
      else (e, [])

  -- The third part is the error: the reasons that stand against leaving.
  unfoldable pub exit :
      (FileStep → Bool)
      → ℕ
      → String
      → F
      → Bool
      → SafeModeEnforcer F B
      → SafeModeEnforcer F B × List Effect × List Issue
  unfolding can_exit leave
  exit fails now operator score watchdog_ok e = elim (can_exit e score watchdog_ok true) [
    | [] ↦ let (e', effects) = leave fails now operator e in (e', effects, [])
    | i ∷ is ↦ (e, [], i ∷ is)
  ]
