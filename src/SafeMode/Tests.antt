-- ===== src/SafeMode/Tests.antt =====
-- The safe-mode enforcer at concrete states, with whole numbers for scores.
use hisnos_secure_workstatio.Common.{ℕ, ◌≡◌, refl, true, false, not, none, List, [], ◌∷◌, leb}
use hisnos_secure_workstatio.AtomicFile.{write_temp}
use hisnos_secure_workstatio.AtomicFile.Tests.{plain, no_fault, disk_full}
use hisnos_secure_workstatio.SafeMode.{
  SafeModeState, SafeModeEnforcer, Setting, enter, new_enforcer,
}
use hisnos_secure_workstatio.SafeMode.Laws.{enter-new_enforcer}
use hisnos_secure_workstatio.SafeMode.History.{Call, enters, exits, run, run_stays}

abbrev pub scores : Setting ℕ (SafeModeState ℕ)
scores = record {
  at_or_above = λ a b. leb b a;
  default_threshold = 40;
  json = plain (SafeModeState ℕ);
}

abbrev calm : SafeModeEnforcer ℕ (SafeModeState ℕ)
calm = record {
  state = record {
    active = false;
    entered_at = 0;
    reason = "";
    acknowledged_at = 0;
    acknowledged_by = "";
    exit_score_threshold = 40;
  };
  dry_run = true;
  observed = true;
  disk = record { live = none; temp = none };
}

abbrev pub alarmed : SafeModeEnforcer ℕ (SafeModeState ℕ)
alarmed = record calm {
  state = record {
    active = true;
    entered_at = 3;
    reason = "risk";
    acknowledged_at = 0;
    acknowledged_by = "";
    exit_score_threshold = 40;
  };
}

-- An exit asked for while the score is still high.
abbrev early : List (Call ℕ)
early = exits no_fault 5 "ann" 70 true ∷ enters no_fault 6 "again" ∷ []

enter-new_enforcer_example :
    (new_enforcer scores true true (enter scores disk_full 4 "a" calm).0.disk).state.active
    ≡ not (disk_full write_temp)
enter-new_enforcer_example =
    enter-new_enforcer scores disk_full 4 "a" true true calm _ refl refl refl refl refl

run_stays_example : run scores early alarmed ≡ alarmed
run_stays_example = run_stays scores early alarmed refl (refl, (refl, tt))
