-- ===== src/Watchdog/Tests.antt =====
-- The watchdog at concrete entries.
use hisnos_secure_workstatio.Common.{◌≤◌, ◌*◌, ◌≡◌, refl, true, false, List, [], ◌∷◌, arith}
use hisnos_secure_workstatio.Watchdog.{
  second, SubsystemSpec, WdEntry, new_entry, tick_entry, circuit_window, count_recent,
  safe_mode_candidate, operator_alert,
}
use hisnos_secure_workstatio.Watchdog.Storms.{Event, beats, ticks, run, run-count_recent}
use hisnos_secure_workstatio.Watchdog.Trips.{run_ticks, run_ticks_trip}

abbrev threat_engine : SubsystemSpec
threat_engine = record {
  name = "threat-engine";
  sla = 10 * second;
  critical = true;
  has_restart = true;
  has_on_fail = false;
}

abbrev silent : WdEntry
silent = record {
  spec = threat_engine;
  pending = 0;
  last_beat = 100 * second;
  missed_beats = 0;
  restart_times = [];
  circuit_open = false;
  circuit_open_at = 0;
  restart_backoff = 5 * second;
}

abbrev tripped : WdEntry
tripped = record silent { circuit_open = true; circuit_open_at = 140 * second }

trip_effects :
    (tick_entry true (135 * second) (record silent {
      missed_beats = 4;
      restart_times = 120 * second ∷ 125 * second ∷ 130 * second ∷ [];
    })).1
    ≡ safe_mode_candidate "threat-engine" ∷ operator_alert "threat-engine" 3 ∷ []
unfolding tick_entry
trip_effects = refl

abbrev life : List Event
life = ticks (120 * second) ∷ ticks (125 * second) ∷ beats ∷ ticks (130 * second) ∷ []

run-count_recent_example :
    count_recent
      (run true life [] (new_entry (100 * second) threat_engine)).1
      (140 * second)
      circuit_window
    ≤ 3
run-count_recent_example =
    run-count_recent true life (100 * second) (140 * second) threat_engine (omega arith)

run_ticks_trip_example : (run_ticks true 5 (111 * second) silent).circuit_open ≡ true
run_ticks_trip_example =
    run_ticks_trip true (111 * second) silent
      (record { restartable = refl; no_beat = refl; late = omega arith }) refl
