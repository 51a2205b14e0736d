-- ===== src/Thermal/Tests.antt =====
-- core/performance/thermal_controller.go with one sensor.
use hisnos_secure_workstatio.Common.{ℕ, ◌+◌, ◌≡◌, refl, pos, true, false, none, some, List, [], ◌∷◌}
use hisnos_secure_workstatio.Thermal.{
  tier_nominal, Readings, ThermalController, tier_critical, classify_tier,
}
use hisnos_secure_workstatio.Thermal.Ticks.{run_ticks, last_of, entries, Followed, run_ticks_lem}

abbrev at_temperature : ℕ → Readings
at_temperature t = record {
  sensors = record { input = some (pos t); crit = none } ∷ [];
  cpus = [];
  slow = λ cur max. false;
  quota_writes = true;
}

abbrev started : ThermalController
started = record {
  last_tier = tier_nominal;
  cpu_max = none;
  events = [];
  has_callback = true;
  downgrades = 0;
}

abbrev readings : List Readings
readings = at_temperature 60000 ∷ at_temperature 97000 ∷ at_temperature 50000 ∷ []

run_ticks_lem_example :
    ((run_ticks readings started).last_tier ≡ last_of tier_nominal readings)
    × Followed none tier_nominal
        (run_ticks readings started).cpu_max
        (last_of tier_nominal readings)
    × ((run_ticks readings started).downgrades ≡ 0 + entries tier_nominal readings)
run_ticks_lem_example = run_ticks_lem readings started (refl, (refl, (refl, tt)))

-- A CPU that is slow makes the tier critical at any temperature.
slow_is_critical : (max_temp crit_temp : ℕ) → classify_tier max_temp crit_temp true ≡ tier_critical
unfolding classify_tier
slow_is_critical max_temp crit_temp = refl
