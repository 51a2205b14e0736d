-- ===== src/Thermal.antt =====
-- core/performance/thermal_controller.go: the tier of the temperature, and the CPU quota of the daemon
-- that follows it. Temperatures are thousandths of a degree. The search for sensors is left out, and so
-- are log lines; the comparison of two frequencies as floating-point numbers is a part of `Readings`.
pub mod Ticks
mod Tests
use hisnos_secure_workstatio.Common.{
  ℕ, ◌+◌, ℤ, pos, negsuc, Bool, true, false, not, ◌||◌, Option, none, some, List, [], ◌∷◌, ◌++◌,
  String, ltb, leb, ◌==◌, is_int, if◌then◌else◌,
}

pub data ThermalTier : Type 0 where
  tier_nominal tier_warm tier_throttle tier_critical : ThermalTier

abbrev pub tier_eq : ThermalTier → ThermalTier → Bool
tier_eq tier_nominal tier_nominal = true
tier_eq tier_warm tier_warm = true
tier_eq tier_throttle tier_throttle = true
tier_eq tier_critical tier_critical = true
tier_eq _ _ = false

-- What a sensor's files give; `crit` is `none` where there is no such file.
pub record Sensor : Type 0 where
  pub input : Option ℤ
  pub crit : Option (Option ℤ)

pub record Cpu : Type 0 where
  pub cur_freq : Option ℤ
  pub max_freq : Option ℤ

-- What one tick reads, and whether the quota can be written.
pub record Readings : Type 0 where
  pub sensors : List Sensor
  pub cpus : List Cpu
  -- `float64(cur)/float64(max) < throttleFreqRatio`
  pub slow : ℤ → ℤ → Bool
  pub quota_writes : Bool

-- `v > highest`, for a `highest` that is not negative.
abbrev pub raise : ℤ → ℕ → ℕ
raise (pos v) highest = if ltb highest v then v else highest
raise (negsuc v) highest = highest

abbrev pub raise_read : Option ℤ → ℕ → ℕ
raise_read none highest = highest
raise_read (some v) highest = raise v highest

abbrev pub raise_crit : Option (Option ℤ) → ℕ → ℕ
raise_crit none highest = highest
raise_crit (some c) highest = raise_read c highest

-- The loop; a sensor that cannot be read is passed over with its critical temperature.
unfoldable pub hottest : List Sensor → ℕ × ℕ → ℕ × ℕ
hottest [] t = t
hottest (s ∷ rest) (max_temp, crit_temp) =
    let skipped = hottest rest (max_temp, crit_temp) in
    let taken = hottest rest (raise_read s.input max_temp, raise_crit s.crit crit_temp) in
    elim s.input [ none ↦ skipped | some v ↦ taken ]

unfoldable pub max_temperature : List Sensor → ℕ × ℕ
unfolding hottest
max_temperature sensors =
    let (max_temp, crit_temp) = hottest sensors (0, 0) in
    (max_temp, if crit_temp == 0 then 100000 else crit_temp)

abbrev pub throttles : Readings → Option ℤ → Option ℤ → Bool
throttles r (some cur) (some max) = if is_int max 0 then false else r.slow cur max
throttles r _ _ = false

unfoldable pub is_throttling : Readings → List Cpu → Bool
is_throttling r [] = false
is_throttling r (c ∷ rest) = throttles r c.cur_freq c.max_freq || is_throttling r rest

-- Subtractions are written as additions on the other side.
unfoldable pub classify_tier : ℕ → ℕ → Bool → ThermalTier
classify_tier max_temp crit_temp throttling =
    if throttling || leb crit_temp (max_temp + 5000)
    then tier_critical
    else if leb crit_temp (max_temp + 15000)
    then tier_throttle
    else if ltb 75000 max_temp
    then tier_warm
    else tier_nominal

-- The events are emitted with the temperature, which the source divides by 1000.
pub data Event : Type 0 where
  thermal_throttle_detected : ℕ → Bool → Event
  thermal_critical : ℕ → Event

-- `cpu_max` is the file of the daemon's group; `has_callback` says that onDowngrade is not nil, and
-- `downgrades` counts its calls.
pub record ThermalController : Type 0 where
  pub last_tier : ThermalTier
  pub cpu_max : Option String
  pub events : List Event
  pub has_callback : Bool
  pub downgrades : ℕ

abbrev pub quota : ThermalTier → String
quota tier_nominal = "200000 1000000"
quota tier_warm = "100000 1000000"
quota tier_throttle = "50000 1000000"
quota tier_critical = "25000 1000000"

abbrev pub tier_event : ThermalTier → ℕ → Bool → List Event
tier_event tier_throttle max_temp throttling = thermal_throttle_detected max_temp throttling ∷ []
tier_event tier_critical max_temp throttling = thermal_critical max_temp ∷ []
tier_event _ max_temp throttling = []

unfoldable pub apply_tier : Bool → ThermalTier → ℕ → Bool → ThermalController → ThermalController
apply_tier writes tier max_temp throttling tc = record tc {
  cpu_max = if writes then some (quota tier) else tc.cpu_max;
  events = tc.events ++ tier_event tier max_temp throttling;
  downgrades =
      if tc.has_callback
      then tc.downgrades + (if tier_eq tier tier_critical then 1 else 0)
      else tc.downgrades;
}

-- The tier that a tick finds.
abbrev pub tier_of : Readings → ThermalTier
tier_of r =
    let (max_temp, crit_temp) = max_temperature r.sensors in
    classify_tier max_temp crit_temp (is_throttling r r.cpus)

-- Nothing is done as long as the tier stays.
unfoldable pub change_tier : Bool → ThermalTier → ℕ → Bool → ThermalController → ThermalController
unfolding apply_tier
change_tier writes tier max_temp throttling tc =
    if tier_eq tier tc.last_tier
    then tc
    else record (apply_tier writes tier max_temp throttling tc) { last_tier = tier }

unfoldable pub tick : Readings → ThermalController → ThermalController
unfolding change_tier
tick r tc =
    change_tier r.quota_writes (tier_of r) (max_temperature r.sensors).0 (is_throttling r r.cpus) tc
