-- ===== src/Watchdog.antt =====
-- core/runtime/watchdog.go: the heartbeat supervisor.
-- Times and durations are nanoseconds, times since Go's zero time. The clock is an argument of each
-- call. A goroutine that a tick starts (a restart after its backoff, a callback, the alert file) is
-- an effect. The map of entries is a list; the order in which Go visits it is any order.
pub mod Ticks
pub mod Storms
pub mod Trips
mod Tests
use text.Mathlib.Text.{◌==◌ as str_eq}
use hisnos_secure_workstatio.Common.{
  ℕ, suc, ◌+◌, ◌-◌, ◌*◌, Bool, true, false, not, ◌&&◌, List, [], ◌∷◌, ◌++◌, String, ltb, leb, ◌==◌,
  if◌then◌else◌, count_if, length, map,
}

abbrev pub second : ℕ
second = 1_000_000_000

abbrev pub circuit_window : ℕ
circuit_window = 60 * second

abbrev pub circuit_thresh : ℕ
circuit_thresh = 3

abbrev pub circuit_cooldown : ℕ
circuit_cooldown = 300 * second

abbrev pub heartbeat_period : ℕ
heartbeat_period = 5 * second

-- `has_restart` and `has_on_fail` say that the function is not nil.
pub record SubsystemSpec : Type 0 where
  pub name : String
  pub sla : ℕ
  pub critical : Bool
  pub has_restart : Bool
  pub has_on_fail : Bool

-- `pending` counts the heartbeats in the subsystem's channel.
pub record WdEntry : Type 0 where
  pub spec : SubsystemSpec
  pub pending : ℕ
  pub last_beat : ℕ
  pub missed_beats : ℕ
  pub restart_times : List ℕ
  pub circuit_open : Bool
  pub circuit_open_at : ℕ
  pub restart_backoff : ℕ

pub data Effect : Type 0 where
  restarts : String → ℕ → Effect
  calls_on_fail : String → Effect
  safe_mode_candidate : String → Effect
  operator_alert : String → ℕ → Effect

-- The channel holds four signals; more are dropped.
unfoldable pub beat : WdEntry → WdEntry
beat e = if ltb e.pending 4 then record e { pending = e.pending + 1 } else e

unfoldable pub new_entry : ℕ → SubsystemSpec → WdEntry
new_entry now spec = record {
  spec = spec;
  pending = 0;
  last_beat = now;
  missed_beats = 0;
  restart_times = [];
  circuit_open = false;
  circuit_open_at = 0;
  restart_backoff = 5 * second;
}

-- `wd.entries[spec.Name] = …`.
unfoldable pub register : ℕ → SubsystemSpec → List WdEntry → List WdEntry
unfolding new_entry
register now spec [] = new_entry now spec ∷ []
register now spec (e ∷ es) =
    if str_eq e.spec.name spec.name then new_entry now spec ∷ es else e ∷ register now spec es

-- `t.After(now.Add(-window))`.
abbrev pub is_recent : ℕ → ℕ → ℕ → Bool
is_recent now window t = ltb now (t + window)

unfoldable pub count_recent : List ℕ → ℕ → ℕ → ℕ
count_recent times now window = count_if (is_recent now window) times

unfoldable pub drain : ℕ → WdEntry → WdEntry
drain now e = if ltb 0 e.pending then record e { pending = 0; last_beat = now } else e

-- `circuitOpen && now.Sub(circuitOpenAt) >= circuitCooldown`.
unfoldable pub cool_down : ℕ → WdEntry → WdEntry
cool_down now e =
    if e.circuit_open && leb circuit_cooldown (now - e.circuit_open_at)
    then record e { circuit_open = false; restart_times = []; missed_beats = 0 }
    else e

unfoldable pub recover : WdEntry → WdEntry
recover e =
    if ltb 0 e.missed_beats then record e { missed_beats = 0; restart_backoff = 5 * second } else e

abbrev pub when : Bool → Effect → List Effect
when c x = if c then x ∷ [] else []

-- Levels 3 to 5.
unfoldable pub open_circuit : Bool → ℕ → ℕ → WdEntry → WdEntry × List Effect
open_circuit has_callback now recent e = (
  record e { circuit_open = true; circuit_open_at = now },
  when e.spec.has_on_fail (calls_on_fail e.spec.name)
      ++ (when (e.spec.critical && has_callback) (safe_mode_candidate e.spec.name)
          ++ operator_alert e.spec.name recent ∷ []),
)

abbrev pub cap_backoff : ℕ → ℕ
cap_backoff b = if ltb (60 * second) b then 60 * second else b

-- Level 2: the restart is started after the backoff, which is then doubled.
unfoldable pub schedule_restart : ℕ → WdEntry → WdEntry × List Effect
schedule_restart now e = (
  record e {
    restart_times = e.restart_times ++ now ∷ [];
    restart_backoff = cap_backoff (e.restart_backoff * 2);
  },
  restarts e.spec.name e.restart_backoff ∷ [],
)

-- The switch behind `e.missedBeats++`.
unfoldable pub escalate : Bool → ℕ → WdEntry → WdEntry × List Effect
unfolding open_circuit schedule_restart count_recent
escalate has_callback now e =
    if e.missed_beats == 1
    then (e, [])
    else if leb 2 e.missed_beats && (not e.circuit_open && e.spec.has_restart)
    then (let recent = count_recent e.restart_times now circuit_window in
        if leb circuit_thresh recent
        then open_circuit has_callback now recent e
        else schedule_restart now e)
    else (e, [])

-- The body of the loop, behind the two steps at its start.
unfoldable pub check_age : Bool → ℕ → WdEntry → WdEntry × List Effect
unfolding recover escalate
check_age has_callback now e =
    if leb (now - e.last_beat) e.spec.sla
    then (recover e, [])
    else escalate has_callback now (record e { missed_beats = e.missed_beats + 1 })

unfoldable pub tick_entry : Bool → ℕ → WdEntry → WdEntry × List Effect
unfolding drain cool_down check_age
tick_entry has_callback now e = check_age has_callback now (cool_down now (drain now e))

unfoldable pub tick : Bool → ℕ → List WdEntry → List WdEntry × List Effect
unfolding tick_entry
tick has_callback now [] = ([], [])
tick has_callback now (e ∷ es) =
    let (e', x) = tick_entry has_callback now e in
    let (es', xs) = tick has_callback now es in (e' ∷ es', x ++ xs)

pub record SubsystemStatus : Type 0 where
  pub name : String
  pub alive : Bool
  pub last_heartbeat : ℕ
  pub restarts : ℕ
  pub circuit_open : Bool

pub status : ℕ → List WdEntry → List SubsystemStatus
status now = map λ (e : WdEntry). record {
  name = e.spec.name;
  alive = leb (now - e.last_beat) e.spec.sla;
  last_heartbeat = e.last_beat;
  restarts = length e.restart_times;
  circuit_open = e.circuit_open;
}
