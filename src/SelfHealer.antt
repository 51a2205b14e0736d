-- ===== src/SelfHealer.antt =====
-- core/supervisor/self_healer.go: restarts with a backoff, and the test for correlated failures.
-- Times are nanoseconds since Go's zero time, so that 0 is the time that is not set; one call reads
-- the clock once. The map of services is a list by name, and a pointer to a record of it is its
-- name, since a service is registered once. What a call sends out is a list of effects.
pub mod Attempts
pub mod Correlation
mod Tests
use text.Mathlib.Text.{◌==◌ as str_eq}
use hisnos_secure_workstatio.Common.{
  ℕ, zero, suc, ◌+◌, ◌*◌, ◌%◌, ◌-◌, Bool, true, false, not, ◌&&◌, ◌||◌, Option, none, some, List,
  [], ◌∷◌, ◌++◌, String, if◌then◌else◌, ltb, leb, ◌==◌, count_if, length,
}

abbrev pub second : ℕ
second = 1000000000

abbrev pub max_restart_attempts : ℕ
max_restart_attempts = 6

abbrev pub correlated_failure_threshold : ℕ
correlated_failure_threshold = 3

abbrev pub correlated_failure_window : ℕ
correlated_failure_window = 2 * 60 * second

abbrev pub backoff_cap : ℕ
backoff_cap = 30 * second

abbrev pub backoff_sequence : List ℕ
backoff_sequence = 1 ∷ 2 ∷ 4 ∷ 8 ∷ 16 ∷ 30 ∷ []

-- `attempt >= len(backoffSequence)` is the case of the empty list.
abbrev pub pick : List ℕ → ℕ → ℕ
pick [] n = backoff_cap
pick (s ∷ ss) zero = s * second
pick (s ∷ ss) (suc n) = pick ss n

unfoldable pub backoff_for : ℕ → ℕ
backoff_for attempt = pick backoff_sequence attempt

pub record ServiceRecord : Type 0 where
  pub name : String
  pub has_health_check : Bool
  pub attempts : ℕ
  pub last_fail : ℕ
  pub disabled : Bool

pub record SelfHealer : Type 0 where
  pub services : List ServiceRecord
  pub failure_ring : List ℕ
  pub failure_ring_head : ℕ
  pub has_callback : Bool

-- Events, calls of `onCorrelatedFailure`, and restarts that are started with a delay.
pub data Effect : Type 0 where
  emits : String → Effect
  correlated_failure : List String → Effect
  restarts : String → ℕ → ℕ → Effect

abbrev pub ring_size : ℕ
ring_size = 16

abbrev pub zeros : ℕ → List ℕ
zeros zero = []
zeros (suc n) = 0 ∷ zeros n

abbrev pub new_self_healer : Bool → SelfHealer
new_self_healer has_callback = record {
  services = [];
  failure_ring = zeros ring_size;
  failure_ring_head = 0;
  has_callback = has_callback;
}

abbrev pub new_record : String → Bool → ServiceRecord
new_record name has_health_check = record {
  name = name;
  has_health_check = has_health_check;
  attempts = 0;
  last_fail = 0;
  disabled = false;
}

-- `sh.services[svc.Name] = svc`.
unfoldable pub put : ServiceRecord → List ServiceRecord → List ServiceRecord
put svc [] = svc ∷ []
put svc (s ∷ ss) = if str_eq s.name svc.name then svc ∷ ss else s ∷ put svc ss

unfoldable pub find : String → List ServiceRecord → Option ServiceRecord
find name [] = none
find name (s ∷ ss) = if str_eq s.name name then some s else find name ss

unfoldable pub register : String → Bool → SelfHealer → SelfHealer
register name has_health_check sh = record sh {
  services = put (new_record name has_health_check) sh.services;
}

unfoldable pub set_at : ℕ → ℕ → List ℕ → List ℕ
set_at i t [] = []
set_at zero t (x ∷ xs) = t ∷ xs
set_at (suc i) t (x ∷ xs) = x ∷ set_at i t xs

unfoldable pub record_failure : ℕ → SelfHealer → SelfHealer
record_failure t sh = record sh {
  failure_ring = set_at sh.failure_ring_head t sh.failure_ring;
  failure_ring_head = (sh.failure_ring_head + 1) % ring_size;
}

-- `!t.IsZero() && t.After(time.Now().Add(-correlatedFailureWindow))`.
abbrev pub is_recent : ℕ → ℕ → Bool
is_recent now t = not (t == 0) && ltb now (t + correlated_failure_window)

unfoldable pub recently_failed : ℕ → List ServiceRecord → List String
recently_failed now [] = []
recently_failed now (s ∷ ss) =
    let rest = recently_failed now ss in if is_recent now s.last_fail then s.name ∷ rest else rest

-- `nil` is the empty list.
unfoldable pub detect_correlation : ℕ → SelfHealer → List String
detect_correlation now sh =
    if ltb (count_if (is_recent now) sh.failure_ring) correlated_failure_threshold
    then []
    else recently_failed now sh.services

abbrev pub when : Bool → Effect → List Effect
when c x = if c then x ∷ [] else []

abbrev pub failed : ℕ → ServiceRecord → ServiceRecord
failed now svc = record svc { attempts = svc.attempts + 1; last_fail = now }

-- Behind the test for too many attempts.
abbrev pub restart_or_report : Bool → ServiceRecord → List String → List Effect
restart_or_report has_callback svc (n ∷ ns) =
    if has_callback
    then emits "safe_mode_triggered" ∷ correlated_failure (n ∷ ns) ∷ []
    else restarts svc.name (backoff_for (svc.attempts - 1)) svc.attempts ∷ []
restart_or_report has_callback svc [] =
    restarts svc.name (backoff_for (svc.attempts - 1)) svc.attempts ∷ []

-- `svc` is the record with the new number of attempts, and `sh` holds it and the failure.
unfoldable pub decide : ℕ → ServiceRecord → SelfHealer → SelfHealer × List Effect
unfolding put detect_correlation backoff_for
decide now svc sh =
    if ltb max_restart_attempts svc.attempts
    then (
      record sh { services = put (record svc { disabled = true }) sh.services },
      emits "service_failed"
          ∷ emits "service_permanently_failed"
          ∷ when sh.has_callback (correlated_failure (svc.name ∷ [])),
    )
    else (
      sh,
      emits "service_failed" ∷ restart_or_report sh.has_callback svc (detect_correlation now sh),
    )

unfoldable pub restart_notify : ℕ → String → SelfHealer → SelfHealer × List Effect
unfolding find put record_failure decide
restart_notify now name sh = elim (find name sh.services) [
  | none ↦ (sh, [])
  | some svc ↦
      if svc.disabled
      then (sh, [])
      else decide now (failed now svc)
          (record_failure now (record sh { services = put (failed now svc) sh.services }))
]

abbrev pub cleared : ServiceRecord → ServiceRecord
cleared svc = record svc { attempts = 0; disabled = false }

unfoldable pub reset : String → SelfHealer → SelfHealer
unfolding find put
reset name sh = elim (find name sh.services) [
  | none ↦ sh
  | some svc ↦ record sh { services = put (cleared svc) sh.services }
]

-- The names that `ProbeAll` collects before it runs the checks.
unfoldable pub probed : List ServiceRecord → List String
probed [] = []
probed (s ∷ ss) =
    let rest = probed ss in if s.has_health_check && not s.disabled then s.name ∷ rest else rest

-- The loop behind it: `healthy` is what each check answers.
unfoldable pub notify_each :
    ℕ → (String → Bool) → List String → SelfHealer → SelfHealer × List Effect
unfolding restart_notify
notify_each now healthy [] sh = (sh, [])
notify_each now healthy (n ∷ ns) sh =
    let (sh', x) = (if healthy n then (sh, []) else restart_notify now n sh) in
    let (sh'', xs) = notify_each now healthy ns sh' in (sh'', x ++ xs)

unfoldable pub probe_all : ℕ → (String → Bool) → SelfHealer → SelfHealer × List Effect
unfolding notify_each probed
probe_all now healthy sh = notify_each now healthy (probed sh.services) sh

-- `restartAfterDelay`, once the delay has passed: a service disabled meanwhile is left alone, and a
-- restart that goes well resets it.
unfoldable pub restart_after_delay : String → Bool → SelfHealer → SelfHealer × List Effect
unfolding find reset
restart_after_delay name ok sh = elim (find name sh.services) [
  | none ↦ (sh, [])
  | some svc ↦
      if svc.disabled
      then (sh, [])
      else if ok
      then (reset name sh, emits "service_restarted" ∷ [])
      else (sh, emits "service_restarted" ∷ [])
]
