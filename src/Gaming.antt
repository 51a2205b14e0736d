-- ===== src/Gaming.antt =====
-- gaming/hispowerd: cpu.max of the services and smp_affinity of the interrupts during a gaming session,
-- and the parts that change these files and put them back, here throttle/throttle.go. The scaling
-- governor and the scheduler settings that tuning.go writes are not modelled.
-- A file is known by what names it in its path; its value is its content without the white space
-- around it, as it is read. Log lines are left out, and an error is a `false`. The parsing of
-- /proc/interrupts is left out: `irqs` are the numbers it finds, or `none` if it cannot be read.
pub mod Irq
pub mod Session
pub mod Restoring
pub mod Throttling
pub mod Sessions
pub mod Isolation
mod Tests
use text.Mathlib.Text.{◌==◌ as str_eq}
use hisnos_secure_workstatio.Common.{
  ℕ, Bool, true, false, not, ◌&&◌, ◌||◌, Option, none, some, List, [], ◌∷◌, ◌++◌, String, ◌==◌,
  if◌then◌else◌,
}

-- `cpu.max` of a service in app.slice, or directly under the user's service; `smp_affinity`.
pub data Knob : Type 0 where
  app_slice user_service : String → Knob
  irq : ℕ → Knob

abbrev pub same : Knob → Knob → Bool
same (app_slice s) (app_slice t) = str_eq s t
same (user_service s) (user_service t) = str_eq s t
same (irq n) (irq k) = n == k
same _ _ = false

abbrev pub Knobs : Type 0
Knobs = Knob → Option String

abbrev pub put : Knob → String → Knobs → Knobs
put k v m = λ j. if same j k then some v else m j

pub record Config : Type 0 where
  pub throttle_daemons : List String
  pub vault_idle_timer : String
  pub gaming_hex : String

pub record Env : Type 0 where
  pub read_fails : Knob → Bool
  pub write_fails : Knob → Bool
  pub denied : Knob → Bool
  pub systemctl_works : Bool
  pub irqs : Option (List ℕ)
  pub nft_file_exists : Bool
  pub nft_loads : Bool
  pub nft_deletes : Bool
  pub isolates : Bool
  pub unisolates : Bool
  pub tunes : Bool
  pub mode_sets : Bool
  pub state_writes : Bool

-- `timer` says whether the vault's idle timer runs, `fast_table` whether nft has the table.
pub record Machine : Type 0 where
  pub knobs : Knobs
  pub timer : Bool
  pub fast_table : Bool

-- `savedCgroup` and `savedIRQ`.
pub record Saved : Type 0 where
  pub knob : Knob
  pub previous : String

unfoldable pub read_knob : Env → Knob → Knobs → Option String
read_knob env k m = if env.read_fails k then none else m k

-- Nothing is created where there is no file.
abbrev pub write_over : Option String → Knob → String → Knobs → Knobs × Bool
write_over none k v m = (m, false)
write_over (some old) k v m = (put k v m, true)

unfoldable pub write_knob : Env → Knob → String → Knobs → Knobs × Bool
write_knob env k v m = if env.write_fails k then (m, false) else write_over (m k) k v m

-- Reads a file, writes it and remembers what was read.
abbrev pub keep : Saved → List Saved → Knobs × Bool → List Saved × Knobs × Bool
keep s saved (m, true) = (saved ++ s ∷ [], m, true)
keep s saved (m, false) = (saved, m, false)

abbrev pub overwrite :
    Env → Knob → String → Option String → List Saved → Knobs → List Saved × Knobs × Bool
overwrite env k v none saved m = (saved, m, false)
overwrite env k v (some prev) saved m =
    keep (record { knob = k; previous = prev }) saved (write_knob env k v m)

unfoldable pub save_and_write : Env → Knob → String → List Saved → Knobs → List Saved × Knobs × Bool
unfolding read_knob write_knob
save_and_write env k v saved m = overwrite env k v (read_knob env k m) saved m

-- Writes back all that is remembered; the answer is whether every write went well.
unfoldable pub restore_each : Env → List Saved → Knobs → Knobs × Bool
unfolding write_knob
restore_each env [] m = (m, true)
restore_each env (s ∷ ss) m =
    let (m1, fine) = write_knob env s.knob s.previous m in
    let (m2, rest) = restore_each env ss m1 in (m2, fine && rest)

-- throttle/throttle.go

pub record Throttler : Type 0 where
  pub saved : List Saved
  pub timer_stopped : Bool

abbrev pub throttled_value : String
throttled_value = "100000 1000000"

abbrev pub is_some : Option String → Bool
is_some none = false
is_some (some v) = true

unfoldable pub find_service_cgroup : String → Knobs → Option Knob
find_service_cgroup svc m =
    if is_some (m (app_slice svc))
    then some (app_slice svc)
    else if is_some (m (user_service svc))
    then some (user_service svc)
    else none

-- A service that does not run is skipped without an error.
abbrev pub throttle_knob : Env → Option Knob → List Saved → Knobs → List Saved × Knobs × Bool
throttle_knob env none saved m = (saved, m, true)
throttle_knob env (some k) saved m = save_and_write env k throttled_value saved m

unfoldable pub throttle_service : Env → String → List Saved → Knobs → List Saved × Knobs × Bool
unfolding find_service_cgroup save_and_write
throttle_service env svc saved m = throttle_knob env (find_service_cgroup svc m) saved m

unfoldable pub throttle_each : Env → List String → List Saved → Knobs → List Saved × Knobs × Bool
unfolding throttle_service
throttle_each env [] saved m = (saved, m, true)
throttle_each env (svc ∷ rest) saved m =
    let (saved1, m1, fine) = throttle_service env svc saved m in
    let (saved2, m2, others) = throttle_each env rest saved1 m1 in (saved2, m2, fine && others)

-- Without a timer in the configuration nothing is called and there is no error.
abbrev pub switch_timer : Config → Env → Bool → Machine → Machine × Bool
switch_timer cfg env on m =
    if str_eq cfg.vault_idle_timer ""
    then (m, true)
    else if env.systemctl_works
    then (record m { timer = on }, true)
    else (m, false)

-- The error of the timer is not fatal.
unfoldable pub throttle_apply : Config → Env → Machine → Throttler × Machine × Bool
unfolding throttle_each
throttle_apply cfg env m =
    let (saved, knobs, fine) = throttle_each env cfg.throttle_daemons [] m.knobs in
    let (m', stopped) = switch_timer cfg env false (record m { knobs = knobs }) in
    (record { saved = saved; timer_stopped = stopped }, m', fine)

unfoldable pub throttle_restore : Config → Env → Throttler → Machine → Throttler × Machine × Bool
unfolding restore_each
throttle_restore cfg env t m =
    let (knobs, fine) = restore_each env t.saved m.knobs in
    let m1 = record m { knobs = knobs } in
    let (m2, started) = switch_timer cfg env true m1 in
    if t.timer_stopped
    then (record { saved = []; timer_stopped = not started }, m2, fine && started)
    else (record { saved = []; timer_stopped = false }, m1, fine)
