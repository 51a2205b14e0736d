-- ===== src/Supervisor.antt =====
-- core/supervisor/supervisor.go: the checks of the services, on the state manager and the event bus,
-- and the restarts of those that crash.
-- What systemctl and /proc/mounts answer is part of `Probe`; `attemptRestart` runs in a goroutine of
-- its own, so that a check only says which restarts it starts. Times and delays are nanoseconds.
-- The lock of an entry makes each of its uses one step. Log lines and `syncRisk` are left out.
pub mod Observing
pub mod Budget
mod Tests
use hisnos_secure_workstatio.Common.{
  ℕ, ◌+◌, ◌-◌, ◌*◌, Bool, true, false, not, ◌&&◌, List, [], ◌∷◌, ◌++◌, String, length, drop,
  count_if, ltb, ◌==◌, if◌then◌else◌,
}
use hisnos_secure_workstatio.AtomicFile.{Json, FileStep}
use hisnos_secure_workstatio.State.{SystemState, SubsystemState}
use hisnos_secure_workstatio.State.Manager.{Manager, update}
use hisnos_secure_workstatio.EventBus.{Bus, emit}

pub data Service : Type 0 where
  nftables logd threatd dashboard : Service

-- `unit`.
abbrev pub unit : Service → String
unit nftables = "nftables.service"
unit logd = "hisnos-logd.service"
unit threatd = "hisnos-threatd.service"
unit dashboard = "hisnos-dashboard.socket"

-- `stateField`, read and written.
abbrev pub was_alive : Service → SubsystemState → Bool
was_alive nftables s = s.nftables_alive
was_alive logd s = s.logd_alive
was_alive threatd s = s.threatd_alive
was_alive dashboard s = s.dashboard_alive

abbrev pub with_alive : Service → Bool → SubsystemState → SubsystemState
with_alive nftables a s = record s { nftables_alive = a }
with_alive logd a s = record s { logd_alive = a }
with_alive threatd a s = record s { threatd_alive = a }
with_alive dashboard a s = record s { dashboard_alive = a }

abbrev pub restartable : Service → Bool
restartable dashboard = false
restartable _ = true

abbrev pub services : List Service
services = nftables ∷ logd ∷ threatd ∷ dashboard ∷ []

pub record Probe : Type 0 where
  pub now : ℕ
  pub fails : FileStep → Bool
  pub is_active : Service → Bool
  pub is_vault_mounted : Bool

pub record Supervised (B : Type 0) : Type 0 where
  pub manager : Manager B
  pub bus : Bus

-- The firewall is kept in step with nftables.
abbrev pub firewall_synced : Service → Bool → SystemState → SystemState
firewall_synced nftables a s = record s { firewall = record (s.firewall) { active = a } }
firewall_synced _ a s = s

abbrev pub observed : Service → Bool → SystemState → SystemState
observed svc a s = firewall_synced svc a (record s { subsystems = with_alive svc a s.subsystems })

abbrev pub mounted_as : Bool → SystemState → SystemState
mounted_as v s = record s { vault = record (s.vault) { mounted = v } }

abbrev pub is_nftables : Service → Bool
is_nftables nftables = true
is_nftables _ = false

abbrev pub differs : Bool → Bool → Bool
differs true b = not b
differs false b = b

module _ {B : Type 0} (json : Json SystemState B) where
  unfoldable pub set : Probe → (SystemState → SystemState) → Supervised B → Supervised B
  set p f d = record d { manager = (update json p.fails p.now f d.manager).0 }

  unfoldable pub tell : Probe → String → String → Supervised B → Supervised B
  tell p event payload d = record d { bus = emit p.now event payload d.bus }

  abbrev pub crashed : Probe → Service → Supervised B → Supervised B
  crashed p svc d =
      let d' = tell p "SubsystemCrashed" (unit svc) d in
      if is_nftables svc then tell p "FirewallDead" "" d' else d'

  -- The body of the loop of `checkAll`, with the restarts it starts.
  unfoldable pub check_service : Probe → Service → Supervised B → Supervised B × List Service
  unfolding set tell
  check_service p svc d =
      let alive = p.is_active svc in
      let was = was_alive svc d.manager.state.subsystems in
      let d' = set p (observed svc alive) d in
      if was && not alive
      then (crashed p svc d', if restartable svc then svc ∷ [] else [])
      else if not was && alive
      then (tell p "SubsystemRestored" (unit svc) d', [])
      else (d', [])

  unfoldable pub check_each : Probe → List Service → Supervised B → Supervised B × List Service
  unfolding check_service
  check_each p [] d = (d, [])
  check_each p (svc ∷ rest) d =
      let (d1, started) = check_service p svc d in
      let (d2, others) = check_each p rest d1 in (d2, started ++ others)

  -- `prev` is the state at the beginning.
  unfoldable pub check_vault : Probe → SystemState → Supervised B → Supervised B
  unfolding set tell
  check_vault p prev d =
      if differs p.is_vault_mounted prev.vault.mounted
      then tell p (if p.is_vault_mounted then "VaultMounted" else "VaultLocked") ""
          (set p (mounted_as p.is_vault_mounted) d)
      else d

  unfoldable pub check_all : Probe → Supervised B → Supervised B × List Service
  unfolding check_each check_vault
  check_all p d =
      let (d', started) = check_each p services d in (check_vault p d.manager.state d', started)

-- The part of `serviceEntry` that the restarts keep.
pub record ServiceEntry : Type 0 where
  pub crash_times : List ℕ
  pub restart_delay : ℕ

abbrev pub second : ℕ
second = 1000000000

abbrev pub max_crashes : ℕ
max_crashes = 3

abbrev pub crash_window : ℕ
crash_window = 300000000000

-- `t.After(now - crashWindow)`.
abbrev pub is_recent : ℕ → ℕ → Bool
is_recent now t = ltb now (t + crash_window)

-- The last ten.
abbrev pub last_ten : List ℕ → List ℕ
last_ten ts = if ltb 10 (length ts) then drop (length ts - 10) ts else ts

unfoldable pub record_crash : ℕ → ServiceEntry → ServiceEntry × ℕ
record_crash now e =
    let times = e.crash_times ++ now ∷ [] in
    (record e { crash_times = last_ten times }, count_if (is_recent now) times)

-- What an attempt does: it escalates, or it restarts the unit after a delay.
pub data Attempt : Type 0 where
  escalates : Attempt
  restarts_after : ℕ → Attempt

abbrev pub delay_of : ServiceEntry → ℕ
delay_of e = if e.restart_delay == 0 then 5 * second else e.restart_delay

unfoldable pub attempt_restart : ℕ → ServiceEntry → ServiceEntry × Attempt
unfolding record_crash
attempt_restart now e =
    let (e', crashes) = record_crash now e in
    if ltb max_crashes crashes then (e', escalates) else (e', restarts_after (delay_of e'))

abbrev pub min : ℕ → ℕ → ℕ
min a b = if ltb a b then a else b

-- After the restart: its outcome, and the delay it waited.
unfoldable pub finish_restart : Bool → ℕ → ServiceEntry → ServiceEntry
finish_restart fine delay e = record e {
  restart_delay = if fine then 5 * second else min (delay * 2) (60 * second);
}
