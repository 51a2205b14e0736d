-- ===== src/Daemon.antt =====
-- core/main.go: `runPolicyLoop` and `dispatchLegacyAction`, on the state manager and the event bus.
-- The loop's channel is the first subscriber of the bus, `bus.Subscribe("")` of `main`. What the
-- orchestrators answer is part of `World`; a log line is left out. The score of the risk is far from
-- the limits of an int.
pub mod Effects
pub mod Turns
pub mod Debt
pub mod Loop
pub mod Decisions
mod Tests
use hisnos_secure_workstatio.Common.{
  ℕ, ℤ, pos, negsuc, ◌+◌, ◌-◌, Bool, false, Option, none, some, List, [], ◌∷◌, String, length, ltb,
  at_least, if◌then◌else◌,
}
use hisnos_secure_workstatio.AtomicFile.{Json, FileStep}
use hisnos_secure_workstatio.State.{SystemState, normal, safe_mode}
use hisnos_secure_workstatio.State.Manager.{Manager, update}
use hisnos_secure_workstatio.Policy.{
  Action, force_vault_lock, firewall_strict_profile, firewall_restore, enter_safe_mode,
  exit_safe_mode, increase_risk_score, evaluate,
}
use hisnos_secure_workstatio.EventBus.{Event, Bus, emit, receive}

unfoldable pub risk_level : ℤ → String
risk_level score =
    if at_least score 80
    then "critical"
    else if at_least score 60
    then "high"
    else if at_least score 40
    then "medium"
    else if at_least score 20
    then "low"
    else "minimal"

-- `score + delta` for a delta that is not negative.
unfoldable pub plus : ℤ → ℕ → ℤ
plus (pos n) k = pos (n + k)
plus (negsuc n) k = if ltb n k then pos (k - 1 - n) else negsuc (n - k)

-- What the actions give to `Update`.
abbrev pub vault_unmounted : SystemState → SystemState
vault_unmounted s = record s { vault = record (s.vault) { mounted = false } }

abbrev pub entering : SystemState → SystemState
entering s = record s { mode = safe_mode }

abbrev pub exiting : SystemState → SystemState
exiting s = record s { mode = normal }

-- The delta is 10: the rule's payload holds an int, so that the cast to float64 fails.
unfoldable pub raised_score : ℤ → ℤ
unfolding plus
raised_score score = if at_least (plus score 10) 101 then pos 100 else plus score 10

unfoldable pub risk_raised : SystemState → SystemState
unfolding raised_score risk_level
risk_raised s =
    let score = raised_score s.risk.score in
    record s { risk = record (s.risk) { score = score; level = risk_level score } }

pub record World : Type 0 where
  pub now : ℕ
  pub fails : FileStep → Bool
  pub vault_executes : Bool
  pub firewall_executes : Bool

pub data Orchestrator : Type 0 where
  vault firewall : Orchestrator

pub record Daemon (B : Type 0) : Type 0 where
  pub manager : Manager B
  pub bus : Bus

abbrev pub channel : Bus → List Event
channel [] = []
channel (s ∷ ss) = s.buffer

module _ {B : Type 0} (json : Json SystemState B) where
  -- `_ = mgr.Update(…)`.
  unfoldable pub change : World → (SystemState → SystemState) → Daemon B → Daemon B
  change w f d = record d { manager = (update json w.fails w.now f d.manager).0 }

  unfoldable pub announce : World → String → String → Daemon B → Daemon B
  announce w event payload d = record d { bus = emit w.now event payload d.bus }

  -- `return fw.Execute(action)`.
  abbrev pub on_firewall : World → Daemon B → Daemon B × Option Orchestrator
  on_firewall w d = (d, if w.firewall_executes then none else some firewall)

  -- The second part is the error: the orchestrator that failed.
  unfoldable pub dispatch_legacy_action : World → Action → Daemon B → Daemon B × Option Orchestrator
  unfolding change announce risk_raised
  dispatch_legacy_action w a d = elim a.type [
    | force_vault_lock ↦
        if w.vault_executes
        then (announce w "VaultLocked" "policy" (change w vault_unmounted d), none)
        else (d, some vault)
    | firewall_strict_profile ↦ on_firewall w d
    | firewall_restore ↦ on_firewall w d
    | enter_safe_mode ↦ (announce w "SafeModeEntered" a.reason (change w entering d), none)
    | exit_safe_mode ↦ (announce w "SafeModeExited" a.reason (change w exiting d), none)
    | increase_risk_score ↦ (change w risk_raised d, none)
    | _ ↦ (d, none)
  ]

  -- An error is only logged, and the next action follows.
  unfoldable pub dispatch_actions : World → List Action → Daemon B → Daemon B
  unfolding dispatch_legacy_action
  dispatch_actions w [] d = d
  dispatch_actions w (a ∷ rest) d = dispatch_actions w rest (dispatch_legacy_action w a d).0

  -- What is done for an event, which is not looked at: the actions are those of the state at the
  -- beginning.
  unfoldable pub handle_event : World → Daemon B → Daemon B
  unfolding dispatch_actions
  handle_event w d = dispatch_actions w (evaluate d.manager.state) d

  abbrev pub turn_on : List Event → World → Daemon B → Daemon B
  turn_on [] w d = d
  turn_on (e ∷ es) w d = handle_event w (record d { bus = receive 0 d.bus })

  -- A turn of the loop; with nothing in the channel it waits.
  unfoldable pub turn : World → Daemon B → Daemon B
  unfolding handle_event
  turn w d = turn_on (channel d.bus) w d

  unfoldable pub run_policy_loop : List World → Daemon B → Daemon B
  unfolding turn
  run_policy_loop [] d = d
  run_policy_loop (w ∷ ws) d = run_policy_loop ws (turn w d)
