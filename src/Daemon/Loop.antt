-- ===== src/Daemon/Loop.antt =====
-- core/main.go: the policy loop, turn by turn.
use hisnos_secure_workstatio.Common.{
  ℕ, suc, ◌+◌, ◌≤◌, ◌≡◌, refl, ap, inl, inr, ◌⊎◌, List, [], ◌∷◌, length, arith,
}
use hisnos_secure_workstatio.AtomicFile.{Json}
use hisnos_secure_workstatio.State.{SystemState}
use hisnos_secure_workstatio.EventBus.{Event, Bus, receive}
use hisnos_secure_workstatio.Daemon.{
  World, Daemon, channel, handle_event, turn, turn_on, run_policy_loop,
}
use hisnos_secure_workstatio.Daemon.Effects.{waiting}
use hisnos_secure_workstatio.Daemon.Turns.{decided, handle_event-Reached}
use hisnos_secure_workstatio.Daemon.Debt.{debt, debt-Agree, announced-debt, debt-le}

length-nil : (es : List Event) → length es ≡ 0 → es ≡ []
length-nil [] z = refl
length-nil (e ∷ es) z = absurd (omega arith)

-- Taking an event out of a channel that is not empty.
channel-receive :
    (bus : Bus) (e : Event) (es : List Event) → channel bus ≡ e ∷ es → channel (receive 0 bus) ≡ es
unfolding receive
channel-receive [] e es q = cc
channel-receive (s ∷ ss) e es q = rw q refl

module _ {B : Type 0} (json : Json SystemState B) where
  abbrev potential : Daemon B → ℕ
  potential d = waiting d + debt d.manager.state

  handle_event-potential :
      (w : World) (d : Daemon B) → potential (handle_event json w d) ≤ potential d
  handle_event-potential w d =
      let (a, l) = handle_event-Reached json w d in
      let q = debt-Agree (handle_event json w d).manager.state (decided w d.manager.state) a in
      omega (arith, l, q, announced-debt w d.manager.state)

  -- A turn with an event waiting pays for it; without one nothing happens.
  turn_on-potential :
      (es : List Event) (w : World) (d : Daemon B)
      → channel d.bus ≡ es
      → (waiting (turn_on json es w d) ≡ 0) ⊎ (suc (potential (turn_on json es w d)) ≤ potential d)
  turn_on-potential [] w d q = inl (ap length q)
  turn_on-potential (e ∷ es) w d q =
      let d0 = record d { bus = receive 0 d.bus } in
      let taken = ap length (channel-receive d.bus e es q) in
      let held = ap length q in inr (omega (arith, handle_event-potential w d0, taken, held))

  waiting-turn : (w : World) (d : Daemon B) → waiting d ≡ 0 → waiting (turn json w d) ≡ 0
  unfolding turn
  waiting-turn w d z = empty (channel d.bus) refl z
    where
      empty :
          (es : List Event) → channel d.bus ≡ es → length es ≡ 0 → waiting (turn_on json es w d) ≡ 0
      empty [] q z' = ap length q
      empty (e ∷ es) q z' = absurd (omega arith)

  waiting-run :
      (ws : List World) (d : Daemon B) → waiting d ≡ 0 → waiting (run_policy_loop json ws d) ≡ 0
  unfolding run_policy_loop
  waiting-run [] d z = z
  waiting-run (w ∷ ws) d z = waiting-run ws (turn json w d) (waiting-turn w d z)

  run-potential :
      (ws : List World) (d : Daemon B)
      → potential d ≤ length ws
      → waiting (run_policy_loop json ws d) ≡ 0
  unfolding run_policy_loop turn
  run-potential [] d p = omega arith
  run-potential (w ∷ ws) d p = elim (turn_on-potential (channel d.bus) w d refl) [
    | inl z ↦ waiting-run ws (turn json w d) z
    | inr l ↦ run-potential ws (turn json w d) (omega arith)
  ]

  -- The loop's own events do not keep it running: with three turns more than there are events in the
  -- channel, the channel is empty at the end, whatever the orchestrators answer and whether or not
  -- the state can be written.
  pub run_policy_loop-drains :
      (ws : List World) (d : Daemon B)
      → length (channel d.bus) + 3 ≤ length ws
      → channel (run_policy_loop json ws d).bus ≡ []
  run_policy_loop-drains ws d p =
      length-nil _ (run-potential ws d (omega (arith, debt-le d.manager.state)))
