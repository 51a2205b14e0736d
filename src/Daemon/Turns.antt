-- ===== src/Daemon/Turns.antt =====
-- core/main.go: one turn of the policy loop, as one decision on the state.
use hisnos_secure_workstatio.Common.{
  ℕ, ◌+◌, ◌≡◌, refl, inl, inr, Bool, not, ◌&&◌, Bool-cases, arith, if◌then◌else◌,
}
use hisnos_secure_workstatio.AtomicFile.{Json}
use hisnos_secure_workstatio.State.{SystemState, is_safe_mode}
use hisnos_secure_workstatio.Policy.{
  Action, rule_p1, rule_p2, rule_p3, rule_p4, rule_p5, rule_p6, rule_p7, rule_p8, critical,
  evaluate, force_vault_lock, enter_safe_mode, exit_safe_mode, no_payload, delta,
  increase_risk_score,
}
use hisnos_secure_workstatio.Daemon.{
  World, Daemon, dispatch_legacy_action, dispatch_actions, handle_event, vault_unmounted, entering,
  exiting, risk_raised,
}
use hisnos_secure_workstatio.Daemon.Effects.{
  waiting, Reached, lock-Reached, risk-Reached, enter-Reached, exit-Reached, alone-Reached,
  dispatch_actions-append,
}

-- What is decided on a state.
abbrev pub locks : World → SystemState → Bool
locks w s = critical s && (not (is_safe_mode s.mode) && (s.vault.mounted && w.vault_executes))

abbrev pub shared : SystemState → Bool
shared s = s.lab.active && s.vault.mounted

abbrev pub enters : Bool → SystemState → Bool
enters up s = not up && not (is_safe_mode s.mode)

abbrev pub exits : SystemState → Bool
exits s =
    is_safe_mode s.mode && (s.firewall.active && (s.subsystems.logd_alive && not (critical s)))

-- The state after all of it, but for its version and time.
unfoldable pub decided : World → SystemState → SystemState
decided w s =
    let locked = if locks w s then vault_unmounted s else s in
    let counted = if shared s then risk_raised locked else locked in
    let entered = if enters s.firewall.active s then entering counted else counted in
    let entered_too = if enters s.subsystems.logd_alive s then entering entered else entered in
    if exits s then exiting entered_too else entered_too

-- How many events that puts on the bus.
unfoldable pub announced : World → SystemState → ℕ
announced w s =
    (if locks w s then 1 else 0)
    + (if enters s.firewall.active s then 1 else 0)
    + (if enters s.subsystems.logd_alive s then 1 else 0)
    + (if exits s then 1 else 0)

abbrev lock_action : Action
lock_action = record { type = force_vault_lock; payload = no_payload; reason = "risk_score >= 80" }

abbrev risk_action : Action
risk_action = record {
  type = increase_risk_score;
  payload = delta 10;
  reason = "lab_active && vault_mounted: concurrent access risk";
}

module _ {B : Type 0} (json : Json SystemState B) where
  rule_p1-Reached :
      (w : World) (s : SystemState) (d : Daemon B) (t : SystemState) (n : ℕ)
      → Reached json d t n
      → Reached json
          (dispatch_actions json w (rule_p1 s) d)
          (if locks w s then vault_unmounted t else t)
          (n + (if locks w s then 1 else 0))
  unfolding rule_p1 dispatch_actions dispatch_legacy_action
  rule_p1-Reached w s d t n h = elim (Bool-cases (critical s)) [
    | inr c ↦ rw c (same_count h)
    | inl c ↦ elim (Bool-cases (is_safe_mode s.mode)) [
      | inl m ↦ rw (c, m) (same_count h)
      | inr m ↦ elim (Bool-cases s.vault.mounted) [
        | inl v ↦ rw (c, m, v) (lock-Reached json w lock_action d t n refl h)
        | inr v ↦ rw (c, m, v) (same_count h)
      ]
    ]
  ]
    where
      same_count : Reached json d t n → Reached json d t (n + 0)
      same_count r = (r.0, omega (arith, r.1))

  rule_p2-idle :
      (w : World) (s : SystemState) (d : Daemon B) → dispatch_actions json w (rule_p2 s) d ≡ d
  unfolding rule_p2 dispatch_actions dispatch_legacy_action
  rule_p2-idle w s d = ground arith

  rule_p6-idle :
      (w : World) (s : SystemState) (d : Daemon B) → dispatch_actions json w (rule_p6 s) d ≡ d
  unfolding rule_p6 dispatch_actions dispatch_legacy_action
  rule_p6-idle w s d = ground arith

  rule_p8-idle :
      (w : World) (s : SystemState) (d : Daemon B) → dispatch_actions json w (rule_p8 s) d ≡ d
  unfolding rule_p8 dispatch_actions dispatch_legacy_action
  rule_p8-idle w s d = ground arith

  -- The rules follow one another on the actions of the same state.
  in_order :
      (w : World) (s : SystemState) (d : Daemon B)
      → dispatch_actions json w (evaluate s) d
        ≡ dispatch_actions json w (rule_p7 s) (
            dispatch_actions json w (rule_p5 s) (
              dispatch_actions json w
                (rule_p4 s)
                (dispatch_actions json w (rule_p3 s) (dispatch_actions json w (rule_p1 s) d))))
  unfolding evaluate
  in_order w s d = simp (dispatch_actions-append, rule_p2-idle, rule_p6-idle, rule_p8-idle)

  rule_p3-Reached :
      (w : World) (s : SystemState) (d : Daemon B) (t : SystemState) (n : ℕ)
      → Reached json d t n
      → Reached json
          (dispatch_actions json w (rule_p3 s) d)
          (if shared s then risk_raised t else t)
          n
  unfolding rule_p3 dispatch_actions
  rule_p3-Reached w s d t n h = elim (Bool-cases (shared s)) [
    | inl c ↦ rw c (risk-Reached json w risk_action d t n refl h)
    | inr c ↦ rw c h
  ]

  rule_p4-Reached :
      (w : World) (s : SystemState) (d : Daemon B) (t : SystemState) (n : ℕ)
      → Reached json d t n
      → Reached json
          (dispatch_actions json w (rule_p4 s) d)
          (if enters s.firewall.active s then entering t else t)
          (n + (if enters s.firewall.active s then 1 else 0))
  unfolding rule_p4
  rule_p4-Reached w s d t n h =
      alone-Reached json w (enters s.firewall.active s) _ d t (entering t) n 1
        (enter-Reached json w
          (record { type = enter_safe_mode; payload = no_payload; reason = "firewall_inactive" }) d
          t n refl h)
        h

  rule_p5-Reached :
      (w : World) (s : SystemState) (d : Daemon B) (t : SystemState) (n : ℕ)
      → Reached json d t n
      → Reached json
          (dispatch_actions json w (rule_p5 s) d)
          (if enters s.subsystems.logd_alive s then entering t else t)
          (n + (if enters s.subsystems.logd_alive s then 1 else 0))
  unfolding rule_p5
  rule_p5-Reached w s d t n h =
      alone-Reached json w (enters s.subsystems.logd_alive s) _ d t (entering t) n 1
        (enter-Reached json w
          (record {
            type = enter_safe_mode;
            payload = no_payload;
            reason = "logd_dead: audit pipeline offline";
          })
          d t n refl h)
        h

  rule_p7-Reached :
      (w : World) (s : SystemState) (d : Daemon B) (t : SystemState) (n : ℕ)
      → Reached json d t n
      → Reached json
          (dispatch_actions json w (rule_p7 s) d)
          (if exits s then exiting t else t)
          (n + (if exits s then 1 else 0))
  unfolding rule_p7
  rule_p7-Reached w s d t n h =
      alone-Reached json w (exits s) _ d t (exiting t) n 1
        (exit-Reached json w
          (record {
            type = exit_safe_mode;
            payload = no_payload;
            reason = "firewall_active && logd_alive && risk_score < 80";
          })
          d t n refl h)
        h

  -- One turn of the loop does to the state, and announces, what is decided on it.
  pub handle_event-Reached :
      (w : World) (d : Daemon B)
      → Reached json
          (handle_event json w d)
          (decided w d.manager.state)
          (waiting d + announced w d.manager.state)
  unfolding handle_event decided announced
  handle_event-Reached w d =
      let s = d.manager.state in
      let start : Reached json d s (waiting d) =
        ((refl, refl, refl, refl, refl, refl), omega arith) in
      let d1 = dispatch_actions json w (rule_p1 s) d in
      let d3 = dispatch_actions json w (rule_p3 s) d1 in
      let d4 = dispatch_actions json w (rule_p4 s) d3 in
      let d5 = dispatch_actions json w (rule_p5 s) d4 in
      let t1 = if locks w s then vault_unmounted s else s in
      let t3 = if shared s then risk_raised t1 else t1 in
      let t4 = if enters s.firewall.active s then entering t3 else t3 in
      let t5 = if enters s.subsystems.logd_alive s then entering t4 else t4 in
      let r1 = rule_p1-Reached w s d s (waiting d) start in
      let r3 = rule_p3-Reached w s d1 t1 _ r1 in
      let r4 = rule_p4-Reached w s d3 t3 _ r3 in
      let r5 = rule_p5-Reached w s d4 t4 _ r4 in
      let r7 = rule_p7-Reached w s d5 t5 _ r5 in rw (in_order w s d) (r7.0, omega (arith, r7.1))
