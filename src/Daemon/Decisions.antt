-- ===== src/Daemon/Decisions.antt =====
-- core/main.go: which mode, vault and risk a turn of the policy loop leaves.
use hisnos_secure_workstatio.Common.{
  ℤ, ◌≡◌, refl, ap, ◌∙◌, inl, inr, Bool, true, false, not, ◌&&◌, List, [], ◌∷◌, at_least,
  Bool-cases, arith, if◌then◌else◌,
}
use hisnos_secure_workstatio.AtomicFile.{Json}
use hisnos_secure_workstatio.State.{
  SystemState, VaultState, RiskState, Mode, normal, safe_mode, is_safe_mode,
}
use hisnos_secure_workstatio.Policy.{critical}
use hisnos_secure_workstatio.EventBus.{Event, receive}
use hisnos_secure_workstatio.Daemon.{
  World, Daemon, channel, handle_event, turn, turn_on, run_policy_loop, vault_unmounted, entering,
  exiting, risk_raised, raised_score,
}
use hisnos_secure_workstatio.Daemon.Turns.{
  locks, shared, enters, exits, decided, handle_event-Reached,
}

-- The firewall and the audit pipeline are up.
abbrev pub defended : SystemState → Bool
defended s = s.firewall.active && s.subsystems.logd_alive

abbrev pub next_mode : SystemState → Mode
next_mode s =
    if is_safe_mode s.mode
    then (if defended s && not (critical s) then normal else s.mode)
    else (if defended s then s.mode else safe_mode)

pick-mode :
    (l c e f x : Bool) (s : SystemState)
    → (let t1 = if l then vault_unmounted s else s in
        let t3 = if c then risk_raised t1 else t1 in
        let t4 = if e then entering t3 else t3 in
        let t5 = if f then entering t4 else t4 in (if x then exiting t5 else t5).mode)
      ≡ (if x then normal else if f then safe_mode else if e then safe_mode else s.mode)
unfolding risk_raised
pick-mode l c e f true s = refl
pick-mode l c e true false s = refl
pick-mode l c true false false s = refl
pick-mode true true false false false s = refl
pick-mode true false false false false s = refl
pick-mode false true false false false s = refl
pick-mode false false false false false s = refl

decided-mode : (w : World) (s : SystemState) → (decided w s).mode ≡ next_mode s
unfolding decided
decided-mode w s =
    pick-mode (locks w s) (shared s) (enters s.firewall.active s) (enters s.subsystems.logd_alive s)
      (exits s) s
    ∙ merged (is_safe_mode s.mode) s.firewall.active s.subsystems.logd_alive (critical s)
  where
    merged :
        (m f l k : Bool)
        → (if m && (f && (l && not k))
            then normal
            else if not l && not m
            then safe_mode
            else if not f && not m
            then safe_mode
            else s.mode)
          ≡ (if m
              then (if (f && l) && not k then normal else s.mode)
              else (if f && l then s.mode else safe_mode))
    merged m f l k = ground arith

-- What the later decisions leave alone.
entering-rest :
    (c : Bool) (t : SystemState)
    → let u = if c then entering t else t in (u.vault ≡ t.vault) × (u.risk ≡ t.risk)
entering-rest true t = (refl, refl)
entering-rest false t = (refl, refl)

exiting-rest :
    (c : Bool) (t : SystemState)
    → let u = if c then exiting t else t in (u.vault ≡ t.vault) × (u.risk ≡ t.risk)
exiting-rest true t = (refl, refl)
exiting-rest false t = (refl, refl)

risk_raised-vault : (c : Bool) (t : SystemState) → (if c then risk_raised t else t).vault ≡ t.vault
unfolding risk_raised
risk_raised-vault true t = refl
risk_raised-vault false t = refl

vault_unmounted-risk :
    (c : Bool) (t : SystemState) → (if c then vault_unmounted t else t).risk ≡ t.risk
vault_unmounted-risk true t = refl
vault_unmounted-risk false t = refl

decided-rest :
    (w : World) (s : SystemState)
    → let locked = if locks w s then vault_unmounted s else s in
      ((decided w s).vault ≡ locked.vault)
      × ((decided w s).risk ≡ (if shared s then risk_raised locked else locked).risk)
unfolding decided
decided-rest w s =
    let t1 = if locks w s then vault_unmounted s else s in
    let t3 = if shared s then risk_raised t1 else t1 in
    let t4 = if enters s.firewall.active s then entering t3 else t3 in
    let t5 = if enters s.subsystems.logd_alive s then entering t4 else t4 in
    let (v7, r7) = exiting-rest (exits s) t5 in
    let (v5, r5) = entering-rest (enters s.subsystems.logd_alive s) t4 in
    let (v4, r4) = entering-rest (enters s.firewall.active s) t3 in
    (v7 ∙ (v5 ∙ (v4 ∙ risk_raised-vault (shared s) t1)), r7 ∙ (r5 ∙ r4))

-- The score is at most 100.
abbrev pub in_range : SystemState → Bool
in_range s = not (at_least s.risk.score 101)

raised_score-in_range : (x : ℤ) → not (at_least (raised_score x) 101) ≡ true
unfolding raised_score
raised_score-in_range x = ground arith

decided-in_range : (w : World) (s : SystemState) → in_range s ≡ true → in_range (decided w s) ≡ true
unfolding risk_raised
decided-in_range w s r =
    let t = if locks w s then vault_unmounted s else s in
    let same = vault_unmounted-risk (locks w s) s in
    ap (λ u. not (at_least u.score 101)) (decided-rest w s).1 ∙ elim (Bool-cases (shared s)) [
      | inl c ↦ rw c (raised_score-in_range t.risk.score)
      | inr c ↦ rw c (ap (λ u. not (at_least u.score 101)) same ∙ r)
    ]

module _ {B : Type 0} (json : Json SystemState B) where
  -- A turn enters safe mode exactly if the firewall or the audit pipeline is down; it leaves safe
  -- mode, for the normal mode, exactly if both are up and the risk is below 80; and it keeps every
  -- other mode. This is so whether or not the state can be written. No acknowledgement is asked for.
  pub handle_event-next_mode :
      (w : World) (d : Daemon B)
      → (handle_event json w d).manager.state.mode ≡ next_mode d.manager.state
  handle_event-next_mode w d = (handle_event-Reached json w d).0.0 ∙ decided-mode w d.manager.state

  -- If the risk is at least 80 outside safe mode and the vault can be locked, the vault is not
  -- mounted after the turn.
  pub handle_event-locks :
      (w : World) (d : Daemon B)
      → critical d.manager.state ≡ true
      → is_safe_mode d.manager.state.mode ≡ false
      → w.vault_executes ≡ true
      → (handle_event json w d).manager.state.vault.mounted ≡ false
  handle_event-locks w d k m x =
      let s = d.manager.state in
      let same = (handle_event-Reached json w d).0.2 in
      ap (λ (v : VaultState). v.mounted) (same ∙ (decided-rest w s).0) ∙ unmounted
    where
      unmounted :
          (if locks w d.manager.state
            then vault_unmounted d.manager.state
            else d.manager.state).vault.mounted
          ≡ false
      unmounted = rw (k, m, x) (ground arith)

  turn_on-in_range :
      (es : List Event) (w : World) (d : Daemon B)
      → in_range d.manager.state ≡ true
      → in_range (turn_on json es w d).manager.state ≡ true
  turn_on-in_range [] w d r = r
  turn_on-in_range (e ∷ es) w d r =
      let d0 = record d { bus = receive 0 d.bus } in
      ap (λ (u : RiskState). not (at_least u.score 101)) (handle_event-Reached json w d0).0.1
      ∙ decided-in_range w d.manager.state r

  -- A score of at most 100 stays at most 100.
  pub run_policy_loop-in_range :
      (ws : List World) (d : Daemon B)
      → in_range d.manager.state ≡ true
      → in_range (run_policy_loop json ws d).manager.state ≡ true
  unfolding run_policy_loop turn
  run_policy_loop-in_range [] d r = r
  run_policy_loop-in_range (w ∷ ws) d r =
      run_policy_loop-in_range ws (turn json w d) (turn_on-in_range (channel d.bus) w d r)
