-- ===== src/Daemon/Effects.antt =====
-- core/main.go: what the actions of each rule of core/policy/policy.go do to the parts of the state
-- that the rules read.
use hisnos_secure_workstatio.Common.{
  ℕ, suc, ◌+◌, ◌≤◌, ◌≡◌, refl, ◌∙◌, inl, inr, Bool, true, false, List, [], ◌∷◌, ◌++◌, String,
  length, length-append, Bool-cases, arith, if◌then◌else◌,
}
use hisnos_secure_workstatio.AtomicFile.{Json}
use hisnos_secure_workstatio.State.{SystemState}
use hisnos_secure_workstatio.State.Manager.{updated}
use hisnos_secure_workstatio.State.Manager.Laws.{update-Persisted, updated_fields}
use hisnos_secure_workstatio.Policy.{
  Action, force_vault_lock, increase_risk_score, enter_safe_mode, exit_safe_mode,
}
use hisnos_secure_workstatio.EventBus.{Event, Subscriber, Bus, emit, publish, offer_all, offer}
use hisnos_secure_workstatio.Daemon.{
  World, Daemon, channel, change, announce, dispatch_legacy_action, dispatch_actions,
  vault_unmounted, entering, exiting, risk_raised,
}

abbrev pub waiting : {B : Type 0} → Daemon B → ℕ
waiting d = length (channel d.bus)

offer_one : (ev : Event) (s : Subscriber) → length (offer ev s).buffer ≤ suc (length s.buffer)
unfolding offer
offer_one ev s = ground (arith, length-append s.buffer (ev ∷ []))

channel-emit :
    (now : ℕ) (event payload : String) (bus : Bus)
    → length (channel (emit now event payload bus)) ≤ suc (length (channel bus))
unfolding emit publish offer_all
channel-emit now event payload [] = omega arith
channel-emit now event payload (s ∷ ss) = offer_one _ s

-- Two states that differ in the version, the time and the update at most.
abbrev pub Agree : SystemState → SystemState → Type 0
Agree s t =
    (s.mode ≡ t.mode)
    × (s.risk ≡ t.risk)
    × (s.vault ≡ t.vault)
    × (s.lab ≡ t.lab)
    × (s.firewall ≡ t.firewall)
    × (s.subsystems ≡ t.subsystems)

Agree-trans : (s t u : SystemState) → Agree s t → Agree t u → Agree s u
Agree-trans s t u (a, b, c, d, e, f) (a', b', c', d', e', f') =
    (a ∙ a', b ∙ b', c ∙ c', d ∙ d', e ∙ e', f ∙ f')

module _ {B : Type 0} (json : Json SystemState B) where
  change-state :
      (w : World) (f : SystemState → SystemState) (d : Daemon B)
      → (change json w f d).manager.state ≡ updated w.now f d.manager.state
  unfolding change
  change-state w f d = (update-Persisted json w.fails w.now f d.manager).0

  pub dispatch_actions-append :
      (w : World) (xs ys : List Action) (d : Daemon B)
      → dispatch_actions json w (xs ++ ys) d
        ≡ dispatch_actions json w ys (dispatch_actions json w xs d)
  unfolding dispatch_actions
  dispatch_actions-append w [] ys d = refl
  dispatch_actions-append w (x ∷ xs) ys d =
      dispatch_actions-append w xs ys (dispatch_legacy_action json w x d).0

  -- `d` has reached `t`, with at most `n` events in the channel.
  abbrev pub Reached : Daemon B → SystemState → ℕ → Type 0
  Reached d t n = Agree d.manager.state t × (waiting d ≤ n)

  change-Reached :
      (w : World) (f : SystemState → SystemState) (d : Daemon B) (t : SystemState) (n : ℕ)
      → (Agree d.manager.state t → Agree (f d.manager.state) (f t))
      → Reached d t n
      → Reached (change json w f d) (f t) n
  unfolding change
  change-Reached w f d t n c (a, l) = (
    rw (change-state w f d) (
        Agree-trans (updated w.now f d.manager.state) (f d.manager.state) (f t)
          (updated_fields w.now f d.manager.state) (c a)),
    l,
  )

  announce-Reached :
      (w : World) (event payload : String) (d : Daemon B) (t : SystemState) (n : ℕ)
      → Reached d t n
      → Reached (announce json w event payload d) t (n + 1)
  unfolding announce
  announce-Reached w event payload d t n (a, l) =
      (a, omega (arith, l, channel-emit w.now event payload d.bus))

  pub lock-Reached :
      (w : World) (a : Action) (d : Daemon B) (t : SystemState) (n : ℕ)
      → a.type ≡ force_vault_lock
      → Reached d t n
      → Reached
          (dispatch_legacy_action json w a d).0
          (if w.vault_executes then vault_unmounted t else t)
          (n + (if w.vault_executes then 1 else 0))
  unfolding dispatch_legacy_action
  lock-Reached w a d t n k h = elim (Bool-cases w.vault_executes) [
    | inl c ↦
        rw (k, c)
          (announce-Reached w "VaultLocked" "policy" (change json w vault_unmounted d)
            (vault_unmounted t) n
            (change-Reached w vault_unmounted d t n (λ (m, r, v, l, f, u). (m, r, cc, l, f, u)) h))
    | inr c ↦ rw (k, c) (h.0, omega (arith, h.1))
  ]

  pub risk-Reached :
      (w : World) (a : Action) (d : Daemon B) (t : SystemState) (n : ℕ)
      → a.type ≡ increase_risk_score
      → Reached d t n
      → Reached (dispatch_legacy_action json w a d).0 (risk_raised t) n
  unfolding dispatch_legacy_action risk_raised
  risk-Reached w a d t n k h =
      rw k (change-Reached w risk_raised d t n (λ (m, r, v, l, f, u). (m, cc, v, l, f, u)) h)

  pub enter-Reached :
      (w : World) (a : Action) (d : Daemon B) (t : SystemState) (n : ℕ)
      → a.type ≡ enter_safe_mode
      → Reached d t n
      → Reached (dispatch_legacy_action json w a d).0 (entering t) (n + 1)
  unfolding dispatch_legacy_action
  enter-Reached w a d t n k h = rw k (
      announce-Reached w "SafeModeEntered" a.reason (change json w entering d) (entering t) n
        (change-Reached w entering d t n (λ (m, r, v, l, f, u). (refl, r, v, l, f, u)) h))

  pub exit-Reached :
      (w : World) (a : Action) (d : Daemon B) (t : SystemState) (n : ℕ)
      → a.type ≡ exit_safe_mode
      → Reached d t n
      → Reached (dispatch_legacy_action json w a d).0 (exiting t) (n + 1)
  unfolding dispatch_legacy_action
  exit-Reached w a d t n k h = rw k (
      announce-Reached w "SafeModeExited" a.reason (change json w exiting d) (exiting t) n
        (change-Reached w exiting d t n (λ (m, r, v, l, f, u). (refl, r, v, l, f, u)) h))

  -- A rule with one action, which announces `k` events.
  pub alone-Reached :
      (w : World) (c : Bool) (a : Action) (d : Daemon B) (t u : SystemState) (n k : ℕ)
      → Reached (dispatch_legacy_action json w a d).0 u (n + k)
      → Reached d t n
      → Reached
          (dispatch_actions json w (if c then a ∷ [] else []) d)
          (if c then u else t)
          (n + (if c then k else 0))
  unfolding dispatch_actions
  alone-Reached w true a d t u n k g h = g
  alone-Reached w false a d t u n k g h = (h.0, omega (arith, h.1))
