-- ===== src/Ipc/SafeModeGate.antt =====
-- core/ipc/server.go behind the gate that core/main.go installs: `IsBlocked` of the enforcer of
-- core/runtime/safemode.go.
use mathlib.Core.Path.{subst}
use text.Mathlib.Text.{◌==◌ as str_eq}
use text.Mathlib.TextEquality.{eq_iff}
use hisnos_secure_workstatio.Common.{
  ◌≡◌, ◌≢◌, refl, sym, ap, ◌∙◌, inl, inr, Bool, true, false, none, some, List, [], ◌∷◌, String,
  Bool-cases, arith, if◌then◌else◌,
}
use hisnos_secure_workstatio.AtomicFile.{Json}
use hisnos_secure_workstatio.State.{SystemState, Mode, safe_mode}
use hisnos_secure_workstatio.State.Manager.{Manager, update}
use hisnos_secure_workstatio.State.Manager.Laws.{update-Persisted, updated-mode}
use hisnos_secure_workstatio.Policy.{
  Verdict, permit, refuse, can_start_lab, can_start_gaming, can_reload_firewall,
}
use hisnos_secure_workstatio.SafeMode.{SafeModeEnforcer, Setting}
use hisnos_secure_workstatio.SafeMode.Laws.{IsDangerous}
use hisnos_secure_workstatio.Ipc.Rule.{branch, serve_rule}
use hisnos_secure_workstatio.Ipc.{
  Request, Reply, mode_set, nothing, reloaded_at, Env, known_mode, guard_permits, ok, with_mode,
  lab_stopped, vault_locked, firewall_reloaded, after_gaming,
}
use hisnos_secure_workstatio.Ipc.Dispatch.{
  Served, update_or_fail, update_anyway, cmd_set_mode, cmd_lock_vault, if_permitted, cmd_start_lab,
  cmd_stop_lab, cmd_reload_firewall, cmd_start_gaming, cmd_stop_gaming, cmd_acknowledge_safe_mode,
  extension, serve, dispatch,
}
use hisnos_secure_workstatio.Ipc.Blocked.{
  gated, stopped, stopped_iff, can_start_lab-safe, can_start_gaming-safe,
}

set_mode-harmless : IsDangerous "set_mode" → ⊥
set_mode-harmless (inl q) = let bad = (eq_iff "set_mode" "start_lab").1 q in cc
set_mode-harmless (inr (inl q)) = let bad = (eq_iff "set_mode" "start_gaming").1 q in cc
set_mode-harmless (inr (inr (inl q))) = let bad = (eq_iff "set_mode" "prepare_update").1 q in cc
set_mode-harmless (inr (inr (inr q))) = let bad = (eq_iff "set_mode" "unlock_vault").1 q in cc

second_case {ℓ} :
    {A : Type ℓ} (c : String) (x y z : A)
    → c ≡ "set_mode"
    → (if str_eq c "get_state" then x else if str_eq c "set_mode" then y else z) ≡ y
second_case c x y z q = rw q refl

known_mode-ne-empty : (t : String) (to : Mode) → known_mode t ≡ some to → str_eq t "" ≡ false
unfolding known_mode
known_mode-ne-empty t to k = elim (Bool-cases (str_eq t "")) [
  | inl e ↦ let bad : none ≡ some to = ap known_mode (sym ((eq_iff t "").0 e)) ∙ k in cc
  | inr e ↦ e
]

module _ {F B C : Type 0} (setting : Setting F C) (json : Json SystemState B) where
  -- The mode of the answer's state is the one of the given state, if that is safe mode.
  abbrev Kept : Manager B → Served B → Type 0
  Kept m r = m.state.mode ≡ safe_mode → r.0.state.mode ≡ safe_mode

  Kept-update_anyway :
      (env : Env) (req : Request) (f : SystemState → SystemState) (event : String) (reply : Reply)
      (m : Manager B)
      → (m.state.mode ≡ safe_mode → (f m.state).mode ≡ safe_mode)
      → Kept m (update_anyway json env req f event reply m)
  unfolding update_anyway
  Kept-update_anyway env req f event reply m k s =
      ap (λ (t : SystemState). t.mode) (update-Persisted json env.fails env.now f m).0
      ∙ (updated-mode env.now f m.state ∙ k s)

  Kept-if_permitted :
      (v : Verdict) (req : Request) (m : Manager B) (rest : Served B)
      → Kept m rest
      → Kept m (if_permitted json v req m rest)
  Kept-if_permitted permit req m rest h = h
  Kept-if_permitted (refuse reason) req m rest h = λ k. k

  Kept-acknowledge :
      (env : Env) (req : Request) (m : Manager B)
      → Kept m (cmd_acknowledge_safe_mode json env req m)
  unfolding cmd_acknowledge_safe_mode
  Kept-acknowledge env req m = ground arith

  Kept-extension : (env : Env) (req : Request) (m : Manager B) → Kept m (extension json env req m)
  unfolding extension
  Kept-extension env req m = ground arith

  Kept-serve :
      (env : Env) (req : Request) (m : Manager B)
      → str_eq req.command "set_mode" ≡ false
      → str_eq req.command "prepare_update" ≡ false
      → Kept m (serve json env req m)
  unfolding cmd_lock_vault cmd_start_lab cmd_stop_lab cmd_reload_firewall cmd_start_gaming
      cmd_stop_gaming
  Kept-serve env req m n p = serve_rule json (Kept m) env req m (record {
    on_get_state = λ k. k;
    on_set_mode = λ h. absurd (differ h n);
    on_lock_vault = λ h.
        branch (Kept m) env.vault_locks
          (λ v. Kept-update_anyway env req vault_locked "VaultLocked" nothing m (λ k. k)) (λ k. k);
    on_start_lab = λ h k. rw (no_lab k) k;
    on_stop_lab =
        λ h. Kept-update_anyway env req lab_stopped "LabStopped" nothing m (λ k. rw k refl);
    on_reload_firewall = λ h. Kept-if_permitted (can_reload_firewall m.state) req m _ (
        branch (Kept m) env.firewall_reloads
          (λ v.
            Kept-update_anyway env req (firewall_reloaded env.now) "FirewallReloaded"
              (reloaded_at env.now) m (λ k. k))
          (λ k. k));
    on_prepare_update = λ h. absurd (differ h p);
    on_start_gaming = λ h k. rw (no_gaming k) k;
    on_stop_gaming = λ h.
        Kept-update_anyway env req (λ s. record s { mode = after_gaming s.mode }) "GamingStopped"
          (mode_set "normal") m (λ k. rw k refl);
    on_acknowledge_alert = λ k. k;
    on_acknowledge = λ h. Kept-acknowledge env req m;
    on_health = λ k. k;
    on_extension = Kept-extension env req m;
  })
    where
      differ : {b : Bool} → b ≡ true → b ≡ false → ⊥
      differ h k = let bad : true ≡ false = sym h ∙ k in cc

      no_lab : m.state.mode ≡ safe_mode → can_start_lab m.state ≡ refuse "mode=safe-mode"
      no_lab k = can_start_lab-safe m.state k

      no_gaming : m.state.mode ≡ safe_mode → can_start_gaming m.state ≡ refuse "mode=safe-mode"
      no_gaming k = can_start_gaming-safe m.state k

  Kept-dispatch :
      (e : SafeModeEnforcer F C) (env : Env) (req : Request) (m : Manager B)
      → e.state.active ≡ true
      → str_eq req.command "set_mode" ≡ false
      → Kept m (dispatch json (gated setting json e env) req m)
  unfolding dispatch
  Kept-dispatch e env req m a n = elim (Bool-cases (stopped setting json e req.command)) [
    | inl s ↦ rw s (λ k. k)
    | inr s ↦ rw s (Kept-serve (gated setting json e env) req m n (not_prepared s))
  ]
    where
      not_prepared :
          stopped setting json e req.command ≡ false → str_eq req.command "prepare_update" ≡ false
      not_prepared s = elim (Bool-cases (str_eq req.command "prepare_update")) [
        | inl q ↦
            let named = (eq_iff req.command "prepare_update").0 q in
            let yes = (stopped_iff setting json e req.command).1 (a, inr (inr (inl named))) in cc
        | inr q ↦ q
      ]

  -- Requests, each with its surroundings, behind the gate of one enforcer.
  pub serve_all : SafeModeEnforcer F C → List (Env × Request) → Manager B → Manager B
  serve_all e [] m = m
  serve_all e ((env, req) ∷ rs) m =
      serve_all e rs (dispatch json (gated setting json e env) req m).0

  abbrev pub NoSetMode : List (Env × Request) → Type 0
  NoSetMode [] = Unit
  NoSetMode ((env, req) ∷ rs) = (req.command ≢ "set_mode") × NoSetMode rs

  -- While the enforcer stays active, no sequence of requests takes the state out of safe mode, if none
  -- of them is `set_mode`.
  pub serve_all-safe_mode :
      (e : SafeModeEnforcer F C) (rs : List (Env × Request)) (m : Manager B)
      → e.state.active ≡ true
      → NoSetMode rs
      → m.state.mode ≡ safe_mode
      → (serve_all e rs m).state.mode ≡ safe_mode
  unfolding serve_all
  serve_all-safe_mode e [] m a n k = k
  serve_all-safe_mode e ((env, req) ∷ rs) m a n k =
      serve_all-safe_mode e rs (dispatch json (gated setting json e env) req m).0 a n.1
        (Kept-dispatch e env req m a (other_command n.0) k)
    where
      other_command : req.command ≢ "set_mode" → str_eq req.command "set_mode" ≡ false
      other_command d = elim (Bool-cases (str_eq req.command "set_mode")) [
        | inl q ↦ absurd (d ((eq_iff req.command "set_mode").0 q))
        | inr q ↦ q
      ]

  serve-set_mode :
      (env : Env) (req : Request) (m : Manager B)
      → req.command ≡ "set_mode"
      → serve json env req m ≡ cmd_set_mode json env req m
  unfolding serve
  serve-set_mode env req m c = second_case req.command _ _ _ c

  dispatch-set_mode :
      (e : SafeModeEnforcer F C) (env : Env) (req : Request) (m : Manager B)
      → req.command ≡ "set_mode"
      → dispatch json (gated setting json e env) req m
        ≡ cmd_set_mode json (gated setting json e env) req m
  unfolding dispatch
  dispatch-set_mode e env req m c = elim (Bool-cases (stopped setting json e req.command)) [
    | inl s ↦
        absurd
          (set_mode-harmless (subst IsDangerous c ((stopped_iff setting json e req.command).0 s).1))
    | inr s ↦ rw s (serve-set_mode (gated setting json e env) req m c)
  ]

  cmd_set_mode-written :
      (env : Env) (req : Request) (m : Manager B) (to : Mode)
      → m.state.mode ≡ safe_mode
      → known_mode req.params.mode ≡ some to
      → (update json env.fails env.now (with_mode to) m).1 ≡ none
      → cmd_set_mode json env req m ≡ (
        (update json env.fails env.now (with_mode to) m).0,
        "ModeChanged" ∷ [],
        ok req.id (mode_set req.params.mode),
      )
  unfolding cmd_set_mode guard_permits update_or_fail update
  cmd_set_mode-written env req m to s k w =
      rw (known_mode-ne-empty req.params.mode to k, k, s, w, update_or_fail) refl

  -- But `set_mode` passes the gate: with the enforcer active and without its acknowledgement, it
  -- takes the state out of safe mode to any named mode, if the state can be written.
  pub set_mode_leaves_safe_mode :
      (e : SafeModeEnforcer F C) (env : Env) (req : Request) (m : Manager B) (to : Mode)
      → e.state.active ≡ true
      → m.state.mode ≡ safe_mode
      → req.command ≡ "set_mode"
      → known_mode req.params.mode ≡ some to
      → (update json env.fails env.now (with_mode to) m).1 ≡ none
      → let (m', events, reply) = dispatch json (gated setting json e env) req m in
        (m'.state.mode ≡ to) × (reply ≡ ok req.id (mode_set req.params.mode))
  set_mode_leaves_safe_mode e env req m to a s c k w =
      rw
        (
          dispatch-set_mode e env req m c,
          cmd_set_mode-written (gated setting json e env) req m to s k w,
        )
        (
          ap (λ (t : SystemState). t.mode)
                (update-Persisted json env.fails env.now (with_mode to) m).0
              ∙ updated-mode env.now (with_mode to) m.state,
          refl,
        )
