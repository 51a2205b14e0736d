-- ===== src/Ipc/Blocked.antt =====
-- core/ipc/server.go behind the gate that core/main.go installs: `IsBlocked` of the enforcer of
-- core/runtime/safemode.go.
use text.Mathlib.Text.{◌==◌ as str_eq}
use hisnos_secure_workstatio.Common.{
  ◌≡◌, ◌≢◌, ◌↔◌, refl, ◌⊎◌, inl, inr, Bool, true, false, not, ◌&&◌, some, List, [], ◌∷◌, String,
  Bool-cases, Option-cases, arith, at_least,
}
use hisnos_secure_workstatio.AtomicFile.{Json}
use hisnos_secure_workstatio.State.{SystemState, safe_mode, gaming}
use hisnos_secure_workstatio.State.Manager.{Manager, update}
use hisnos_secure_workstatio.Policy.{
  Verdict, permit, refuse, can_start_lab, can_start_gaming, can_reload_firewall,
}
use hisnos_secure_workstatio.SafeMode.{SafeModeEnforcer, Setting, is_blocked}
use hisnos_secure_workstatio.SafeMode.Laws.{IsDangerous, is_blocked_iff}
use hisnos_secure_workstatio.Ipc.Rule.{branch, serve_rule}
use hisnos_secure_workstatio.Ipc.{
  Request, Reply, Failure, blocked, exit_rejected, or_default, safe_mode_left, mode_set, nothing,
  reloaded_at, preflight_passed, Env, is_read_only, known_mode, guard_permits, ok, with_mode,
  lab_stopped, vault_locked, firewall_reloaded, preparing, after_gaming,
}
use hisnos_secure_workstatio.Ipc.Dispatch.{
  Served, turned_down, update_or_fail, update_anyway, cmd_set_mode, cmd_lock_vault, if_permitted,
  cmd_start_lab, cmd_stop_lab, cmd_reload_firewall, cmd_prepare_update, cmd_start_gaming,
  cmd_stop_gaming, cmd_acknowledge_safe_mode, extension, enveloped, serve, dispatch,
}

pub can_start_lab-safe :
    (s : SystemState) → s.mode ≡ safe_mode → can_start_lab s ≡ refuse "mode=safe-mode"
unfolding can_start_lab
can_start_lab-safe s k = rw (k, can_start_lab) refl

pub can_start_gaming-safe :
    (s : SystemState) → s.mode ≡ safe_mode → can_start_gaming s ≡ refuse "mode=safe-mode"
unfolding can_start_gaming
can_start_gaming-safe s k = rw (k, can_start_gaming) refl

and_right : (a b : Bool) → (a && b) ≡ true → b ≡ true
and_right a b h = ground arith

IsDangerous-is_read_only : (c : String) → IsDangerous c → is_read_only c ≡ false
unfolding is_read_only
IsDangerous-is_read_only c (inl q) = rw q refl
IsDangerous-is_read_only c (inr (inl q)) = rw q refl
IsDangerous-is_read_only c (inr (inr (inl q))) = rw q refl
IsDangerous-is_read_only c (inr (inr (inr q))) = rw q refl

module _ {F B C : Type 0} (setting : Setting F C) (json : Json SystemState B) where
  -- The gate of `main`.
  abbrev pub gated : SafeModeEnforcer F C → Env → Env
  gated e env = record env { gate = some (is_blocked setting e) }

  abbrev NotBlocked : Served B → Type 0
  NotBlocked r = r.2.result ≢ inr blocked

  NotBlocked-answered :
      (m : Manager B) (events : List String) (id : String) (reply : Reply)
      → NotBlocked (m, events, ok id reply)
  NotBlocked-answered m events id reply h = cc

  NotBlocked-turned_down :
      (req : Request) (f : Failure) (m : Manager B)
      → f ≢ blocked
      → NotBlocked (turned_down json req f m)
  NotBlocked-turned_down req f m n h = n (cc)

  NotBlocked-update_or_fail :
      (env : Env) (req : Request) (f : SystemState → SystemState) (event : String) (reply : Reply)
      (m : Manager B)
      → NotBlocked (update_or_fail json env req f event reply m)
  unfolding update_or_fail
  NotBlocked-update_or_fail env req f event reply m h =
      elim (Option-cases (update json env.fails env.now f m).1) [
        | inl q ↦ let bad = rw (q, update_or_fail) at h in cc
        | inr (p, q) ↦ let bad = rw (q, update_or_fail) at h in cc
      ]

  NotBlocked-update_anyway :
      (env : Env) (req : Request) (f : SystemState → SystemState) (event : String) (reply : Reply)
      (m : Manager B)
      → NotBlocked (update_anyway json env req f event reply m)
  unfolding update_anyway
  NotBlocked-update_anyway env req f event reply m h = cc

  NotBlocked-if_permitted :
      (v : Verdict) (req : Request) (m : Manager B) (rest : Served B)
      → NotBlocked rest
      → NotBlocked (if_permitted json v req m rest)
  NotBlocked-if_permitted permit req m rest h = h
  NotBlocked-if_permitted (refuse reason) req m rest h = λ e. cc

  NotBlocked-cmd_set_mode :
      (env : Env) (req : Request) (m : Manager B) → NotBlocked (cmd_set_mode json env req m)
  unfolding cmd_set_mode
  NotBlocked-cmd_set_mode env req m =
      branch NotBlocked (str_eq req.params.mode "") (λ h e. cc)
        (elim (Option-cases (known_mode req.params.mode)) [
          | inl q ↦ rw q (λ e. cc)
          | inr (to, q) ↦ rw q (
              branch NotBlocked (guard_permits m.state.mode to)
                (λ h. NotBlocked-update_or_fail env req _ _ _ m) (λ e. cc))
        ])

  NotBlocked-cmd_prepare_update :
      (env : Env) (req : Request) (m : Manager B) → NotBlocked (cmd_prepare_update json env req m)
  unfolding cmd_prepare_update
  NotBlocked-cmd_prepare_update env req m = elim (Option-cases env.preflight) [
    | inl q ↦ rw q (λ e. cc)
    | inr ((code, output), q) ↦ rw q (
        branch NotBlocked (at_least code 2) (λ h e. cc)
          (NotBlocked-update_anyway env req preparing "UpdatePrepared"
            (preflight_passed code output) m))
  ]

  NotBlocked-cmd_acknowledge :
      (env : Env) (req : Request) (m : Manager B)
      → NotBlocked (cmd_acknowledge_safe_mode json env req m)
  unfolding cmd_acknowledge_safe_mode
  NotBlocked-cmd_acknowledge env req m =
      branch NotBlocked (not req.params.confirm) (λ h e. cc)
        (elim (Option-cases env.acknowledge) [
          | inl q ↦ rw q (λ e. cc)
          | inr (accepts, q) ↦
              let operator = or_default req.params.operator "ipc-operator" in
              rw q (
                branch NotBlocked (accepts operator)
                  (λ h. NotBlocked-answered m ("ModeChanged" ∷ []) req.id (safe_mode_left operator))
                  (NotBlocked-turned_down req exit_rejected m (λ e. cc)))
        ])

  NotBlocked-enveloped :
      (m : Manager B) (id : String) (r : Reply ⊎ String) → NotBlocked (m, [], enveloped id r)
  NotBlocked-enveloped m id (inl d) h = cc
  NotBlocked-enveloped m id (inr t) h = cc

  NotBlocked-extension :
      (env : Env) (req : Request) (m : Manager B) → NotBlocked (extension json env req m)
  unfolding extension
  NotBlocked-extension env req m = elim (Option-cases (env.extensions req.command)) [
    | inl q ↦ rw (q, extension) (λ e. cc)
    | inr (h, q) ↦ rw (q, extension) (NotBlocked-enveloped m req.id (h req.params))
  ]

  -- No handler answers with this error.
  NotBlocked-serve : (env : Env) (req : Request) (m : Manager B) → NotBlocked (serve json env req m)
  unfolding cmd_lock_vault cmd_start_lab cmd_stop_lab cmd_reload_firewall cmd_start_gaming
      cmd_stop_gaming
  NotBlocked-serve env req m = serve_rule json NotBlocked env req m (record {
    on_get_state = λ e. cc;
    on_set_mode = λ h. NotBlocked-cmd_set_mode env req m;
    on_lock_vault = λ h.
        branch NotBlocked env.vault_locks
          (λ v. NotBlocked-update_anyway env req vault_locked "VaultLocked" nothing m) (λ e. cc);
    on_start_lab = λ h.
        NotBlocked-if_permitted (can_start_lab m.state) req m _
          (NotBlocked-update_or_fail env req _ _ _ m);
    on_stop_lab = λ h. NotBlocked-update_anyway env req lab_stopped "LabStopped" nothing m;
    on_reload_firewall = λ h. NotBlocked-if_permitted (can_reload_firewall m.state) req m _ (
        branch NotBlocked env.firewall_reloads
          (λ v.
            NotBlocked-update_anyway env req (firewall_reloaded env.now) "FirewallReloaded"
              (reloaded_at env.now) m)
          (λ e. cc));
    on_prepare_update = λ h. NotBlocked-cmd_prepare_update env req m;
    on_start_gaming = λ h. NotBlocked-if_permitted (can_start_gaming m.state) req m _ (
        branch NotBlocked env.gaming_starts
          (λ v.
            NotBlocked-update_anyway env req (with_mode gaming) "GamingStarted" (mode_set "gaming")
              m)
          (λ e. cc));
    on_stop_gaming = λ h.
        NotBlocked-update_anyway env req (λ s. record s { mode = after_gaming s.mode })
          "GamingStopped" (mode_set "normal") m;
    on_acknowledge_alert = λ e. cc;
    on_acknowledge = λ h. NotBlocked-cmd_acknowledge env req m;
    on_health = λ e. cc;
    on_extension = NotBlocked-extension env req m;
  })

  abbrev pub stopped : SafeModeEnforcer F C → String → Bool
  stopped e c = not (is_read_only c) && is_blocked setting e c

  pub stopped_iff :
      (e : SafeModeEnforcer F C) (c : String)
      → (stopped e c ≡ true) ↔ ((e.state.active ≡ true) × IsDangerous c)
  stopped_iff e c = (
    λ h.
        (is_blocked_iff setting e c).0
          (and_right (not (is_read_only c)) (is_blocked setting e c) h),
    λ d. rw (IsDangerous-is_read_only c d.1, (is_blocked_iff setting e c).1 d) refl,
  )

  -- Exactly the four commands of the source's table are turned down by the gate, and only while the
  -- enforcer is active. So locking the vault, stopping a lab and the acknowledgement pass, and so does
  -- reload_firewall, which the comments of safemode.go would block for profiles that are not strict.
  pub dispatch-blocked_iff :
      (e : SafeModeEnforcer F C) (env : Env) (req : Request) (m : Manager B)
      → ((dispatch json (gated e env) req m).2.result ≡ inr blocked)
        ↔ ((e.state.active ≡ true) × IsDangerous req.command)
  unfolding dispatch
  dispatch-blocked_iff e env req m = elim (Bool-cases (stopped e req.command)) [
    | inl s ↦ rw s (λ h. (stopped_iff e req.command).0 s, λ d. refl)
    | inr s ↦ rw s (
      λ h. absurd (NotBlocked-serve (gated e env) req m h),
      λ d. let yes = (stopped_iff e req.command).1 d in cc,
    )
  ]
