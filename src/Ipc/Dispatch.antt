-- ===== src/Ipc/Dispatch.antt =====
-- core/ipc/server.go: the handlers and `dispatch`.
use text.Mathlib.Text.{◌==◌ as str_eq}
use hisnos_secure_workstatio.Common.{
  Bool, false, not, ◌&&◌, Option, none, some, List, [], ◌∷◌, ◌⊎◌, inl, inr, String, at_least,
  if◌then◌else◌,
}
use hisnos_secure_workstatio.AtomicFile.{Json}
use hisnos_secure_workstatio.State.{SystemState, gaming}
use hisnos_secure_workstatio.State.Manager.{Manager, update}
use hisnos_secure_workstatio.Policy.{
  Verdict, permit, refuse, can_start_lab, can_start_gaming, can_reload_firewall,
}
use hisnos_secure_workstatio.Ipc.{
  Request, Reply, Failure, Response, ok, err_resp, Env, is_read_only, known_mode, guard_permits,
  or_default, after_gaming, with_mode, vault_locked, lab_started, lab_stopped, firewall_reloaded,
  preparing, nothing, acknowledged, snapshot, health_of, mode_set, lab_session, reloaded_at,
  preflight_passed, safe_mode_left, blocked, mode_required, vault_lock_failed, firewall_failed,
  preflight_exec, gaming_failed, confirm_required, not_configured, exit_rejected, unknown_mode,
  unknown_command, policy_rejected, extension_error, forbidden, preflight_failed, not_persisted,
}

-- The manager, the events and the reply.
abbrev pub Served : Type 0 → Type 0
Served B = Manager B × List String × Response

-- The envelope of `RegisterCommand`.
abbrev pub enveloped : String → Reply ⊎ String → Response
enveloped id (inl d) = ok id d
enveloped id (inr e) = err_resp id (extension_error e)

module _ {B : Type 0} (json : Json SystemState B) where
  -- A request that is turned down.
  abbrev pub turned_down : Request → Failure → Manager B → Served B
  turned_down req e m = (m, [], err_resp req.id e)

  -- `if err := Update(…); err != nil { return errResp }`, then the event and the reply.
  unfoldable pub update_or_fail :
      Env → Request → (SystemState → SystemState) → String → Reply → Manager B → Served B
  update_or_fail env req f event reply m =
      let (m', e) = update json env.fails env.now f m in
      elim e [
        | some p ↦ (m', [], err_resp req.id (not_persisted p))
        | none ↦ (m', event ∷ [], ok req.id reply)
      ]

  -- `_ = Update(…)`, then the event and the reply.
  unfoldable pub update_anyway :
      Env → Request → (SystemState → SystemState) → String → Reply → Manager B → Served B
  update_anyway env req f event reply m =
      ((update json env.fails env.now f m).0, event ∷ [], ok req.id reply)

  unfoldable pub cmd_set_mode : Env → Request → Manager B → Served B
  unfolding known_mode guard_permits update_or_fail
  cmd_set_mode env req m =
      if str_eq req.params.mode ""
      then turned_down req mode_required m
      else elim (known_mode req.params.mode) [
        | none ↦ turned_down req (unknown_mode req.params.mode) m
        | some to ↦
            if guard_permits m.state.mode to
            then update_or_fail env req (with_mode to) "ModeChanged" (mode_set req.params.mode) m
            else turned_down req (forbidden m.state.mode to) m
      ]

  unfoldable pub cmd_lock_vault : Env → Request → Manager B → Served B
  unfolding update_anyway
  cmd_lock_vault env req m =
      if env.vault_locks
      then update_anyway env req vault_locked "VaultLocked" nothing m
      else turned_down req vault_lock_failed m

  -- `if allow, reason := …; !allow { return errResp }`.
  abbrev pub if_permitted : Verdict → Request → Manager B → Served B → Served B
  if_permitted permit req m rest = rest
  if_permitted (refuse reason) req m rest = turned_down req (policy_rejected reason) m

  unfoldable pub cmd_start_lab : Env → Request → Manager B → Served B
  unfolding can_start_lab update_or_fail
  cmd_start_lab env req m =
      let profile = or_default req.params.profile "isolated" in
      if_permitted (can_start_lab m.state) req m (
        update_or_fail env req (lab_started env.session profile) "LabStarted"
          (lab_session env.session profile) m)

  -- The error of `StopSession` is only logged.
  unfoldable pub cmd_stop_lab : Env → Request → Manager B → Served B
  unfolding update_anyway
  cmd_stop_lab env req m = update_anyway env req lab_stopped "LabStopped" nothing m

  unfoldable pub cmd_reload_firewall : Env → Request → Manager B → Served B
  unfolding can_reload_firewall update_anyway
  cmd_reload_firewall env req m = if_permitted (can_reload_firewall m.state) req m (
      if env.firewall_reloads
      then update_anyway env req (firewall_reloaded env.now) "FirewallReloaded"
          (reloaded_at env.now) m
      else turned_down req firewall_failed m)

  unfoldable pub cmd_prepare_update : Env → Request → Manager B → Served B
  unfolding update_anyway
  cmd_prepare_update env req m = elim env.preflight [
    | none ↦ turned_down req preflight_exec m
    | some (code, output) ↦
        if at_least code 2
        then turned_down req (preflight_failed code output) m
        else update_anyway env req preparing "UpdatePrepared" (preflight_passed code output) m
  ]

  unfoldable pub cmd_start_gaming : Env → Request → Manager B → Served B
  unfolding can_start_gaming update_anyway
  cmd_start_gaming env req m = if_permitted (can_start_gaming m.state) req m (
      if env.gaming_starts
      then update_anyway env req (with_mode gaming) "GamingStarted" (mode_set "gaming") m
      else turned_down req gaming_failed m)

  -- The error of `Stop` is only logged.
  unfoldable pub cmd_stop_gaming : Env → Request → Manager B → Served B
  unfolding update_anyway
  cmd_stop_gaming env req m =
      update_anyway env req (λ s. record s { mode = after_gaming s.mode }) "GamingStopped"
        (mode_set "normal") m

  unfoldable pub cmd_acknowledge_safe_mode : Env → Request → Manager B → Served B
  cmd_acknowledge_safe_mode env req m =
      let operator = or_default req.params.operator "ipc-operator" in
      if not req.params.confirm then turned_down req confirm_required m else elim env.acknowledge [
        | none ↦ turned_down req not_configured m
        | some accepts ↦
            if accepts operator
            then (m, "ModeChanged" ∷ [], ok req.id (safe_mode_left operator))
            else turned_down req exit_rejected m
      ]

  -- The `default` case; an extension keeps its own state.
  unfoldable pub extension : Env → Request → Manager B → Served B
  extension env req m = elim (env.extensions req.command) [
    | none ↦ turned_down req (unknown_command req.command) m
    | some h ↦ (m, [], enveloped req.id (h req.params))
  ]

  -- The switch of `dispatch`.
  unfoldable pub serve : Env → Request → Manager B → Served B
  serve env req m =
      let c = req.command in
      if str_eq c "get_state"
      then (m, [], ok req.id (snapshot m.state))
      else if str_eq c "set_mode"
      then cmd_set_mode env req m
      else if str_eq c "lock_vault"
      then cmd_lock_vault env req m
      else if str_eq c "start_lab"
      then cmd_start_lab env req m
      else if str_eq c "stop_lab"
      then cmd_stop_lab env req m
      else if str_eq c "reload_firewall"
      then cmd_reload_firewall env req m
      else if str_eq c "prepare_update"
      then cmd_prepare_update env req m
      else if str_eq c "start_gaming"
      then cmd_start_gaming env req m
      else if str_eq c "stop_gaming"
      then cmd_stop_gaming env req m
      else if str_eq c "acknowledge_alert"
      then (m, [], ok req.id acknowledged)
      else if str_eq c "acknowledge_safe_mode"
      then cmd_acknowledge_safe_mode env req m
      else if str_eq c "health"
      then (m, [], ok req.id (health_of m.state))
      else extension env req m

  abbrev pub is_gated : Option (String → Bool) → String → Bool
  is_gated none c = false
  is_gated (some blocks) c = blocks c

  unfoldable pub dispatch : Env → Request → Manager B → Served B
  unfolding is_read_only serve
  dispatch env req m =
      if not (is_read_only req.command) && is_gated env.gate req.command
      then turned_down req blocked m
      else serve env req m
