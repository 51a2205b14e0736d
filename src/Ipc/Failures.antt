-- ===== src/Ipc/Failures.antt =====
-- core/ipc/server.go: what a request that is answered with an error leaves behind.
use text.Mathlib.Text.{◌==◌ as str_eq}
use hisnos_secure_workstatio.Common.{
  ◌≡◌, refl, ◌⊎◌, inl, inr, not, List, [], String, Option-cases, at_least,
}
use hisnos_secure_workstatio.AtomicFile.{Json}
use hisnos_secure_workstatio.State.{SystemState}
use hisnos_secure_workstatio.State.Manager.{Manager, PersistError, update}
use hisnos_secure_workstatio.State.Manager.Laws.{update-Persisted}
use hisnos_secure_workstatio.Policy.{
  Verdict, permit, refuse, can_start_lab, can_start_gaming, can_reload_firewall,
}
use hisnos_secure_workstatio.Ipc.Rule.{branch, serve_rule}
use hisnos_secure_workstatio.Ipc.{
  Request, Reply, Failure, not_persisted, Env, known_mode, guard_permits, ok,
}
use hisnos_secure_workstatio.Ipc.Dispatch.{
  Served, turned_down, update_or_fail, update_anyway, cmd_set_mode, cmd_lock_vault, if_permitted,
  cmd_start_lab, cmd_stop_lab, cmd_reload_firewall, cmd_prepare_update, cmd_start_gaming,
  cmd_stop_gaming, cmd_acknowledge_safe_mode, extension, enveloped, serve, dispatch,
}

module _ {B : Type 0} (json : Json SystemState B) where
  -- An error is told without an event; and nothing has changed, unless the error is that the new
  -- state could not be written: then the file is what it was.
  abbrev Told : Manager B → Served B → Type 0
  Told m r =
      (e : Failure)
      → r.2.result ≡ inr e
      → (r.1 ≡ [])
        × ((r.0 ≡ m) ⊎ ((p : PersistError) × (e ≡ not_persisted p) × (r.0.disk.live ≡ m.disk.live)))

  Told-turned_down :
      (req : Request) (f : Failure) (m : Manager B) → Told m (turned_down json req f m)
  Told-turned_down req f m e h = (refl, inl refl)

  Told-answered :
      (m m' : Manager B) (events : List String) (id : String) (reply : Reply)
      → Told m (m', events, ok id reply)
  Told-answered m m' events id reply e h = cc

  Told-update_anyway :
      (env : Env) (req : Request) (f : SystemState → SystemState) (event : String) (reply : Reply)
      (m : Manager B)
      → Told m (update_anyway json env req f event reply m)
  unfolding update_anyway
  Told-update_anyway env req f event reply m e h = cc

  Told-update_or_fail :
      (env : Env) (req : Request) (f : SystemState → SystemState) (event : String) (reply : Reply)
      (m : Manager B)
      → Told m (update_or_fail json env req f event reply m)
  unfolding update_or_fail
  Told-update_or_fail env req f event reply m e h =
      elim (Option-cases (update json env.fails env.now f m).1) [
        | inl q ↦ let bad = rw (q, update_or_fail) at h in cc
        | inr (p, q) ↦ elim (update-Persisted json env.fails env.now f m).2 [
          | inl (none_failed, _, _, _) ↦ cc
          | inr (p', q', kept) ↦
              let told = rw (q, update_or_fail) at h in
              rw (q, update_or_fail) (refl, inr (p, cc, kept))
        ]
      ]

  Told-cmd_set_mode :
      (env : Env) (req : Request) (m : Manager B) → Told m (cmd_set_mode json env req m)
  unfolding cmd_set_mode
  Told-cmd_set_mode env req m =
      branch (Told m) (str_eq req.params.mode "") (λ h. Told-turned_down req _ m)
        (elim (Option-cases (known_mode req.params.mode)) [
          | inl q ↦ rw q (Told-turned_down req _ m)
          | inr (to, q) ↦ rw q (
              branch (Told m) (guard_permits m.state.mode to)
                (λ h. Told-update_or_fail env req _ _ _ m) (Told-turned_down req _ m))
        ])

  Told-if_permitted :
      (v : Verdict) (req : Request) (m : Manager B) (rest : Served B)
      → Told m rest
      → Told m (if_permitted json v req m rest)
  Told-if_permitted permit req m rest h = h
  Told-if_permitted (refuse reason) req m rest h = Told-turned_down req _ m

  Told-cmd_prepare_update :
      (env : Env) (req : Request) (m : Manager B) → Told m (cmd_prepare_update json env req m)
  unfolding cmd_prepare_update
  Told-cmd_prepare_update env req m = elim (Option-cases env.preflight) [
    | inl q ↦ rw q (Told-turned_down req _ m)
    | inr ((code, output), q) ↦ rw q (
        branch (Told m) (at_least code 2) (λ h. Told-turned_down req _ m)
          (Told-update_anyway env req _ _ _ m))
  ]

  Told-cmd_acknowledge :
      (env : Env) (req : Request) (m : Manager B)
      → Told m (cmd_acknowledge_safe_mode json env req m)
  unfolding cmd_acknowledge_safe_mode
  Told-cmd_acknowledge env req m =
      branch (Told m) (not req.params.confirm) (λ h. Told-turned_down req _ m)
        (elim (Option-cases env.acknowledge) [
          | inl q ↦ rw q (Told-turned_down req _ m)
          | inr (accepts, q) ↦
              rw q
                (branch (Told m) _ (λ h. Told-answered m m _ req.id _) (Told-turned_down req _ m))
        ])

  Told-enveloped :
      (m : Manager B) (id : String) (r : Reply ⊎ String) → Told m (m, [], enveloped id r)
  Told-enveloped m id (inl d) = Told-answered m m [] id d
  Told-enveloped m id (inr t) = λ e h. (refl, inl refl)

  Told-extension : (env : Env) (req : Request) (m : Manager B) → Told m (extension json env req m)
  unfolding extension
  Told-extension env req m = elim (Option-cases (env.extensions req.command)) [
    | inl q ↦ rw (q, extension) (Told-turned_down req _ m)
    | inr (h, q) ↦ rw (q, extension) (Told-enveloped m req.id (h req.params))
  ]

  Told-serve : (env : Env) (req : Request) (m : Manager B) → Told m (serve json env req m)
  unfolding cmd_lock_vault cmd_start_lab cmd_stop_lab cmd_reload_firewall cmd_start_gaming
      cmd_stop_gaming
  Told-serve env req m = serve_rule json (Told m) env req m (record {
    on_get_state = Told-answered m m [] req.id _;
    on_set_mode = λ h. Told-cmd_set_mode env req m;
    on_lock_vault = λ h.
        branch (Told m) env.vault_locks (λ v. Told-update_anyway env req _ _ _ m)
          (Told-turned_down req _ m);
    on_start_lab = λ h.
        Told-if_permitted (can_start_lab m.state) req m _ (Told-update_or_fail env req _ _ _ m);
    on_stop_lab = λ h. Told-update_anyway env req _ _ _ m;
    on_reload_firewall = λ h. Told-if_permitted (can_reload_firewall m.state) req m _ (
        branch (Told m) env.firewall_reloads (λ v. Told-update_anyway env req _ _ _ m)
          (Told-turned_down req _ m));
    on_prepare_update = λ h. Told-cmd_prepare_update env req m;
    on_start_gaming = λ h. Told-if_permitted (can_start_gaming m.state) req m _ (
        branch (Told m) env.gaming_starts (λ v. Told-update_anyway env req _ _ _ m)
          (Told-turned_down req _ m));
    on_stop_gaming = λ h. Told-update_anyway env req _ _ _ m;
    on_acknowledge_alert = Told-answered m m [] req.id _;
    on_acknowledge = λ h. Told-cmd_acknowledge env req m;
    on_health = Told-answered m m [] req.id _;
    on_extension = Told-extension env req m;
  })

  Told-dispatch : (env : Env) (req : Request) (m : Manager B) → Told m (dispatch json env req m)
  unfolding dispatch
  Told-dispatch env req m = branch (Told m) _ (λ h. Told-turned_down req _ m) (Told-serve env req m)

  -- A request that is answered with an error has emitted no event; and it has changed nothing,
  -- unless the error is that the new state could not be written: then the file is what it was.
  pub dispatch_error :
      (env : Env) (req : Request) (m : Manager B) (e : Failure)
      → (dispatch json env req m).2.result ≡ inr e
      → let (m', events, reply) = dispatch json env req m in
        (events ≡ [])
        × ((m' ≡ m) ⊎ ((p : PersistError) × (e ≡ not_persisted p) × (m'.disk.live ≡ m.disk.live)))
  dispatch_error env req m e h = Told-dispatch env req m e h
