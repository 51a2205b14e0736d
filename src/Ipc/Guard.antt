-- ===== src/Ipc/Guard.antt =====
-- core/ipc/server.go: `guardModeTransition`, which `set_mode` asks and `prepare_update` does not.
use hisnos_secure_workstatio.Common.{ℤ, ◌≡◌, refl, ap, ◌∙◌, false, some, String, at_least}
use hisnos_secure_workstatio.AtomicFile.{Json}
use hisnos_secure_workstatio.State.{SystemState, update_preparing, rollback_mode}
use hisnos_secure_workstatio.State.Manager.{Manager}
use hisnos_secure_workstatio.State.Manager.Laws.{update-Persisted, updated-mode}
use hisnos_secure_workstatio.Ipc.{
  Params, Request, forbidden, Env, known_mode, guard_permits, is_read_only, preparing,
}
use hisnos_secure_workstatio.Ipc.Dispatch.{
  turned_down, cmd_set_mode, cmd_prepare_update, is_gated, dispatch, serve, update_anyway,
}

-- The request with this command and these parameters.
abbrev pub command : String → String → Params → Request
command id c p = record { id = id; command = c; params = p }

module _ {B : Type 0} (json : Json SystemState B) where
  prepared-mode :
      (env : Env) (id : String) (p : Params) (m : Manager B) (code : ℤ) (output : String)
      → env.preflight ≡ some (code, output)
      → at_least code 2 ≡ false
      → (cmd_prepare_update json env (command id "prepare_update" p) m).0.state.mode
        ≡ update_preparing
  unfolding cmd_prepare_update update_anyway
  prepared-mode env id p m code output f c =
      rw (f, c)
        (ap (λ (t : SystemState). t.mode) (update-Persisted json env.fails env.now preparing m).0
          ∙ updated-mode env.now preparing m.state)

  -- In rollback mode `set_mode` refuses to go to update-preparing; but `prepare_update` goes there,
  -- if the preflight script runs with a code below 2 and the gate lets both commands pass.
  pub guard_bypassed :
      (env : Env) (id : String) (p : Params) (m : Manager B) (code : ℤ) (output : String)
      → m.state.mode ≡ rollback_mode
      → p.mode ≡ "update-preparing"
      → env.preflight ≡ some (code, output)
      → at_least code 2 ≡ false
      → is_gated json env.gate "set_mode" ≡ false
      → is_gated json env.gate "prepare_update" ≡ false
      → let asked = command id "set_mode" p in
        (dispatch json env asked m
          ≡ turned_down json asked (forbidden rollback_mode update_preparing) m)
        × ((dispatch json env (command id "prepare_update" p) m).0.state.mode ≡ update_preparing)
  unfolding dispatch serve cmd_set_mode known_mode guard_permits is_read_only
  guard_bypassed env id p m code output s q f c g h =
      (rw (g, q, s) refl, rw h (prepared-mode env id p m code output f c))
