-- ===== src/Ipc/Rule.antt =====
-- core/ipc/server.go: to show something of the answer to every request, show it of each handler.
use text.Mathlib.Text.{◌==◌ as str_eq}
use hisnos_secure_workstatio.Common.{◌≡◌, refl, Bool, true, false, [], if◌then◌else◌}
use hisnos_secure_workstatio.AtomicFile.{Json}
use hisnos_secure_workstatio.State.{SystemState}
use hisnos_secure_workstatio.State.Manager.{Manager}
use hisnos_secure_workstatio.Ipc.{Request, snapshot, health_of, acknowledged, ok, Env}
use hisnos_secure_workstatio.Ipc.Dispatch.{
  Served, cmd_set_mode, cmd_lock_vault, cmd_start_lab, cmd_stop_lab, cmd_reload_firewall,
  cmd_prepare_update, cmd_start_gaming, cmd_stop_gaming, cmd_acknowledge_safe_mode, extension,
  serve,
}

pub branch {ℓ κ} :
    {A : Type ℓ} (P : A → Type κ) (b : Bool) {x y : A}
    → (b ≡ true → P x)
    → P y
    → P (if b then x else y)
branch P true h k = h refl
branch P false h k = k

module _ {B : Type 0} (json : Json SystemState B) where
  pub record ServeCases (P : Served B → Type 0) (env : Env) (req : Request) (m : Manager B)
      : Type 0 where
    pub on_get_state : P (m, [], ok req.id (snapshot m.state))
    pub on_set_mode : str_eq req.command "set_mode" ≡ true → P (cmd_set_mode json env req m)
    pub on_lock_vault : str_eq req.command "lock_vault" ≡ true → P (cmd_lock_vault json env req m)
    pub on_start_lab : str_eq req.command "start_lab" ≡ true → P (cmd_start_lab json env req m)
    pub on_stop_lab : str_eq req.command "stop_lab" ≡ true → P (cmd_stop_lab json env req m)
    pub on_reload_firewall :
        str_eq req.command "reload_firewall" ≡ true → P (cmd_reload_firewall json env req m)
    pub on_prepare_update :
        str_eq req.command "prepare_update" ≡ true → P (cmd_prepare_update json env req m)
    pub on_start_gaming :
        str_eq req.command "start_gaming" ≡ true → P (cmd_start_gaming json env req m)
    pub on_stop_gaming :
        str_eq req.command "stop_gaming" ≡ true → P (cmd_stop_gaming json env req m)
    pub on_acknowledge_alert : P (m, [], ok req.id acknowledged)
    pub on_acknowledge :
        str_eq req.command "acknowledge_safe_mode" ≡ true
        → P (cmd_acknowledge_safe_mode json env req m)
    pub on_health : P (m, [], ok req.id (health_of m.state))
    pub on_extension : P (extension json env req m)

  pub serve_rule :
      (P : Served B → Type 0) (env : Env) (req : Request) (m : Manager B)
      → ServeCases P env req m
      → P (serve json env req m)
  unfolding serve
  serve_rule P env req m c =
      branch P _ (λ h. c.on_get_state)
        (branch P _ c.on_set_mode (
          branch P _ c.on_lock_vault (
            branch P _ c.on_start_lab (
              branch P _ c.on_stop_lab (
                branch P _ c.on_reload_firewall (
                  branch P _ c.on_prepare_update (
                    branch P _ c.on_start_gaming (
                      branch P _ c.on_stop_gaming (
                        branch P _ (λ h. c.on_acknowledge_alert)
                          (branch P _ c.on_acknowledge
                            (branch P _ (λ h. c.on_health) c.on_extension)))))))))))
