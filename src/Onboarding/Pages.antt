-- ===== src/Onboarding/Pages.antt =====
-- onboarding/backend/api/wizard.go: the handlers that change the wizard's state. The pages that only
-- report are left out, and so are the files that other daemons read, the texts of a reply other than
-- its status, and the service that Complete disables. A body that is no JSON is `none`.
use Prim.Native.String.{◌++◌ as str_append}
use text.Mathlib.Text.{◌==◌ as str_eq}
use hisnos_secure_workstatio.Common.{
  ℕ, Bool, true, not, ◌||◌, Option, none, some, List, [], ◌∷◌, String, ltb, if◌then◌else◌,
}
use hisnos_secure_workstatio.AtomicFile.{Json, FileStep}
use hisnos_secure_workstatio.State.Manager.{PersistError}
use hisnos_secure_workstatio.Onboarding.{
  StepName, welcome, vault, firewall, threat, gaming, OnboardingState, Manager, update,
  mark_step_complete, mark_complete, add_warning,
}

pub record VaultRequest : Type 0 where
  pub passphrase : String
  pub skip : Bool

pub data Request : Type 0 where
  step_welcome : Request
  step_vault : Option VaultRequest → Request
  step_firewall : Option String → Request
  step_threat : Option Bool → Request
  step_gaming : Option Bool → Request
  complete : Request
  skip_step : Option (StepName × String) → Request

-- The surroundings of one request: what fails on the disk when the request adds its warning, makes
-- its update and marks its step; the length of a text in bytes; the vault script with a passphrase;
-- the error of the reload of nftables; USER or LOGNAME; usermod by sudo and by pkexec; the names of
-- the steps; and the clock.
pub record PageEnv : Type 0 where
  pub fails_warning : FileStep → Bool
  pub fails_update : FileStep → Bool
  pub fails_mark : FileStep → Bool
  pub len : String → ℕ
  pub vault_inits : String → Bool
  pub reload_error : Option String
  pub user : String
  pub sudo_usermod : String → Bool
  pub pkexec_usermod : String → Bool
  pub step_text : StepName → String
  pub now : String

abbrev pub is_profile : String → Bool
is_profile p = str_eq p "strict" || (str_eq p "balanced" || str_eq p "gaming-ready")

abbrev pub status_of : Option PersistError → ℕ
status_of none = 200
status_of (some e) = 500

-- The warnings of StepGaming: at most one.
abbrev pub gaming_warning : PageEnv → Bool → Option String
gaming_warning env enable =
    if not enable
    then none
    else if str_eq env.user ""
    then some
        "Cannot determine current user ($USER unset); add manually: sudo usermod -aG hisnos-gaming <user>"
    else if env.sudo_usermod env.user || env.pkexec_usermod env.user
    then none
    else some
        "Gaming group membership requires root. Run manually: sudo usermod -aG hisnos-gaming <user> && reboot"

abbrev pub reload_warning : Option String → Option String
reload_warning none = none
reload_warning (some e) = some (
    str_append "nftables reload failed: "
      (str_append e " — run manually: sudo systemctl reload-or-restart nftables"))

abbrev pub vault_skipped : String
vault_skipped = "vault init skipped by user"

abbrev pub skip_warning : PageEnv → StepName → String → String
skip_warning env step reason =
    str_append "step " (str_append (env.step_text step) (str_append " skipped: " reason))

module _ {B : Type 0} (json : Json OnboardingState B) where
  -- The error of a warning, an update or a mark is dropped.
  abbrev pub warn : PageEnv → Option String → Manager B → Manager B
  warn env none m = m
  warn env (some line) m = (add_warning json env.fails_warning line m).0

  abbrev pub mark : PageEnv → StepName → Manager B → Manager B
  mark env step m = (mark_step_complete json env.fails_mark step m).0

  abbrev pub set : PageEnv → (OnboardingState → OnboardingState) → Manager B → Manager B
  set env f m = (update json env.fails_update f m).0

  -- The reply is the status.
  unfoldable pub serve_welcome : PageEnv → Manager B → Manager B × ℕ
  serve_welcome env m =
      let (m', e) = mark_step_complete json env.fails_mark welcome m in (m', status_of e)

  unfoldable pub serve_vault : PageEnv → Option VaultRequest → Manager B → Manager B × ℕ
  serve_vault env none m = (m, 400)
  serve_vault env (some r) m =
      if r.skip
      then (mark env vault (warn env (some vault_skipped) m), 200)
      else if ltb (env.len r.passphrase) 12
      then (m, 400)
      else if not (env.vault_inits r.passphrase)
      then (m, 500)
      else (mark env vault (set env (λ s. record s { vault_initialized = true }) m), 200)

  unfoldable pub serve_firewall : PageEnv → Option String → Manager B → Manager B × ℕ
  serve_firewall env none m = (m, 400)
  serve_firewall env (some p) m = if not (is_profile p) then (m, 400) else (
    mark env firewall (
        set env (λ s. record s { firewall_profile = p })
          (warn env (reload_warning env.reload_error) m)),
    200,
  )

  unfoldable pub serve_threat : PageEnv → Option Bool → Manager B → Manager B × ℕ
  serve_threat env none m = (m, 400)
  serve_threat env (some on) m =
      (mark env threat (set env (λ s. record s { threat_notify = on }) m), 200)

  unfoldable pub serve_gaming : PageEnv → Option Bool → Manager B → Manager B × ℕ
  serve_gaming env none m = (m, 400)
  serve_gaming env (some enable) m = (
    mark env gaming (
        set env (λ s. record s { gaming_group_enabled = enable })
          (warn env (gaming_warning env enable) m)),
    200,
  )

  unfoldable pub serve_complete : PageEnv → Manager B → Manager B × ℕ
  serve_complete env m =
      let (m', e) = mark_complete json env.fails_mark env.now m in (m', status_of e)

  unfoldable pub serve_skip : PageEnv → Option (StepName × String) → Manager B → Manager B × ℕ
  serve_skip env none m = (m, 400)
  serve_skip env (some (step, reason)) m =
      (mark env step (warn env (some (skip_warning env step reason)) m), 200)

  unfoldable pub serve : PageEnv → Request → Manager B → Manager B × ℕ
  unfolding serve_welcome serve_vault serve_firewall serve_threat serve_gaming serve_complete
      serve_skip
  serve env step_welcome m = serve_welcome env m
  serve env (step_vault r) m = serve_vault env r m
  serve env (step_firewall p) m = serve_firewall env p m
  serve env (step_threat on) m = serve_threat env on m
  serve env (step_gaming on) m = serve_gaming env on m
  serve env complete m = serve_complete env m
  serve env (skip_step s) m = serve_skip env s m

  -- Requests one after the other.
  unfoldable pub serve_all : List (PageEnv × Request) → Manager B → Manager B
  unfolding serve
  serve_all [] m = m
  serve_all ((env, r) ∷ rest) m = serve_all rest (serve env r m).0
