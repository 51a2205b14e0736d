-- ===== src/Onboarding/Tests.antt =====
-- The wizard at concrete states.
use hisnos_secure_workstatio.Common.{◌≡◌, true, false, none, some, List, [], ◌∷◌, String}
use hisnos_secure_workstatio.AtomicFile.{Json}
use hisnos_secure_workstatio.AtomicFile.Tests.{no_fault, disk_full}
use hisnos_secure_workstatio.Onboarding.{
  vault, verify, OnboardingState, initial_state, lookup_step, step_marked, Manager,
}
use hisnos_secure_workstatio.Onboarding.Pages.{
  PageEnv, Request, step_welcome, step_vault, step_firewall, step_threat, step_gaming, complete,
  serve_all,
}
use hisnos_secure_workstatio.Onboarding.Flags.{serve_all-flags}

abbrev after_vault : OnboardingState
after_vault = step_marked vault (initial_state "t0" [])

-- An encoding of one state.
abbrev one : Json OnboardingState String
one = record { marshal_indent = λ s. some "state"; unmarshal = λ t. some after_vault }

abbrev first : Manager String
first = record { state = initial_state "t0" []; disk = record { live = none; temp = none } }

abbrev visitor : PageEnv
visitor = record {
  fails_warning = no_fault;
  fails_update = no_fault;
  fails_mark = disk_full;
  len = λ t. 14;
  vault_inits = λ p. true;
  reload_error = some "exit status 1";
  user = "";
  sudo_usermod = λ u. false;
  pkexec_usermod = λ u. false;
  step_text = λ s. "step";
  now = "t9";
}

-- The whole wizard, on a disk that is full.
abbrev walk : List (PageEnv × Request)
walk =
    (visitor, step_welcome)
    ∷ (visitor, step_vault (some (record { passphrase = "correct horse"; skip = false })))
    ∷ (visitor, step_firewall (some "strict"))
    ∷ (visitor, step_threat (some true))
    ∷ (visitor, step_gaming (some true))
    ∷ (visitor, complete)
    ∷ []

-- The last step is not complete, and the wizard is.
serve_all-flags_example :
    let s = (serve_all one walk first).state in
    (lookup_step verify s.steps ≡ none) × (s.completed ≡ true)
unfolding lookup_step
serve_all-flags_example = serve_all-flags one walk verify first
