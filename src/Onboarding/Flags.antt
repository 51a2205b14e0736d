-- ===== src/Onboarding/Flags.antt =====
-- onboarding/backend/api/wizard.go: which steps are complete after requests to the wizard.
use text.Mathlib.Text.{◌==◌ as str_eq}
use hisnos_secure_workstatio.Common.{
  ◌≡◌, refl, ap, ◌∙◌, inl, inr, Bool, true, false, ◌&&◌, ◌||◌, Option, none, some, List, [], ◌∷◌,
  String, Bool-cases, arith, leb, ltb, if◌then◌else◌,
}
use hisnos_secure_workstatio.AtomicFile.{Json}
use hisnos_secure_workstatio.Onboarding.{
  StepName, welcome, vault, firewall, threat, gaming, step_eq, StepState, OnboardingState,
  lookup_step, done, Manager, update, mark_step_complete, mark_complete, add_warning, warned,
  completed_marked,
}
use hisnos_secure_workstatio.Onboarding.Wizard.{mark_step_complete-lookup_step}
use hisnos_secure_workstatio.Onboarding.Pages.{
  VaultRequest, Request, step_welcome, step_vault, step_firewall, step_threat, step_gaming,
  complete, skip_step, PageEnv, gaming_warning, reload_warning, vault_skipped, skip_warning,
  serve_welcome, serve_vault, serve_firewall, serve_threat, serve_gaming, serve_complete,
  serve_skip, serve, serve_all, mark, set, warn,
}

-- The step that a request completes. For the vault: it is skipped, or the passphrase has twelve bytes
-- and the script takes it. Complete completes none.
abbrev pub earns : PageEnv → Request → Option StepName
earns env step_welcome = some welcome
earns env (step_vault none) = none
earns env (step_vault (some r)) =
    if r.skip || (leb 12 (env.len r.passphrase) && env.vault_inits r.passphrase)
    then some vault
    else none
earns env (step_firewall none) = none
earns env (step_firewall (some p)) =
    if str_eq p "strict"
    then some firewall
    else if str_eq p "balanced"
    then some firewall
    else if str_eq p "gaming-ready"
    then some firewall
    else none
earns env (step_threat none) = none
earns env (step_threat (some on)) = some threat
earns env (step_gaming none) = none
earns env (step_gaming (some on)) = some gaming
earns env complete = none
earns env (skip_step none) = none
earns env (skip_step (some (step, reason))) = some step

abbrev pub names : StepName → Option StepName → Bool
names t none = false
names t (some step) = step_eq step t

-- One of the requests earned the step.
abbrev pub earned : StepName → List (PageEnv × Request) → Bool
earned t [] = false
earned t ((env, r) ∷ rest) = names t (earns env r) || earned t rest

abbrev pub finishes : Request → Bool
finishes complete = true
finishes step_welcome = false
finishes (step_vault r) = false
finishes (step_firewall p) = false
finishes (step_threat on) = false
finishes (step_gaming on) = false
finishes (skip_step s) = false

abbrev pub finished : List (PageEnv × Request) → Bool
finished [] = false
finished ((env, r) ∷ rest) = finishes r || finished rest

abbrev flag : StepName → OnboardingState → Option StepState
flag t s = lookup_step t s.steps

merged :
    (a b : Bool) (x : Option StepState)
    → (if b then some done else if a then some done else x) ≡ (if a || b then some done else x)
merged a b x = ground arith

swapped : (a b c : Bool) → (b || (a || c)) ≡ ((a || b) || c)
swapped a b c = ground arith

module _ {B : Type 0} (json : Json OnboardingState B) where
  -- A request that earns `step` sets its flag and no other; `over` says whether it is Complete.
  abbrev Sets : Option StepName → Bool → StepName → Manager B → Manager B → Type 0
  Sets step over t m m' =
      (flag t m'.state ≡ (if names t step then some done else flag t m.state))
      × (m'.state.completed ≡ (over || m.state.completed))

  mark-Sets :
      (env : PageEnv) (step t : StepName) (m m' : Manager B)
      → Sets none false t m m'
      → Sets (some step) false t m (mark json env step m')
  unfolding mark_step_complete update
  mark-Sets env step t m m' (k, c) = (
    mark_step_complete-lookup_step json env.fails_mark t step m'
        ∙ ap (λ x. if step_eq step t then some done else x) k,
    c,
  )

  welcome-Sets :
      (env : PageEnv) (t : StepName) (m : Manager B)
      → Sets (some welcome) false t m (serve_welcome json env m).0
  unfolding serve_welcome
  welcome-Sets env t m = mark-Sets env welcome t m m (refl, refl)

  warn-Sets :
      (env : PageEnv) (w : Option String) (t : StepName) (m : Manager B)
      → Sets none false t m (warn json env w m)
  unfolding add_warning update warned
  warn-Sets env none t m = (refl, refl)
  warn-Sets env (some line) t m = (refl, refl)

  vault-Sets :
      (env : PageEnv) (r : Option VaultRequest) (t : StepName) (m : Manager B)
      → Sets (earns env (step_vault r)) false t m (serve_vault json env r m).0
  unfolding serve_vault update
  vault-Sets env none t m = (refl, refl)
  vault-Sets env (some r) t m = elim (Bool-cases r.skip) [
    | inl y ↦ simp y (
        mark-Sets env vault t m (warn json env (some vault_skipped) m)
          (warn-Sets env (some vault_skipped) t m))
    | inr n ↦ elim (Bool-cases (leb 12 (env.len r.passphrase))) [
      | inr short ↦
          let refused : ltb (env.len r.passphrase) 12 ≡ true = ground arith in
          simp (n, short, refused) (refl, refl)
      | inl long ↦
          let taken : ltb (env.len r.passphrase) 12 ≡ false = ground arith in
          elim (Bool-cases (env.vault_inits r.passphrase)) [
            | inr f ↦ simp (n, long, taken, f) (refl, refl)
            | inl ok ↦
                simp (n, long, taken, ok)
                  (mark-Sets env vault t m
                    (set json env (λ s. record s { vault_initialized = true }) m) (refl, refl))
          ]
    ]
  ]

  firewall-Sets :
      (env : PageEnv) (p : Option String) (t : StepName) (m : Manager B)
      → Sets (earns env (step_firewall p)) false t m (serve_firewall json env p m).0
  unfolding serve_firewall update
  firewall-Sets env none t m = (refl, refl)
  firewall-Sets env (some p) t m =
      let chosen =
        mark-Sets env firewall t m
          (set json env (λ s. record s { firewall_profile = p })
            (warn json env (reload_warning env.reload_error) m))
          (warn-Sets env (reload_warning env.reload_error) t m) in
      elim (Bool-cases (str_eq p "strict")) [
        | inl y ↦ simp y chosen
        | inr n ↦ elim (Bool-cases (str_eq p "balanced")) [
          | inl y ↦ simp (n, y) chosen
          | inr n2 ↦ elim (Bool-cases (str_eq p "gaming-ready")) [
            | inl y ↦ simp (n, n2, y) chosen
            | inr n3 ↦ simp (n, n2, n3) (refl, refl)
          ]
        ]
      ]

  serve-Sets :
      (env : PageEnv) (r : Request) (t : StepName) (m : Manager B)
      → Sets (earns env r) (finishes r) t m (serve json env r m).0
  unfolding serve serve_threat serve_gaming serve_complete serve_skip mark_complete update
      completed_marked
  serve-Sets env step_welcome t m = welcome-Sets env t m
  serve-Sets env (step_vault r) t m = vault-Sets env r t m
  serve-Sets env (step_firewall p) t m = firewall-Sets env p t m
  serve-Sets env (step_threat none) t m = (refl, refl)
  serve-Sets env (step_threat (some on)) t m =
      mark-Sets env threat t m (set json env (λ s. record s { threat_notify = on }) m) (refl, refl)
  serve-Sets env (step_gaming none) t m = (refl, refl)
  serve-Sets env (step_gaming (some on)) t m =
      mark-Sets env gaming t m
        (set json env (λ s. record s { gaming_group_enabled = on })
          (warn json env (gaming_warning env on) m))
        (warn-Sets env (gaming_warning env on) t m)
  serve-Sets env complete t m = (refl, refl)
  serve-Sets env (skip_step none) t m = (refl, refl)
  serve-Sets env (skip_step (some (step, reason))) t m =
      mark-Sets env step t m (warn json env (some (skip_warning env step reason)) m)
        (warn-Sets env (some (skip_warning env step reason)) t m)

  -- After any requests to the wizard, whatever fails on the disk: a step is complete if one of them
  -- earned it, and else as it was before; and the wizard is finished if one of them was Complete, or it
  -- was before. A page earns its step: welcome always; the vault if it is skipped, or if the passphrase
  -- has twelve bytes and the script takes it; the firewall with one of its three profiles; threat and
  -- gaming with any choice; and a skip earns the step that it names. Complete earns none.
  pub serve_all-flags :
      (rs : List (PageEnv × Request)) (t : StepName) (m : Manager B)
      → let s = (serve_all json rs m).state in
        (lookup_step t s.steps ≡ (if earned t rs then some done else lookup_step t m.state.steps))
        × (s.completed ≡ (finished rs || m.state.completed))
  unfolding serve_all
  serve_all-flags [] t m = (refl, refl)
  serve_all-flags ((env, r) ∷ rest) t m =
      let (k, c) = serve-Sets env r t m in
      let (ks, cs) = serve_all-flags rest t (serve json env r m).0 in
      (
        ks
            ∙ ap (λ x. if earned t rest then some done else x) k
            ∙ merged (names t (earns env r)) (earned t rest) (flag t m.state),
        cs
            ∙ ap (λ x. finished rest || x) c
            ∙ swapped (finishes r) (finished rest) m.state.completed,
      )
