-- ===== src/Dashboard/Lab/Staying.antt =====
-- dashboard/backend/api: system.go, lab.go and lab_network.go in rollback-mode.
use hisnos_secure_workstatio.Common.{
  ◌≡◌, ap, ◌∙◌, inl, inr, true, false, Option, none, some, String, Bool-cases, Option-cases,
}
use text.Mathlib.Text.{◌==◌ as str_eq}
use hisnos_secure_workstatio.Common.{not, ◌&&◌, ◌||◌}
use hisnos_secure_workstatio.AtomicFile.{Json}
use hisnos_secure_workstatio.ControlPlane.{
  update_preparing, update_pending, rollback_mode, lab_active, Mode, LabFacts, SystemState,
}
use hisnos_secure_workstatio.ControlPlane.Modes.{parse_mode, parse_lab_network_profile}
use hisnos_secure_workstatio.ControlPlane.Manager.{Manager, Error, configures, step}
use hisnos_secure_workstatio.ControlPlane.Manager.Laws.{step-Wrote, ensure_loaded_of_valid}
use hisnos_secure_workstatio.Dashboard.{Env}
use hisnos_secure_workstatio.Dashboard.Updates.Moves.{In}
use hisnos_secure_workstatio.Dashboard.Devices.Staying.{Stays, in_mode, snapshot-Stays}
use hisnos_secure_workstatio.Dashboard.Lab.{
  LabStart, LabStartRequest, LabStop, LabNetwork, LabNetworkRequest, is_operator_mode, profile_ok,
  facts_of, transition_loaded, transition_local, system_mode_transition, start_loaded, lab_start,
  end_lab, lab_stop, stored, set_network, lab_network_profile_set,
}

stored-Stays :
    {B : Type 0} (json : Json SystemState B) (t : Manager B × Option Error)
    → In t.0 rollback_mode
    → Stays (stored json t)
stored-Stays json (m, none) i = i
stored-Stays json (m, some e) i = i

module _ {B : Type 0} (json : Json SystemState B) where
  transition_loaded-Stays :
      (env : Env) (target : Mode) (m : Manager B)
      → In m rollback_mode
      → Stays (transition_loaded json env target m)
  unfolding transition_loaded
  transition_loaded-Stays env target m i =
      simp (in_mode m update_preparing i, in_mode m update_pending i, in_mode m rollback_mode i) i

  transition_local-Stays :
      (env : Env) (text : String) (m : Manager B)
      → In m rollback_mode
      → Stays (transition_local json env text m)
  unfolding transition_local
  transition_local-Stays env text m i = elim (Option-cases (parse_mode text)) [
    | inl e ↦ simp (transition_local, e) i
    | inr (target, e) ↦ elim (Bool-cases (is_operator_mode target)) [
      | inr n ↦ simp (transition_local, e, n) i
      | inl y ↦
          simp (transition_local, e, y)
            (snapshot-Stays json env (transition_loaded json env target) m i
              (transition_loaded-Stays env target m i))
    ]
  ]

  pub transition-Stays :
      (env : Env) (body : Option String) (m : Manager B)
      → In m rollback_mode
      → Stays (system_mode_transition json env body m)
  unfolding system_mode_transition
  transition-Stays env body m i = elim (Bool-cases env.token_matches) [
    | inr n ↦ simp n i
    | inl t ↦ elim (Option-cases body) [
      | inl e ↦ simp (system_mode_transition, t, e) i
      | inr (text, e) ↦ elim (Option-cases env.daemon) [
        | inr (works, d) ↦ simp (system_mode_transition, t, e, d) i
        | inl d ↦ simp (system_mode_transition, t, e, d) (transition_local-Stays env text m i)
      ]
    ]
  ]

  start_loaded-Stays :
      (env : Env) (lab : LabStart) (req : LabStartRequest) (m : Manager B)
      → In m rollback_mode
      → Stays (start_loaded json env lab req m)
  unfolding start_loaded
  start_loaded-Stays env lab req m i =
      simp (in_mode m update_preparing i, in_mode m rollback_mode i) i

  pub start-Stays :
      (env : Env) (lab : LabStart) (m : Manager B)
      → In m rollback_mode
      → Stays (lab_start json env lab m)
  unfolding lab_start
  start-Stays env lab m i = elim (Bool-cases env.token_matches) [
    | inr n ↦ simp n i
    | inl t ↦ elim (Option-cases lab.body) [
      | inl e ↦ simp (lab_start, t, e) i
      | inr (req, e) ↦ elim (Bool-cases (str_eq req.profile "" || str_eq req.profile "isolated")) [
        | inr n ↦ simp (lab_start, t, e, n) i
        | inl y ↦
            elim (Bool-cases
              (not (str_eq req.sample_dir "") && not (lab.is_directory req.sample_dir))) [
                | inl bad ↦ simp (lab_start, t, e, y, bad) i
                | inr ok ↦
                    simp (lab_start, t, e, y, ok)
                      (snapshot-Stays json env (start_loaded json env lab req) m i
                        (start_loaded-Stays env lab req m i))
              ]
      ]
    ]
  ]

  end_lab-In :
      (env : Env) (meta : String) (m : Manager B)
      → In m rollback_mode
      → In (end_lab json env meta m) rollback_mode
  unfolding end_lab
  end_lab-In env meta m i =
      simp (ensure_loaded_of_valid json (env.manager 0) m i.0, in_mode m lab_active i) i

  pub stop-Stays :
      (env : Env) (stop : LabStop) (m : Manager B)
      → In m rollback_mode
      → Stays (lab_stop json env stop m)
  unfolding lab_stop
  stop-Stays env stop m i = elim (Bool-cases env.token_matches) [
    | inr n ↦ simp n i
    | inl t ↦ elim (Option-cases stop.session) [
      | inl e ↦ simp (lab_stop, t, e) i
      | inr (none, e) ↦ simp (lab_stop, t, e) i
      | inr (some id, e) ↦ simp (lab_stop, t, e) (end_lab-In env (stop.meta id) m i)
    ]
  ]

  configures-In :
      (env : Env) (facts : LabFacts) (action meta : String) (m : Manager B)
      → In m rollback_mode
      → In (step json (env.manager 0) (configures facts action meta) m).0 rollback_mode
  configures-In env facts action meta m i =
      elim (step-Wrote json (env.manager 0) (configures facts action meta) m i.0) [
        | inl (a, (w, k, _)) ↦ (k ∙ i.0, ap (λ (s : SystemState). s.mode) w ∙ i.1)
        | inr (a, r) ↦ absurd (let bad : true ≡ false = a in cc)
      ]

  set_network-Stays :
      (env : Env) (net : LabNetwork) (req : LabNetworkRequest) (m : Manager B)
      → In m rollback_mode
      → Stays (set_network json env net req m)
  unfolding set_network
  set_network-Stays env net req m i =
      elim (Option-cases (parse_lab_network_profile req.network_profile)) [
        | inl e ↦ simp (set_network, e) i
        | inr (profile, e) ↦ elim (Bool-cases (profile_ok net req profile)) [
          | inr n ↦ simp (set_network, e, n) i
          | inl y ↦ elim (Bool-cases net.session_active) [
            | inl a ↦ simp (set_network, e, y, a) i
            | inr a ↦
                simp (set_network, e, y, a)
                  (stored-Stays json
                    (step json (env.manager 0)
                      (configures (facts_of req profile) "lab_network_profile_set" net.meta) m)
                    (configures-In env (facts_of req profile) "lab_network_profile_set" net.meta m
                      i))
          ]
        ]
      ]

  pub network-Stays :
      (env : Env) (net : LabNetwork) (m : Manager B)
      → In m rollback_mode
      → Stays (lab_network_profile_set json env net m)
  unfolding lab_network_profile_set
  network-Stays env net m i = elim (Bool-cases env.token_matches) [
    | inr n ↦ simp n i
    | inl t ↦ elim (Option-cases net.body) [
      | inl e ↦ simp (lab_network_profile_set, t, e) i
      | inr (req, e) ↦ simp (lab_network_profile_set, t, e) (set_network-Stays env net req m i)
    ]
  ]
