-- ===== src/Dashboard/Lab.antt =====
-- dashboard/backend/api: changing the mode (system.go), starting and stopping a lab session (lab.go)
-- and its network profile (lab_network.go). The limits and the command of a session, which only go into
-- its arguments and its file, are left out; so are journal lines. A body that is no JSON is `none`.
pub mod Staying
use text.Mathlib.Text.{◌==◌ as str_eq}
use hisnos_secure_workstatio.Common.{
  ℕ, Bool, true, false, not, ◌&&◌, ◌||◌, Option, none, some, List, [], ◌∷◌, String, ltb,
  if◌then◌else◌,
}
use hisnos_secure_workstatio.AtomicFile.{Json}
use hisnos_secure_workstatio.ControlPlane.{
  Mode, normal, gaming, lab_active, update_preparing, update_pending, rollback_mode,
  LabNetworkProfile, offline, allowlist, dns_sinkhole, http_proxy, profile_other, LabFacts,
  SystemState,
}
use hisnos_secure_workstatio.ControlPlane.Modes.{
  mode_eq, parse_mode, parse_lab_network_profile, profile_text,
}
use hisnos_secure_workstatio.ControlPlane.Manager.{
  Manager, Error, transitions, configures, step, ensure_loaded,
}
use hisnos_secure_workstatio.Dashboard.{
  forbidden_by_state, Reply, unconfirmed, unavailable, internal_error, bad_request, conflict,
  via_daemon, refused, done, Env, Served, with_snapshot, if_changed,
}
use hisnos_secure_workstatio.Dashboard.Updates.{move}

pub record LabStartRequest : Type 0 where
  pub profile : String
  pub sample_dir : String
  pub net_profile : String

-- What the surroundings of LabStart answer: whether a path is a directory, whether the unit of the
-- session in the lock file is active, whether the script can be executed, the new session's number, and
-- whether its file can be written and its unit starts. `meta` stands for the maps of the transitions.
pub record LabStart : Type 0 where
  pub body : Option LabStartRequest
  pub is_directory : String → Bool
  pub session_active : Bool
  pub script_executable : Bool
  pub session_id : Option String
  pub session_written : Bool
  pub unit_starts : Bool
  pub meta : String → String

-- `session` of LabStop: `none` is an error, `some none` that there is no file.
pub record LabStop : Type 0 where
  pub session : Option (Option String)
  pub meta : String → String

pub record LabNetworkRequest : Type 0 where
  pub network_profile : String
  pub allowed_cidrs : List String
  pub proxy_addr : String

-- The functions of strings, net and strconv that the checks of addresses call; `port_of` is Atoi, for
-- numbers that are not negative.
pub record LabNetwork : Type 0 where
  pub body : Option LabNetworkRequest
  pub trim_space : String → String
  pub contains_slash : String → Bool
  pub parse_cidr : String → Bool
  pub parse_ip : String → Bool
  pub split_host_port : String → Option (String × String)
  pub port_of : String → Option ℕ
  pub session_active : Bool
  pub meta : String

-- `true` is that there is no error.
unfoldable pub validate_cidrs : LabNetwork → List String → Bool
validate_cidrs net [] = true
validate_cidrs net (c ∷ rest) =
    let cidr = net.trim_space c in
    let others = validate_cidrs net rest in
    if str_eq cidr ""
    then false
    else if net.contains_slash cidr
    then net.parse_cidr cidr && others
    else net.parse_ip cidr && others

abbrev pub port_ok : Option ℕ → Bool
port_ok none = false
port_ok (some port) = not (ltb port 1) && not (ltb 65535 port)

unfoldable pub validate_proxy_addr : LabNetwork → String → Bool
validate_proxy_addr net addr = elim (net.split_host_port addr) [
  | none ↦ false
  | some (host, port) ↦ not (str_eq host "") && port_ok (net.port_of port)
]

abbrev pub is_empty : List String → Bool
is_empty [] = true
is_empty (x ∷ xs) = false

-- The switch over the profile.
abbrev pub profile_ok : LabNetwork → LabNetworkRequest → LabNetworkProfile → Bool
profile_ok net req allowlist =
    not (is_empty req.allowed_cidrs) && validate_cidrs net req.allowed_cidrs
profile_ok net req http_proxy =
    not (str_eq req.proxy_addr "") && validate_proxy_addr net req.proxy_addr
profile_ok net req dns_sinkhole = true
profile_ok net req offline = true
profile_ok net req (profile_other t) = true

abbrev pub facts_of : LabNetworkRequest → LabNetworkProfile → LabFacts
facts_of req profile = record {
  network_profile = profile;
  allowed_cidrs = req.allowed_cidrs;
  proxy_addr = req.proxy_addr;
  veth_host_iface = "";
  nft_session_set = "";
}

-- The profile of the request, or the stored one, or "offline".
abbrev pub effective_profile : LabStartRequest → LabFacts → String
effective_profile req lab =
    if not (str_eq req.net_profile "")
    then req.net_profile
    else if str_eq (profile_text lab.network_profile) ""
    then "offline"
    else profile_text lab.network_profile

abbrev pub is_operator_mode : Mode → Bool
is_operator_mode target =
    mode_eq target normal || (mode_eq target gaming || mode_eq target lab_active)

module _ {B : Type 0} (json : Json SystemState B) where
  -- The snapshot behind a transition is only for the reply.
  abbrev pub report : Env → Manager B → Served B
  report env m = ((ensure_loaded json (env.manager 2) m).0, done 0)

  unfoldable pub transition_loaded : Env → Mode → Manager B → Served B
  transition_loaded env target m =
      if mode_eq m.cached.mode update_preparing
        || (mode_eq m.cached.mode update_pending || mode_eq m.cached.mode rollback_mode)
      then (m, refused forbidden_by_state)
      else if_changed (report env) (
          step json (env.manager 1)
            (transitions target "system_mode_transition" "{\"source\":\"api\"}") m)

  unfoldable pub transition_local : Env → String → Manager B → Served B
  unfolding transition_loaded
  transition_local env text m = elim (parse_mode text) [
    | none ↦ (m, bad_request)
    | some target ↦
        if not (is_operator_mode target)
        then (m, refused forbidden_by_state)
        else with_snapshot json env (transition_loaded env target) m
  ]

  -- The daemon, where it is there, sets its own mode; the control plane hears nothing of it.
  unfoldable pub system_mode_transition : Env → Option String → Manager B → Served B
  unfolding transition_local
  system_mode_transition env body m =
      if not env.token_matches then (m, unconfirmed) else elim body [
        | none ↦ (m, bad_request)
        | some text ↦ elim env.daemon [
          | some works ↦ (m, if works then via_daemon else conflict)
          | none ↦ transition_local env text m
        ]
      ]

  -- systemd-run; if it fails the mode is set back, whose error is dropped.
  unfoldable pub run_lab : Env → LabStart → String → Mode → Manager B → Served B
  run_lab env lab id previous m =
      if lab.unit_starts
      then (m, done 0)
      else (move json (env.manager 2) previous "lab_start_failed" (lab.meta id) m, internal_error)

  unfoldable pub begin_lab : Env → LabStart → LabStartRequest → String → Manager B → Served B
  unfolding run_lab
  begin_lab env lab req id m =
      elim (parse_lab_network_profile (effective_profile req m.cached.lab)) [
        | none ↦ (m, bad_request)
        | some profile ↦
            if not lab.session_written
            then (m, internal_error)
            else if_changed (run_lab env lab id m.cached.mode)
                (step json (env.manager 1) (transitions lab_active "lab_start" (lab.meta id)) m)
      ]

  unfoldable pub start_loaded : Env → LabStart → LabStartRequest → Manager B → Served B
  unfolding begin_lab
  start_loaded env lab req m =
      if mode_eq m.cached.mode update_preparing
      then (m, refused forbidden_by_state)
      else if mode_eq m.cached.mode rollback_mode
      then (m, refused forbidden_by_state)
      else if lab.session_active
      then (m, refused forbidden_by_state)
      else if not lab.script_executable
      then (m, unavailable)
      else elim lab.session_id [ none ↦ (m, internal_error) | some id ↦ begin_lab env lab req id m ]

  unfoldable pub lab_start : Env → LabStart → Manager B → Served B
  unfolding start_loaded
  lab_start env lab m = if not env.token_matches then (m, unconfirmed) else elim lab.body [
    | none ↦ (m, bad_request)
    | some req ↦
        if not (str_eq req.profile "" || str_eq req.profile "isolated")
        then (m, bad_request)
        else if not (str_eq req.sample_dir "") && not (lab.is_directory req.sample_dir)
        then (m, bad_request)
        else with_snapshot json env (start_loaded env lab req) m
  ]

  -- The errors of the snapshot and of the transition are dropped.
  unfoldable pub end_lab : Env → String → Manager B → Manager B
  end_lab env meta m =
      let snap = (ensure_loaded json (env.manager 0) m).0 in
      if mode_eq snap.cached.mode lab_active
      then move json (env.manager 1) normal "lab_stop" meta snap
      else snap

  unfoldable pub lab_stop : Env → LabStop → Manager B → Served B
  unfolding end_lab
  lab_stop env stop m = if not env.token_matches then (m, unconfirmed) else elim stop.session [
    | none ↦ (m, internal_error)
    | some none ↦ (m, refused forbidden_by_state)
    | some (some id) ↦ (end_lab env (stop.meta id) m, done 0)
  ]

  -- Every error of the manager is answered alike.
  abbrev pub stored : Manager B × Option Error → Served B
  stored (m, none) = (m, done 0)
  stored (m, some e) = (m, internal_error)

  unfoldable pub set_network : Env → LabNetwork → LabNetworkRequest → Manager B → Served B
  set_network env net req m = elim (parse_lab_network_profile req.network_profile) [
    | none ↦ (m, bad_request)
    | some profile ↦
        if not (profile_ok net req profile)
        then (m, bad_request)
        else if net.session_active
        then (m, refused forbidden_by_state)
        else stored (
            step json (env.manager 0)
              (configures (facts_of req profile) "lab_network_profile_set" net.meta) m)
  ]

  unfoldable pub lab_network_profile_set : Env → LabNetwork → Manager B → Served B
  unfolding set_network
  lab_network_profile_set env net m =
      if not env.token_matches
      then (m, unconfirmed)
      else elim net.body [ none ↦ (m, bad_request) | some req ↦ set_network env net req m ]
