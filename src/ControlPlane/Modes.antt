-- ===== src/ControlPlane/Modes.antt =====
-- dashboard/backend/state/control_plane.go: allowedTransitions, ParseMode and
-- ParseLabNetworkProfile.
use text.Mathlib.Text.{◌==◌ as str_eq}
use text.Mathlib.TextEquality.{eq_iff}
use mathlib.Core.Path.{subst}
use hisnos_secure_workstatio.Common.{
  ◌≡◌, refl, ◌↔◌, Bool, true, false, not, ◌&&◌, ◌||◌, Option, none, some, List, [], ◌∷◌, String,
  arith, if◌then◌else◌, ◌⊎◌,
}
use hisnos_secure_workstatio.ControlPlane.{
  Mode, normal, gaming, lab_active, vault_mounted, update_preparing, update_pending, rollback_mode,
  other, LabNetworkProfile, offline, allowlist, dns_sinkhole, http_proxy, profile_other,
}

-- `a == b` on modes, which are texts in the source.
abbrev pub mode_eq : Mode → Mode → Bool
mode_eq normal normal = true
mode_eq gaming gaming = true
mode_eq lab_active lab_active = true
mode_eq vault_mounted vault_mounted = true
mode_eq update_preparing update_preparing = true
mode_eq update_pending update_pending = true
mode_eq rollback_mode rollback_mode = true
mode_eq (other a) (other b) = str_eq a b
mode_eq _ _ = false

-- A lookup in a `map[Mode]bool` whose values are all true: is the mode one of the keys?
abbrev pub is_key : Mode → List Mode → Bool
is_key m [] = false
is_key m (k ∷ ks) = mode_eq m k || is_key m ks

unfoldable pub allowed_transitions : Mode → List Mode
allowed_transitions normal =
    vault_mounted ∷ gaming ∷ lab_active ∷ update_preparing ∷ update_pending ∷ rollback_mode ∷ []
allowed_transitions vault_mounted =
    normal ∷ gaming ∷ lab_active ∷ update_preparing ∷ update_pending ∷ rollback_mode ∷ []
allowed_transitions gaming =
    normal ∷ vault_mounted ∷ lab_active ∷ update_preparing ∷ update_pending ∷ rollback_mode ∷ []
allowed_transitions lab_active =
    normal ∷ vault_mounted ∷ gaming ∷ update_preparing ∷ update_pending ∷ rollback_mode ∷ []
allowed_transitions update_preparing =
    update_pending ∷ rollback_mode ∷ normal ∷ vault_mounted ∷ gaming ∷ lab_active ∷ []
allowed_transitions update_pending =
    normal ∷ vault_mounted ∷ rollback_mode ∷ gaming ∷ lab_active ∷ []
allowed_transitions rollback_mode = normal ∷ vault_mounted ∷ []
allowed_transitions (other t) = []

-- `allowedTransitions(from)[to]`.
unfoldable pub allowed : Mode → Mode → Bool
unfolding allowed_transitions
allowed from to = is_key to (allowed_transitions from)

abbrev pub is_known : Mode → Bool
is_known (other t) = false
is_known _ = true

-- The table said by what it forbids: a move between two different named modes is allowed, but not
-- from update-pending-reboot to update-preparing, and from rollback-mode only to normal and
-- vault-mounted.
abbrev pub permitted : Mode → Mode → Bool
permitted update_pending update_preparing = false
permitted rollback_mode to = mode_eq to normal || mode_eq to vault_mounted
permitted from to = is_known from && (is_known to && not (mode_eq from to))

-- The table of transitions is the one that the two exceptions describe.
pub allowed-permitted : (from to : Mode) → allowed from to ≡ permitted from to
unfolding allowed
allowed-permitted from to = ground arith

-- From every named mode there is a way to every other: directly or through normal.
pub allowed_detour :
    (from to : Mode)
    → is_known from ≡ true
    → is_known to ≡ true
    → mode_eq from to ≡ false
    → (allowed from to ≡ true) ⊎ ((allowed from normal ≡ true) × (allowed normal to ≡ true))
unfolding allowed
allowed_detour from to h k d = ground arith

abbrev pub mode_text : Mode → String
mode_text normal = "normal"
mode_text gaming = "gaming"
mode_text lab_active = "lab-active"
mode_text vault_mounted = "vault-mounted"
mode_text update_preparing = "update-preparing"
mode_text update_pending = "update-pending-reboot"
mode_text rollback_mode = "rollback-mode"
mode_text (other t) = t

-- `none` is the error "unknown mode".
unfoldable pub parse_mode : String → Option Mode
parse_mode s =
    if str_eq s "normal"
    then some normal
    else if str_eq s "gaming"
    then some gaming
    else if str_eq s "lab-active"
    then some lab_active
    else if str_eq s "vault-mounted"
    then some vault_mounted
    else if str_eq s "update-preparing"
    then some update_preparing
    else if str_eq s "update-pending-reboot"
    then some update_pending
    else if str_eq s "rollback-mode"
    then some rollback_mode
    else none

abbrev pub Reads : String → Mode → Type 0
Reads s m = (is_known m ≡ true) × (s ≡ mode_text m)

parse_case :
    (s t : String) (k m : Mode) (rest : Option Mode)
    → Reads t k
    → (rest ≡ some m → Reads s m)
    → (if str_eq s t then some k else rest) ≡ some m
    → Reads s m
parse_case s t k m rest r later = branch (str_eq s t) (eq_iff s t).0
  where
    branch : (b : Bool) → (b ≡ true → s ≡ t) → (if b then some k else rest) ≡ some m → Reads s m
    branch true same h = let e : k ≡ m = cc in rw (same refl) (subst (Reads t) e r)
    branch false same h = later h

parse_sound : (s : String) (m : Mode) → parse_mode s ≡ some m → Reads s m
unfolding parse_mode
parse_sound s m =
    parse_case s "normal" normal m _ (refl, refl)
      (parse_case s "gaming" gaming m _ (refl, refl)
        (parse_case s "lab-active" lab_active m _ (refl, refl)
          (parse_case s "vault-mounted" vault_mounted m _ (refl, refl)
            (parse_case s "update-preparing" update_preparing m _ (refl, refl)
              (parse_case s "update-pending-reboot" update_pending m _ (refl, refl)
                (parse_case s "rollback-mode" rollback_mode m none (refl, refl) (λ e. cc)))))))

parse_complete : (m : Mode) → is_known m ≡ true → parse_mode (mode_text m) ≡ some m
unfolding parse_mode
parse_complete (other t) h = cc
parse_complete normal h = refl
parse_complete _ h = refl

-- The text of each named mode is read back as that mode, and no other text is accepted.
pub parse_mode_iff : (s : String) (m : Mode) → (parse_mode s ≡ some m) ↔ Reads s m
parse_mode_iff s m = (parse_sound s m, λ r. rw r.1 (parse_complete m r.0))

abbrev pub profile_text : LabNetworkProfile → String
profile_text offline = "offline"
profile_text allowlist = "allowlist-cidr"
profile_text dns_sinkhole = "dns-sinkhole"
profile_text http_proxy = "http-proxy"
profile_text (profile_other t) = t

-- `none` is the error "unknown lab network profile".
unfoldable pub parse_lab_network_profile : String → Option LabNetworkProfile
parse_lab_network_profile s =
    if str_eq s "offline"
    then some offline
    else if str_eq s "allowlist-cidr"
    then some allowlist
    else if str_eq s "dns-sinkhole"
    then some dns_sinkhole
    else if str_eq s "http-proxy"
    then some http_proxy
    else none
