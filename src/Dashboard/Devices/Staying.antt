-- ===== src/Dashboard/Devices/Staying.antt =====
-- dashboard/backend/api: what keeps a handler in rollback-mode.
use mathlib.Core.Path.{subst}
use hisnos_secure_workstatio.Common.{◌≡◌, sym, ap, Option, none, some}
use hisnos_secure_workstatio.AtomicFile.{Json}
use hisnos_secure_workstatio.ControlPlane.{Mode, rollback_mode, SystemState}
use hisnos_secure_workstatio.ControlPlane.Modes.{mode_eq}
use hisnos_secure_workstatio.ControlPlane.Manager.{Manager, Error}
use hisnos_secure_workstatio.Dashboard.{Reply, Env, Served, with_snapshot, if_changed}
use hisnos_secure_workstatio.Dashboard.Updates.Moves.{In, with_snapshot_of_valid}

-- The manager is loaded and in rollback-mode after the request.
abbrev pub Stays : {B : Type 0} → Served B → Type 0
Stays t = In t.0 rollback_mode

pub if_changed-Stays :
    {B : Type 0} (reply : Reply) (t : Manager B × Option Error)
    → In t.0 rollback_mode
    → Stays (if_changed (λ noted. (noted, reply)) t)
if_changed-Stays reply (m, none) i = i
if_changed-Stays reply (m, some e) i = i

pub in_mode :
    {B : Type 0} (m : Manager B) (k : Mode)
    → In m rollback_mode
    → mode_eq m.cached.mode k ≡ mode_eq rollback_mode k
in_mode m k i = ap (λ mode. mode_eq mode k) i.1

module _ {B : Type 0} (json : Json SystemState B) where
  pub snapshot-Stays :
      (env : Env) (rest : Manager B → Served B) (m : Manager B)
      → In m rollback_mode
      → Stays (rest m)
      → Stays (with_snapshot json env rest m)
  snapshot-Stays env rest m i k = subst Stays (sym (with_snapshot_of_valid json env rest m i.0)) k
