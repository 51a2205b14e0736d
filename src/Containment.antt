-- ===== src/Containment.antt =====
-- core/security/containment/containment.go: the emergency measures, and the host they act on.
-- The lock makes each method one step. Log lines and the audit callback are left out, and so are the
-- limits of the quarantine group, whose errors are only logged. What the system calls answer is part
-- of `Env`.
pub mod Rollback
pub mod Histories
mod Tests
use text.Mathlib.Text.{◌==◌ as str_eq}
use hisnos_secure_workstatio.Common.{
  ℕ, Bool, true, false, not, ◌&&◌, ◌||◌, Option, none, some, List, [], ◌∷◌, ◌++◌, String, ◌==◌,
  if◌then◌else◌,
}

-- `table`: nft has hisnos_containment; `quarantined`: the processes in the group; `read_only`: the
-- mount points.
pub record Host : Type 0 where
  pub table : Bool
  pub quarantined : ℕ → Bool
  pub read_only : String → Bool

pub record Manager : Type 0 where
  pub network_contained : Bool
  pub fs_read_only : List String
  pub quarantined_pids : List ℕ

abbrev pub new_manager : Manager
new_manager = record { network_contained = false; fs_read_only = []; quarantined_pids = [] }

pub record Env : Type 0 where
  pub temp_file_written : Bool
  pub nft_loads : Bool
  pub nft_deletes : Bool
  pub cgroup_made : Bool
  pub moves_in : ℕ → Bool
  pub moves_out : ℕ → Bool
  pub abs : String → Option String
  pub remounts_read_only : String → Bool
  pub remounts_writable : String → Bool

abbrev pub State : Type 0
State = Manager × Host

-- The second part says that there was no error.
unfoldable pub apply_network_containment : Env → State → State × Bool
apply_network_containment env (m, h) =
    if m.network_contained
    then ((m, h), true)
    else if not env.temp_file_written
    then ((m, h), false)
    else if env.nft_loads
    then ((record m { network_contained = true }, record h { table = true }), true)
    else ((m, h), false)

-- An error of nft is only logged.
unfoldable pub restore_network : Env → State → State
restore_network env (m, h) =
    if m.network_contained
    then (
      record m { network_contained = false },
      if env.nft_deletes then record h { table = false } else h,
    )
    else (m, h)

abbrev pub quarantine_pid : Env → ℕ → State → State
quarantine_pid env pid (m, h) =
    if env.moves_in pid
    then (
      record m { quarantined_pids = m.quarantined_pids ++ pid ∷ [] },
      record h { quarantined = λ p. if p == pid then true else h.quarantined p },
    )
    else (m, h)

unfoldable pub quarantine_each : Env → List ℕ → State → State
quarantine_each env [] s = s
quarantine_each env (pid ∷ rest) s = quarantine_each env rest (quarantine_pid env pid s)

unfoldable pub quarantine_pids : Env → List ℕ → State → State × Bool
unfolding quarantine_each
quarantine_pids env pids s =
    if env.cgroup_made then (quarantine_each env pids s, true) else (s, false)

-- Whether the write fails or not, the next process follows.
unfoldable pub release_each : Env → List ℕ → (ℕ → Bool) → ℕ → Bool
release_each env [] inside = inside
release_each env (pid ∷ rest) inside =
    release_each env rest (λ p. if p == pid then not (env.moves_out pid) && inside p else inside p)

unfoldable pub release_quarantine : Env → State → State
unfolding release_each
release_quarantine env (m, h) = (
  record m { quarantined_pids = [] },
  record h { quarantined = release_each env m.quarantined_pids h.quarantined },
)

-- The loop ends at the first path that cannot be remounted; a path that `Abs` refuses is skipped.
unfoldable pub remount_read_only : Env → List String → State → State × Bool
remount_read_only env [] s = (s, true)
remount_read_only env (path ∷ rest) (m, h) =
    let skipped = remount_read_only env rest (m, h) in
    elim (env.abs path) [
      | none ↦ skipped
      | some p ↦
          let remounted = remount_read_only env rest (
            record m { fs_read_only = m.fs_read_only ++ p ∷ [] },
            record h { read_only = λ q. if str_eq q p then true else h.read_only q },
          ) in
          if env.remounts_read_only p then remounted else ((m, h), false)
    ]

unfoldable pub writable_each : Env → List String → (String → Bool) → String → Bool
writable_each env [] ro = ro
writable_each env (path ∷ rest) ro =
    writable_each env rest
      (λ p. if str_eq p path then not (env.remounts_writable path) && ro p else ro p)

unfoldable pub restore_filesystem : Env → State → State
unfolding writable_each
restore_filesystem env (m, h) = (
  record m { fs_read_only = [] },
  record h { read_only = writable_each env m.fs_read_only h.read_only },
)

unfoldable pub emergency_restore : Env → State → State
unfolding restore_filesystem release_quarantine restore_network
emergency_restore env s = restore_network env (release_quarantine env (restore_filesystem env s))
