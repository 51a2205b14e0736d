-- ===== src/GlobalRollback.antt =====
-- core/orchestrator/global_rollback.go: snapshots of all subsystems, and restoring one.
-- A hook's functions act on the world `W` of the subsystems, and captured states have the type `V`. The
-- locks make each call one step; durations, emitted events and log lines are left out. The two hooks
-- that core/main.go registers are here too; what they call is their argument.
pub mod Restore
mod Tests
use text.Mathlib.Text.{◌==◌ as str_eq}
use hisnos_secure_workstatio.Common.{
  ℕ, ◌+◌, ◌-◌, Bool, true, false, Option, none, some, List, [], ◌∷◌, ◌++◌, String, length, drop,
  ltb, ◌==◌, if◌then◌else◌,
}

abbrev pub max_snapshots : ℕ
max_snapshots = 5

-- `none` is the error of a snapshot; the second part of a restore says whether it failed.
pub record SubsystemHook (W V : Type 0) : Type 0 where
  pub name : String
  pub snapshot : W → Option V
  pub restore : V → W → W × Bool

pub record SnapshotEntry (V : Type 0) : Type 0 where
  pub id : ℕ
  pub created_at : ℕ
  pub states : List (String × V)

pub record GlobalRollback (W V : Type 0) : Type 0 where
  pub hooks : List (SubsystemHook W V)
  pub snapshots : List (SnapshotEntry V)
  pub next_id : ℕ

-- The names of the subsystems that were restored, and of those whose restore failed.
pub record RollbackResult : Type 0 where
  pub snapshot_id : ℕ
  pub succeeded : List String
  pub failed : List String

module _ {V : Type 0} where
  -- `entry.States[h.Name] = state`.
  unfoldable pub put_state : String → V → List (String × V) → List (String × V)
  put_state n v [] = (n, v) ∷ []
  put_state n v ((k, u) ∷ rest) = if str_eq k n then (k, v) ∷ rest else (k, u) ∷ put_state n v rest

  unfoldable pub state_of : String → List (String × V) → Option V
  state_of n [] = none
  state_of n ((k, u) ∷ rest) = if str_eq k n then some u else state_of n rest

  unfoldable pub evict : List (SnapshotEntry V) → List (SnapshotEntry V)
  evict entries =
      if ltb max_snapshots (length entries)
      then drop (length entries - max_snapshots) entries
      else entries

  unfoldable pub latest : List (SnapshotEntry V) → Option (SnapshotEntry V)
  latest [] = none
  latest (s ∷ []) = some s
  latest (s ∷ t ∷ rest) = latest (t ∷ rest)

  unfoldable pub find_snapshot : ℕ → List (SnapshotEntry V) → Option (SnapshotEntry V)
  find_snapshot id [] = none
  find_snapshot id (s ∷ rest) = if s.id == id then some s else find_snapshot id rest

abbrev pub noted : String → Bool → RollbackResult → RollbackResult
noted n true r = record r { failed = r.failed ++ n ∷ [] }
noted n false r = record r { succeeded = r.succeeded ++ n ∷ [] }

module _ {W V : Type 0} where
  unfoldable pub register_hook : SubsystemHook W V → GlobalRollback W V → GlobalRollback W V
  register_hook hook gr = record gr { hooks = gr.hooks ++ hook ∷ [] }

  -- The loop of `TakeSnapshot`; a subsystem whose snapshot fails is left out.
  unfoldable pub capture : List (SubsystemHook W V) → W → List (String × V) → List (String × V)
  unfolding put_state
  capture [] w states = states
  capture (h ∷ hs) w states =
      capture hs w (elim (h.snapshot w) [ none ↦ states | some v ↦ put_state h.name v states ])

  abbrev pub new_entry : ℕ → W → GlobalRollback W V → SnapshotEntry V
  new_entry now w gr = record {
    id = gr.next_id + 1;
    created_at = now;
    states = capture gr.hooks w [];
  }

  -- The second part is the id of the snapshot; no error is ever returned.
  unfoldable pub take_snapshot : ℕ → W → GlobalRollback W V → GlobalRollback W V × ℕ
  unfolding evict capture
  take_snapshot now w gr = (
    record gr {
      next_id = gr.next_id + 1;
      snapshots = evict (gr.snapshots ++ new_entry now w gr ∷ []);
    },
    gr.next_id + 1,
  )

  abbrev pub restore_state : SubsystemHook W V → V → RollbackResult × W → RollbackResult × W
  restore_state h v (r, w) = let (w', bad) = h.restore v w in (noted h.name bad r, w')

  -- The body of the loop of `restore`: a subsystem that is not in the snapshot is left alone.
  unfoldable pub restore_one :
      List (String × V) → SubsystemHook W V → RollbackResult × W → RollbackResult × W
  unfolding state_of
  restore_one states h rw' = elim (state_of h.name states) [
    | none ↦ rw'
    | some v ↦ restore_state h v rw'
  ]

  -- The loop, from the last hook to the first.
  unfoldable pub restore_hooks :
      List (String × V) → List (SubsystemHook W V) → RollbackResult × W → RollbackResult × W
  unfolding restore_one
  restore_hooks states [] rw' = rw'
  restore_hooks states (h ∷ hs) rw' = restore_one states h (restore_hooks states hs rw')

  unfoldable pub restore_entry : SnapshotEntry V → W → GlobalRollback W V → RollbackResult × W
  unfolding restore_hooks
  restore_entry entry w gr =
      restore_hooks entry.states gr.hooks
        (record { snapshot_id = entry.id; succeeded = []; failed = [] }, w)

  -- `none` is the error that there is no such snapshot.
  unfoldable pub rollback_to_latest : W → GlobalRollback W V → Option (RollbackResult × W)
  unfolding latest restore_entry
  rollback_to_latest w gr = elim (latest gr.snapshots) [
    | none ↦ none
    | some entry ↦ some (restore_entry entry w gr)
  ]

  unfoldable pub rollback_to : ℕ → W → GlobalRollback W V → Option (RollbackResult × W)
  unfolding find_snapshot restore_entry
  rollback_to id w gr = elim (find_snapshot id gr.snapshots) [
    | none ↦ none
    | some entry ↦ some (restore_entry entry w gr)
  ]

-- core/main.go registers these two: the name of the active profile, and a marker; the rules of the
-- firewall are loaded from their file whatever was captured.
abbrev pub performance_hook :
    {W : Type 0} → (W → String) → (String → W → W × Bool) → SubsystemHook W String
performance_hook active_profile apply = record {
  name = "performance";
  snapshot = λ w. some (active_profile w);
  restore = λ profile w. apply profile w;
}

abbrev pub firewall_hook : {W : Type 0} → (W → W × Bool) → SubsystemHook W String
firewall_hook nft = record {
  name = "firewall";
  snapshot = λ w. some "nftables:current";
  restore = λ state w. nft w;
}
