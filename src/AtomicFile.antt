-- ===== src/AtomicFile.antt =====
-- The write-then-rename idiom by which the daemons store their state:
-- os.CreateTemp, Write, Sync, Close, os.Rename, as in core/state/state.go (persist, which stops at
-- the first error) and core/runtime/safemode.go (persistState, which goes on after one).
-- The operating system is the argument `fails`: which of the calls report an error.
pub mod Laws
pub mod Tests
use hisnos_secure_workstatio.Common.{
  Bool, true, false, Option, none, some, List, [], ◌∷◌, if◌then◌else◌,
}

-- encoding/json at a type of states: `json.MarshalIndent`, which may fail, and `json.Unmarshal`.
pub record Json (S B : Type 0) : Type 0 where
  pub marshal_indent : S → Option B
  pub unmarshal : B → Option S

-- What a file holds: all the bytes that were meant for it, or a part of them.
pub data Content {ℓ} (B : Type ℓ) : Type ℓ where
  partial : Content B
  whole : B → Content B

-- The state file and the temporary file beside it.
pub record Disk {ℓ} (B : Type ℓ) : Type ℓ where
  pub live : Option (Content B)
  pub temp : Option (Content B)

pub data FileStep : Type 0 where
  create_temp write_temp sync_temp close_temp rename_temp : FileStep

abbrev pub file_steps : List FileStep
file_steps = create_temp ∷ write_temp ∷ sync_temp ∷ close_temp ∷ rename_temp ∷ []

module _ {ℓ} {B : Type ℓ} where
  abbrev pub remove_temp : Disk B → Disk B
  remove_temp d = record d { temp = none }

  -- What a call does when it succeeds; `c` is what is written.
  pub apply_step : Content B → FileStep → Disk B → Disk B
  apply_step c create_temp d = record d { temp = some partial }
  apply_step c write_temp d = record d { temp = some c }
  apply_step c sync_temp d = d
  apply_step c close_temp d = d
  apply_step c rename_temp d = record { live = d.temp; temp = none }

  pub run_steps : Content B → List FileStep → Disk B → Disk B
  run_steps c [] d = d
  run_steps c (s ∷ ss) d = run_steps c ss (apply_step c s d)

  -- The careful writer: the first call that fails ends it, and the deferred os.Remove takes the
  -- temporary file away. The second part names the call that failed.
  pub write_checked :
      (FileStep → Bool) → Content B → List FileStep → Disk B → Disk B × Option FileStep
  write_checked fails c [] d = (d, none)
  write_checked fails c (s ∷ ss) d =
      let rest = write_checked fails c ss (apply_step c s d) in
      if fails s then (remove_temp d, some s) else rest

  unfoldable pub write_atomic : (FileStep → Bool) → B → Disk B → Disk B × Option FileStep
  unfolding write_checked apply_step
  write_atomic fails b d = write_checked fails (whole b) file_steps d

  -- The careless writer looks at the error of CreateTemp only; a failed call has no effect.
  pub apply_unless : (FileStep → Bool) → Content B → FileStep → Disk B → Disk B
  unfolding apply_step
  apply_unless fails c s d = if fails s then d else apply_step c s d

  unfoldable pub write_unchecked : (FileStep → Bool) → Content B → Disk B → Disk B
  unfolding apply_unless apply_step
  write_unchecked fails c d =
      if fails create_temp
      then d
      else apply_unless fails c rename_temp (
          apply_unless fails c close_temp (
            apply_unless fails c sync_temp
              (apply_unless fails c write_temp (apply_step c create_temp d))))

  -- `data, _ := json.MarshalIndent(…)`: on an error the data is empty, which is no JSON.
  abbrev pub content_or_empty : Option B → Content B
  content_or_empty none = partial
  content_or_empty (some b) = whole b
