-- ===== src/State/Manager.antt =====
-- core/state/state.go: NewManager, Get, Update, load and persist.
pub mod Laws
use hisnos_secure_workstatio.Common.{
  ℕ, ◌⊎◌, inl, inr, Bool, Option, none, some, is_int, if◌then◌else◌,
}
use hisnos_secure_workstatio.AtomicFile.{
  Json, Content, partial, whole, Disk, FileStep, write_atomic,
}
use hisnos_secure_workstatio.State.{SystemState, state_version, default_state}

pub data LoadError : Type 0 where
  read_failed unmarshal_failed version_missing : LoadError

pub data PersistError : Type 0 where
  marshal_failed : PersistError
  file_failed : FileStep → PersistError

abbrev pub failed_step : Option FileStep → Option PersistError
failed_step none = none
failed_step (some s) = some (file_failed s)

-- The manager in memory, and the file that it keeps.
pub record Manager (B : Type 0) : Type 0 where
  pub state : SystemState
  pub disk : Disk B

-- The state in memory after `Update`, whether or not it could be written.
unfoldable pub updated : ℕ → (SystemState → SystemState) → SystemState → SystemState
updated now f s =
    let t = record (f s) { updated_at = now } in
    if is_int t.version 0 then record t { version = state_version } else t

module _ {B : Type 0} (json : Json SystemState B) where
  abbrev check_version : Option SystemState → SystemState ⊎ LoadError
  check_version none = inr unmarshal_failed
  check_version (some s) = if is_int s.version 0 then inr version_missing else inl s

  -- A file cut short is no JSON.
  abbrev parse : Content B → SystemState ⊎ LoadError
  parse partial = inr unmarshal_failed
  parse (whole b) = check_version (json.unmarshal b)

  unfoldable pub load : Option (Content B) → SystemState ⊎ LoadError
  load none = inr read_failed
  load (some c) = parse c

  -- The manager is valid also beside an error.
  unfoldable pub new_manager : ℕ → Disk B → Manager B × Option LoadError
  unfolding load
  new_manager now d = elim (load d.live) [
    | inl s ↦ (record { state = s; disk = d }, none)
    | inr e ↦ (record { state = default_state now; disk = d }, some e)
  ]

  unfoldable pub persist : (FileStep → Bool) → SystemState → Disk B → Disk B × Option PersistError
  persist fails s d = elim (json.marshal_indent s) [
    | none ↦ (d, some marshal_failed)
    | some b ↦ let (d', e) = write_atomic fails b d in (d', failed_step e)
  ]

  unfoldable pub update :
      (FileStep → Bool)
      → ℕ
      → (SystemState → SystemState)
      → Manager B
      → Manager B × Option PersistError
  unfolding updated persist
  update fails now f m =
      let s = updated now f m.state in
      let (d, e) = persist fails s m.disk in (record { state = s; disk = d }, e)
