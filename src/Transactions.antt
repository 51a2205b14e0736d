-- ===== src/Transactions.antt =====
-- core/runtime/transaction_manager.go: write-ahead journaling over the state manager.
-- The journal file is the list of its lines; `none` is a line that is no JSON. Mutexes make each
-- method one step. A short write of a journal line is not modelled.
pub mod Replay
pub mod Apply
pub mod Checks
pub mod Migration
mod Tests
use text.Mathlib.Text.{◌==◌ as str_eq}
use hisnos_secure_workstatio.Common.{
  ℕ, ◌+◌, ◌-◌, Bool, true, false, not, ◌&&◌, ◌||◌, Option, none, some, List, [], ◌∷◌, ◌++◌, String,
  is_int, if◌then◌else◌, leb, length, drop, ltb,
}
use hisnos_secure_workstatio.AtomicFile.{Json, Content, whole, FileStep}
use hisnos_secure_workstatio.State.{SystemState, Mode, other, normal, state_version}
use hisnos_secure_workstatio.State.Manager.{Manager, PersistError, update}

abbrev pub max_journal_entries : ℕ
max_journal_entries = 500

pub record JournalEntry : Type 0 where
  pub id : String
  pub op : String
  pub timestamp : ℕ
  pub before_sum : String
  pub after_sum : String
  pub committed : Bool

abbrev pub Journal : Type 0
Journal = List (Option JournalEntry)

-- What happens to an append: all goes well, the file cannot be opened or written, or the line is
-- written and Sync fails.
pub data AppendOutcome : Type 0 where
  appended refused unsynced : AppendOutcome

-- The new journal, and whether an error is returned.
unfoldable pub append : AppendOutcome → JournalEntry → Journal → Journal × Bool
append appended e j = (j ++ some e ∷ [], false)
append refused e j = (j, true)
append unsynced e j = (j ++ some e ∷ [], true)

-- Oldest first; malformed lines are skipped.
unfoldable pub read_all : Journal → List JournalEntry
read_all [] = []
read_all (none ∷ j) = read_all j
read_all (some e ∷ j) = e ∷ read_all j

-- Only the last lines are kept.
unfoldable pub rotate : Journal → Journal
rotate j = if leb (length j) max_journal_entries then j else drop (length j - max_journal_entries) j

pub record TransactionManager (B : Type 0) : Type 0 where
  pub manager : Manager B
  pub journal : Journal

pub data Error : Type 0 where
  journal_intent : Error
  state_apply : PersistError → Error
  no_state_file : Error

-- What the code takes from outside: encoding/json (`marshal` is `json.Marshal`, whose error is
-- ignored) and SHA-256 as a text.
pub record Setting (B : Type 0) : Type 0 where
  pub json : Json SystemState B
  pub marshal : SystemState → B
  pub sha256hex : Content B → String

-- What the surroundings decide during one transaction: its id, the times at which the intended
-- state and the entry are made and at which the manager updates, what fails on the disk, and the
-- two appends.
pub record Env : Type 0 where
  pub txn_id : String
  pub after_at : ℕ
  pub entry_at : ℕ
  pub update_at : ℕ
  pub fails : FileStep → Bool
  pub intent : AppendOutcome
  pub commit : AppendOutcome

-- The switch of the replay.
pub data Finding : Type 0 where
  already_committed mark_lost rolled_back corrupt : Finding

unfoldable pub examine : String → JournalEntry → Finding
examine current e =
    if e.committed
    then already_committed
    else if str_eq current e.after_sum
    then mark_lost
    else if str_eq current e.before_sum
    then rolled_back
    else corrupt

-- A lost mark is written again; its error is ignored.
abbrev pub mark : AppendOutcome → Finding → JournalEntry → Journal → Journal
mark o mark_lost e j = (append o (record e { committed = true }) j).0
mark o already_committed e j = j
mark o rolled_back e j = j
mark o corrupt e j = j

abbrev pub is_corrupt : Finding → Bool
is_corrupt corrupt = true
is_corrupt already_committed = false
is_corrupt mark_lost = false
is_corrupt rolled_back = false

-- The loop over the entries that were read: the journal that it leaves, and `corrupted`.
unfoldable pub replay_loop :
    (JournalEntry → AppendOutcome) → String → List JournalEntry → Journal → Bool → Journal × Bool
unfolding append examine
replay_loop appends current [] j corrupted = (j, corrupted)
replay_loop appends current (e ∷ es) j corrupted =
    let found = examine current e in
    replay_loop appends current es (mark (appends e) found e j) (corrupted || is_corrupt found)

-- The last committed entry of a list.
unfoldable pub last_committed : List JournalEntry → Option JournalEntry
last_committed [] = none
last_committed (e ∷ es) =
    let later = last_committed es in
    elim later [ some l ↦ some l | none ↦ if e.committed then some e else none ]

abbrev set_mode : Mode → Mode
set_mode (other t) = if str_eq t "" then normal else other t
set_mode m = m

abbrev pub migrated : SystemState → SystemState
migrated s = record s {
  version = state_version;
  mode = set_mode s.mode;
  risk = record (s.risk) { level = if str_eq s.risk.level "" then "low" else s.risk.level };
}

module _ {B : Type 0} (setting : Setting B) where
  open setting use {json, marshal, sha256hex}

  -- The state that the journal announces.
  abbrev pub intended : Env → (SystemState → SystemState) → SystemState → SystemState
  intended env f s = record (f s) { updated_at = env.after_at }

  abbrev pub entry_of : Env → String → (SystemState → SystemState) → SystemState → JournalEntry
  entry_of env op f before = record {
    id = env.txn_id;
    op = op;
    timestamp = env.entry_at;
    before_sum = sha256hex (whole (marshal before));
    after_sum = sha256hex (whole (marshal (intended env f before)));
    committed = false;
  }

  -- Behind the journal's intent: the update, and the mark of the commit if it went well.
  unfoldable pub commit_update :
      Env
      → JournalEntry
      → (SystemState → SystemState)
      → Journal
      → Manager B
      → TransactionManager B × Option Error
  unfolding append
  commit_update env entry f j m =
      let (m', e) = update json env.fails env.update_at f m in
      elim e [
        | some p ↦ (record { manager = m'; journal = j }, some (state_apply p))
        | none ↦ (
          record {
            manager = m';
            journal = (append env.commit (record entry { committed = true }) j).0;
          },
          none,
        )
      ]

  -- `fn` is run twice: on a copy for the checksum, and by `Update`.
  unfoldable pub apply :
      Env
      → String
      → (SystemState → SystemState)
      → TransactionManager B
      → TransactionManager B × Option Error
  unfolding append
  apply env op f tm =
      let entry = entry_of env op f tm.manager.state in
      let (j, failed) = append env.intent entry tm.journal in
      if failed
      then (record tm { journal = j }, some journal_intent)
      else commit_update env entry f j tm.manager

  -- `none` is the error that the file cannot be read.
  unfoldable pub state_checksum : TransactionManager B → Option String
  state_checksum tm = elim tm.manager.disk.live [ none ↦ none | some c ↦ some (sha256hex c) ]

  -- `none` is the error of the checksum.
  unfoldable pub corruption_detected : TransactionManager B → Option Bool
  corruption_detected tm = elim (last_committed (read_all tm.journal)) [
    | none ↦ some false
    | some last ↦ elim (state_checksum tm) [
      | none ↦ none
      | some current ↦ some (not (str_eq current last.after_sum))
    ]
  ]

  -- The rotation runs on its own afterwards. `none` is an error of the checksum.
  unfoldable pub replay_journal :
      (JournalEntry → AppendOutcome) → TransactionManager B → Option (TransactionManager B × Bool)
  replay_journal appends tm = elim (state_checksum tm) [
    | none ↦ none
    | some current ↦
        let (j, corrupted) = replay_loop appends current (read_all tm.journal) tm.journal false in
        some (record tm { journal = j }, corrupted)
  ]

  unfoldable pub migrate_schema : Env → TransactionManager B → TransactionManager B × Option Error
  unfolding apply
  migrate_schema env tm =
      if is_int tm.manager.state.version 1
      then (tm, none)
      else apply env "schema_migration" migrated tm
