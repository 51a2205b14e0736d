-- ===== src/Transactions/Tests.antt =====
-- Transactions at concrete states.
use text.Mathlib.TextEquality.{eq_iff}
use hisnos_secure_workstatio.Common.{
  ◌≡◌, ◌≢◌, refl, true, false, none, some, [], String, pos, arith,
}
use hisnos_secure_workstatio.AtomicFile.{Content, partial, whole, write_atomic}
use hisnos_secure_workstatio.AtomicFile.Tests.{no_fault}
use hisnos_secure_workstatio.State.{SystemState, safe_mode, default_state}
use hisnos_secure_workstatio.State.Manager.{update}
use hisnos_secure_workstatio.Transactions.{
  JournalEntry, Setting, Env, TransactionManager, appended, apply, replay_journal, commit_update,
}
use hisnos_secure_workstatio.Transactions.Apply.{Ended, apply-Ended}
use hisnos_secure_workstatio.Transactions.Checks.{apply-replay_journal}

abbrev text_of : Content String → String
text_of partial = ""
text_of (whole t) = t

-- The two encodings differ, as in the source.
abbrev texts : Setting String
texts = record {
  json = record { marshal_indent = λ s. some "indented"; unmarshal = λ t. none };
  marshal = λ s. "compact";
  sha256hex = text_of;
}

abbrev smooth : Env
smooth = record {
  txn_id = "txn-1";
  after_at = 10;
  entry_at = 11;
  update_at = 12;
  fails = no_fault;
  intent = appended;
  commit = appended;
}

abbrev fresh : TransactionManager String
fresh = record {
  manager = record { state = default_state 5; disk = record { live = none; temp = none } };
  journal = [];
}

abbrev old : TransactionManager String
old = record fresh {
  manager = record {
    state = record (default_state 5) { version = pos 0 };
    disk = record { live = none; temp = none };
  };
}

abbrev enter : SystemState → SystemState
enter s = record s { mode = safe_mode }

abbrev half_done : JournalEntry
half_done = record {
  id = "txn-0";
  op = "set_mode";
  timestamp = 4;
  before_sum = "a";
  after_sum = "b";
  committed = false;
}

apply-Ended_example :
    Ended texts smooth "set_mode" enter fresh (apply texts smooth "set_mode" enter fresh)
apply-Ended_example = apply-Ended texts smooth "set_mode" enter fresh

encodings_differ : ◌≢◌ {A = String} "indented" "compact"
encodings_differ = ground (arith, eq_iff "indented" "compact")

apply-replay_journal_example :
    (tm' : TransactionManager String) × (replay_journal texts
        (λ e. appended)
        (apply texts smooth "set_mode" enter fresh).0
      ≡ some (tm', true))
unfolding apply commit_update update write_atomic
apply-replay_journal_example =
    apply-replay_journal texts smooth "set_mode" enter fresh (λ e. appended) "indented" refl refl
      encodings_differ encodings_differ
