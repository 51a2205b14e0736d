-- ===== src/Transactions/Replay.antt =====
-- core/runtime/transaction_manager.go: what the replay of the journal finds and writes.
use mathlib.Core.List.{append-nil, append_assoc}
use mathlib.Core.Bool.{or_assoc, or-false}
use text.Mathlib.Text.{◌==◌ as str_eq}
use hisnos_secure_workstatio.Common.{
  ◌≡◌, refl, ap, ◌∙◌, Bool, true, false, not, ◌&&◌, ◌||◌, none, some, List, [], ◌∷◌, ◌++◌, String,
  arith, if◌then◌else◌,
}
use hisnos_secure_workstatio.Transactions.{
  JournalEntry, Journal, AppendOutcome, appended, read_all, append, examine, mark, is_corrupt,
  replay_loop,
}

-- An entry without its mark whose two checksums both differ from the file's.
abbrev pub is_lost : String → JournalEntry → Bool
is_lost current e =
    not e.committed && (not (str_eq current e.after_sum) && not (str_eq current e.before_sum))

abbrev pub any_lost : String → List JournalEntry → Bool
any_lost current [] = false
any_lost current (e ∷ es) = is_lost current e || any_lost current es

-- The mark of an entry without one whose intended state is in the file.
abbrev pub first_mark : String → JournalEntry → Journal
first_mark current e =
    if not e.committed && str_eq current e.after_sum
    then some (record e { committed = true }) ∷ []
    else []

abbrev pub marks : String → List JournalEntry → Journal
marks current [] = []
marks current (e ∷ es) = first_mark current e ++ marks current es

is_corrupt-examine :
    (current : String) (e : JournalEntry) → is_corrupt (examine current e) ≡ is_lost current e
unfolding examine
is_corrupt-examine current e = ground arith

mark-examine :
    (current : String) (e : JournalEntry) (j : Journal)
    → mark appended (examine current e) e j ≡ j ++ first_mark current e
unfolding examine append
mark-examine current e j = ground (arith, append-nil j)

-- The replay reports corruption exactly when the file matches neither checksum of some entry
-- without a mark; and where the journal can be written it adds the marks that were lost, and
-- nothing else.
pub replay_loop_lem :
    (current : String) (es : List JournalEntry) (j : Journal) (corrupted : Bool)
    → replay_loop (λ e. appended) current es j corrupted
      ≡ (j ++ marks current es, corrupted || any_lost current es)
unfolding replay_loop
replay_loop_lem current [] j corrupted = rw (append-nil, or-false)
replay_loop_lem current (e ∷ es) j corrupted = rw (
  mark-examine current e j,
  is_corrupt-examine current e,
  replay_loop_lem current es (j ++ first_mark current e) (corrupted || is_lost current e),
  append_assoc,
  or_assoc,
)

-- One lost entry is enough, whatever the appends do.
pub replay_loop_reports :
    (appends : JournalEntry → AppendOutcome) (current : String) (es : List JournalEntry)
    (j : Journal) (corrupted : Bool)
    → (replay_loop appends current es j corrupted).1 ≡ (corrupted || any_lost current es)
unfolding replay_loop
replay_loop_reports appends current [] j corrupted = rw or-false
replay_loop_reports appends current (e ∷ es) j corrupted =
    replay_loop_reports appends current es _ _
    ∙ (or_assoc corrupted (is_corrupt (examine current e)) (any_lost current es)
        ∙ ap (λ b. corrupted || (b || any_lost current es)) (is_corrupt-examine current e))

pub read_all-append : (j k : Journal) → read_all (j ++ k) ≡ read_all j ++ read_all k
unfolding read_all
read_all-append [] k = refl
read_all-append (none ∷ j) k = read_all-append j k
read_all-append (some e ∷ j) k = rw (read_all-append j k)

pub any_lost-append :
    (current : String) (es fs : List JournalEntry)
    → any_lost current (es ++ fs) ≡ (any_lost current es || any_lost current fs)
any_lost-append current [] fs = refl
any_lost-append current (e ∷ es) fs = ground (arith, any_lost-append current es fs)
