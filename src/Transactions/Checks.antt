-- ===== src/Transactions/Checks.antt =====
-- core/runtime/transaction_manager.go: the two checks for corruption after a transaction.
use mathlib.Core.Bool.{or-true}
use text.Mathlib.Text.{◌==◌ as str_eq}
use text.Mathlib.TextEquality.{eq_iff}
use hisnos_secure_workstatio.Common.{
  ◌≡◌, ◌≢◌, refl, sym, ap, ◌∙◌, inl, inr, true, false, none, some, List, [], ◌∷◌, ◌++◌, String,
  arith, Bool-cases,
}
use hisnos_secure_workstatio.AtomicFile.{Content, whole}
use hisnos_secure_workstatio.State.{SystemState}
use hisnos_secure_workstatio.State.Manager.{Manager, updated}
use hisnos_secure_workstatio.State.Manager.Laws.{update-Persisted}
use hisnos_secure_workstatio.Transactions.{
  JournalEntry, Journal, AppendOutcome, appended, read_all, Setting, Env, TransactionManager,
  intended, entry_of, apply, state_checksum, corruption_detected, last_committed, replay_journal,
  replay_loop,
}
use hisnos_secure_workstatio.Transactions.Replay.{
  any_lost, replay_loop_reports, read_all-append, any_lost-append,
}
use hisnos_secure_workstatio.Transactions.Apply.{commit_lines, apply-Ended}

module _ {B : Type 0} (setting : Setting B) where
  open setting use {json, marshal, sha256hex}

  checksum_of_live :
      (tm : TransactionManager B) (c : Content B)
      → tm.manager.disk.live ≡ some c
      → state_checksum setting tm ≡ some (sha256hex c)
  unfolding state_checksum
  checksum_of_live tm c l = rw (l, state_checksum)

  -- The checksum of the file after a transaction that reports no error.
  applied_checksum :
      (env : Env) (op : String) (f : SystemState → SystemState) (tm : TransactionManager B) (b : B)
      → (apply setting env op f tm).1 ≡ none
      → json.marshal_indent (updated env.update_at f tm.manager.state) ≡ some b
      → let tm' = (apply setting env op f tm).0 in
        (state_checksum setting tm' ≡ some (sha256hex (whole b)))
        × (tm'.journal
            ≡ tm.journal ++ commit_lines env.commit (entry_of setting env op f tm.manager.state))
  applied_checksum env op f tm b ok enc = elim (apply-Ended setting env op f tm) [
    | inl (_, e, _, _) ↦ cc
    | inr (inl (_, _, _, e, _, _)) ↦ cc
    | inr (inr (_, none_failed, _, mgr, jnl)) ↦
        elim (update-Persisted json env.fails env.update_at f tm.manager).2 [
          | inl (_, b', enc', live) ↦
              let q : json.marshal_indent (updated env.update_at f tm.manager.state) ≡ some b' =
                ap json.marshal_indent
                  (sym (update-Persisted json env.fails env.update_at f tm.manager).0)
                ∙ enc' in
              let same : b' ≡ b = cc in
              (
                checksum_of_live (apply setting env op f tm).0 (whole b) (
                    ap (λ (m : Manager B). m.disk.live) mgr
                    ∙ (live ∙ ap (λ c. some (whole c)) same)),
                jnl,
              )
          | inr (_, e, _) ↦ cc
        ]
  ]

str_eq-false : (a b : String) → a ≢ b → str_eq a b ≡ false
str_eq-false a b n = elim (Bool-cases (str_eq a b)) [
  | inl e ↦ absurd (n ((eq_iff a b).0 e))
  | inr e ↦ e
]

lost_lines :
    (current : String) (e : JournalEntry) (o : AppendOutcome)
    → e.committed ≡ false
    → current ≢ e.before_sum
    → current ≢ e.after_sum
    → any_lost current (read_all (commit_lines o e)) ≡ true
unfolding read_all
lost_lines current e o c nb na =
    ground (arith, str_eq-false current e.before_sum nb, str_eq-false current e.after_sum na)

lost_entry :
    (current : String) (e : JournalEntry) (o : AppendOutcome) (j : Journal)
    → e.committed ≡ false
    → current ≢ e.before_sum
    → current ≢ e.after_sum
    → any_lost current (read_all (j ++ commit_lines o e)) ≡ true
lost_entry current e o j c nb na = rw (
  read_all-append j (commit_lines o e),
  any_lost-append current (read_all j) (read_all (commit_lines o e)),
  lost_lines current e o c nb na,
  or-true,
)

last_committed-append :
    (es : List JournalEntry) (a b : JournalEntry)
    → b.committed ≡ true
    → last_committed (es ++ a ∷ b ∷ []) ≡ some b
unfolding last_committed
last_committed-append [] a b c = ground arith
last_committed-append (e ∷ es) a b c = rw (last_committed-append es a b c)

last_committed-lines :
    (e : JournalEntry) (j : Journal)
    → last_committed (read_all (j ++ commit_lines appended e))
      ≡ some (record e { committed = true })
unfolding read_all
last_committed-lines e j =
    rw (read_all-append j (commit_lines appended e))
      (last_committed-append (read_all j) e (record e { committed = true }) refl)

module _ {B : Type 0} (setting : Setting B) where
  open setting use {json, marshal, sha256hex}

  replay_of_checksum :
      (appends : JournalEntry → AppendOutcome) (tm : TransactionManager B) (current : String)
      → state_checksum setting tm ≡ some current
      → let r = replay_loop appends current (read_all tm.journal) tm.journal false in
        replay_journal setting appends tm ≡ some (record tm { journal = r.0 }, r.1)
  unfolding replay_journal
  replay_of_checksum appends tm current h = rw (h, replay_journal)

  detected_of_checksum :
      (tm : TransactionManager B) (last : JournalEntry) (current : String)
      → state_checksum setting tm ≡ some current
      → last_committed (read_all tm.journal) ≡ some last
      → current ≢ last.after_sum
      → corruption_detected setting tm ≡ some true
  unfolding corruption_detected
  detected_of_checksum tm last current h l n =
      rw (l, corruption_detected)
        (rw (h, corruption_detected) (rw (str_eq-false current last.after_sum n)))

  -- After a transaction that reports no error the replay at the next start reports corruption,
  -- whatever the journal held before, if the checksum of the written file is neither of the two
  -- that the intent holds: the intent stays in the journal without a mark. (The file is indented
  -- and has a later time than the state that the intent announces.)
  pub apply-replay_journal :
      (env : Env) (op : String) (f : SystemState → SystemState) (tm : TransactionManager B)
      (appends : JournalEntry → AppendOutcome) (b : B)
      → (apply setting env op f tm).1 ≡ none
      → json.marshal_indent (updated env.update_at f tm.manager.state) ≡ some b
      → sha256hex (whole b) ≢ sha256hex (whole (marshal tm.manager.state))
      → sha256hex (whole b) ≢ sha256hex (whole (marshal (intended setting env f tm.manager.state)))
      → (tm' : TransactionManager B) × (replay_journal setting appends (apply setting env op f tm).0
          ≡ some (tm', true))
  apply-replay_journal env op f tm appends b ok enc nb na =
      let tm' = (apply setting env op f tm).0 in
      let (sum, jnl) = applied_checksum setting env op f tm b ok enc in
      let lost : any_lost (sha256hex (whole b)) (read_all tm'.journal) ≡ true = rw jnl (
        lost_entry _ (entry_of setting env op f tm.manager.state) env.commit tm.journal refl nb
          na) in
      (
        _,
        replay_of_checksum appends tm' (sha256hex (whole b)) sum
            ∙ ap
                (λ c. some (
                  record tm' {
                    journal =
                        (replay_loop appends (sha256hex (whole b)) (read_all tm'.journal)
                          tm'.journal false).0;
                  },
                  c,
                ))
                (replay_loop_reports appends (sha256hex (whole b)) (read_all tm'.journal)
                    tm'.journal false
                  ∙ lost),
      )

  -- After a transaction that reports no error and whose mark was written the checksum test reports
  -- corruption, if the file's checksum is not the one of the intended state in the other encoding.
  pub apply-corruption_detected :
      (env : Env) (op : String) (f : SystemState → SystemState) (tm : TransactionManager B) (b : B)
      → env.commit ≡ appended
      → (apply setting env op f tm).1 ≡ none
      → json.marshal_indent (updated env.update_at f tm.manager.state) ≡ some b
      → sha256hex (whole b) ≢ sha256hex (whole (marshal (intended setting env f tm.manager.state)))
      → corruption_detected setting (apply setting env op f tm).0 ≡ some true
  apply-corruption_detected env op f tm b c ok enc na =
      let tm' = (apply setting env op f tm).0 in
      let entry = entry_of setting env op f tm.manager.state in
      let (sum, jnl) = applied_checksum setting env op f tm b ok enc in
      detected_of_checksum tm' (record entry { committed = true }) (sha256hex (whole b)) sum
        (ap (λ j. last_committed (read_all j))
            (jnl ∙ ap (λ o. tm.journal ++ commit_lines o entry) c)
          ∙ last_committed-lines entry tm.journal)
        na
