-- ===== src/Transactions/Apply.antt =====
-- core/runtime/transaction_manager.go: one transaction.
use mathlib.Core.List.{append_assoc, append-nil}
use hisnos_secure_workstatio.Common.{
  ◌≡◌, ◌≢◌, refl, sym, ◌⊎◌, inl, inr, true, Option, none, some, [], ◌∷◌, ◌++◌, String, Option-cases,
}
use hisnos_secure_workstatio.State.{SystemState}
use hisnos_secure_workstatio.State.Manager.{Manager, PersistError, update}
use hisnos_secure_workstatio.Transactions.{
  JournalEntry, Journal, AppendOutcome, appended, refused, unsynced, append, Setting, Env,
  TransactionManager, Error, journal_intent, state_apply, entry_of, commit_update, apply,
}

-- The lines that a successful transaction adds.
abbrev pub commit_lines : AppendOutcome → JournalEntry → Journal
commit_lines refused e = some e ∷ []
commit_lines appended e = some e ∷ some (record e { committed = true }) ∷ []
commit_lines unsynced e = some e ∷ some (record e { committed = true }) ∷ []

-- The lines that a transaction leaves whose intent is not known to be on the disk.
abbrev pub intent_lines : AppendOutcome → JournalEntry → Journal
intent_lines refused e = []
intent_lines appended e = some e ∷ []
intent_lines unsynced e = some e ∷ []

commit_journal :
    (o : AppendOutcome) (entry : JournalEntry) (j : Journal)
    → (append o (record entry { committed = true }) (j ++ some entry ∷ [])).0
      ≡ j ++ commit_lines o entry
unfolding append
commit_journal refused entry j = refl
commit_journal appended entry j = append_assoc j _ _
commit_journal unsynced entry j = append_assoc j _ _

module _ {B : Type 0} (setting : Setting B) where
  open setting use {json, marshal, sha256hex}

  -- The three ways a transaction ends.
  abbrev pub Ended :
      Env
      → String
      → (SystemState → SystemState)
      → TransactionManager B
      → TransactionManager B × Option Error
      → Type 0
  Ended env op f tm r =
      let entry = entry_of setting env op f tm.manager.state in
      let (m', e) = update json env.fails env.update_at f tm.manager in
      ((env.intent ≢ appended)
        × (r.1 ≡ some journal_intent)
        × (r.0.manager ≡ tm.manager)
        × (r.0.journal ≡ tm.journal ++ intent_lines env.intent entry))
      ⊎ (((env.intent ≡ appended)
            × (p : PersistError) × (e ≡ some p)
            × (r.1 ≡ some (state_apply p))
            × (r.0.manager ≡ m')
            × (r.0.journal ≡ tm.journal ++ some entry ∷ []))
          ⊎ ((env.intent ≡ appended)
              × (e ≡ none)
              × (r.1 ≡ none)
              × (r.0.manager ≡ m')
              × (r.0.journal ≡ tm.journal ++ commit_lines env.commit entry)))

  commit_update-cases :
      (env : Env) (entry : JournalEntry) (f : SystemState → SystemState) (j : Journal)
      (m : Manager B)
      → let (m', e) = update json env.fails env.update_at f m in
        ((p : PersistError) × (e ≡ some p)
          × (commit_update setting env entry f j m
              ≡ (record { manager = m'; journal = j }, some (state_apply p))))
        ⊎ ((e ≡ none)
            × (commit_update setting env entry f j m ≡ (
              record {
                manager = m';
                journal = (append env.commit (record entry { committed = true }) j).0;
              },
              none,
            )))
  unfolding commit_update
  commit_update-cases env entry f j m =
      elim (Option-cases (update json env.fails env.update_at f m).1) [
        | inl q ↦ inr (q, rw (q, commit_update))
        | inr (p, q) ↦ inl (p, q, rw (q, commit_update))
      ]

  apply_appended :
      (env : Env) (op : String) (f : SystemState → SystemState) (tm : TransactionManager B)
      → env.intent ≡ appended
      → let entry = entry_of setting env op f tm.manager.state in
        apply setting env op f tm
        ≡ commit_update setting env entry f (tm.journal ++ some entry ∷ []) tm.manager
  unfolding apply
  apply_appended env op f tm q = rw (q, apply)

  -- The state is only changed after the journal holds the intent. If the intent cannot be appended, the
  -- manager stays as it was, and so does the journal, but for the intent's line where only Sync failed.
  -- Else a transaction whose update fails leaves the journal with the intent and no mark, and one that
  -- succeeds leaves it with the intent and a mark behind it, unless that append is refused.
  pub apply-Ended :
      (env : Env) (op : String) (f : SystemState → SystemState) (tm : TransactionManager B)
      → Ended env op f tm (apply setting env op f tm)
  unfolding apply append
  apply-Ended env op f tm = by_intent env.intent refl
    where
      entry : JournalEntry
      entry = entry_of setting env op f tm.manager.state

      by_intent :
          (o : AppendOutcome) → env.intent ≡ o → Ended env op f tm (apply setting env op f tm)
      by_intent refused q =
          inl (λ e. cc, rw (q, apply), rw (q, apply), simp (q, apply) (sym (append-nil tm.journal)))
      by_intent unsynced q = inl (λ e. cc, rw (q, apply), rw (q, apply), simp (q, apply) refl)
      by_intent appended q =
          elim (commit_update-cases env entry f (tm.journal ++ some entry ∷ []) tm.manager) [
            | inl (p, e, r) ↦
                rw (apply_appended env op f tm q, r) (inr (inl (q, p, e, refl, refl, refl)))
            | inr (e, r) ↦
                rw (apply_appended env op f tm q, r)
                  (inr (inr (q, e, refl, refl, commit_journal env.commit entry tm.journal)))
          ]
