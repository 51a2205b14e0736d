-- ===== src/Transactions/Migration.antt =====
-- core/runtime/transaction_manager.go: the schema migration.
use hisnos_secure_workstatio.Common.{◌≡◌, inl, inr, true, false, none, is_int, Bool-cases}
use hisnos_secure_workstatio.State.Manager.{updated}
use hisnos_secure_workstatio.State.Manager.Laws.{update-Persisted}
use hisnos_secure_workstatio.Transactions.{
  Setting, Env, TransactionManager, apply, migrated, migrate_schema,
}
use hisnos_secure_workstatio.Transactions.Apply.{apply-Ended}

module _ {B : Type 0} (setting : Setting B) where
  open setting use {json}

  migrate_current :
      (env : Env) (tm : TransactionManager B)
      → is_int tm.manager.state.version 1 ≡ true
      → migrate_schema setting env tm ≡ (tm, none)
  unfolding migrate_schema
  migrate_current env tm v = rw (v, migrate_schema)

  migrate_old :
      (env : Env) (tm : TransactionManager B)
      → is_int tm.manager.state.version 1 ≡ false
      → migrate_schema setting env tm ≡ apply setting env "schema_migration" migrated tm
  unfolding migrate_schema
  migrate_old env tm v = rw (v, migrate_schema)

  applied_version :
      (env : Env) (tm : TransactionManager B)
      → (apply setting env "schema_migration" migrated tm).1 ≡ none
      → is_int (apply setting env "schema_migration" migrated tm).0.manager.state.version 1 ≡ true
  unfolding updated
  applied_version env tm ok = elim (apply-Ended setting env "schema_migration" migrated tm) [
    | inl (_, e, _, _) ↦ cc
    | inr (inl (_, _, _, e, _, _)) ↦ cc
    | inr (inr (_, _, _, m, _)) ↦
        rw (m, (update-Persisted json env.fails env.update_at migrated tm.manager).0)
  ]

  -- A migration that reports no error leaves the current version, so that the next start finds
  -- nothing to migrate.
  pub migrate_schema_idem :
      (env env' : Env) (tm : TransactionManager B)
      → (migrate_schema setting env tm).1 ≡ none
      → let tm' = (migrate_schema setting env tm).0 in migrate_schema setting env' tm' ≡ (tm', none)
  migrate_schema_idem env env' tm ok = elim (Bool-cases (is_int tm.manager.state.version 1)) [
    | inl v ↦ rw (migrate_current env tm v) (migrate_current env' tm v)
    | inr v ↦
        let e = migrate_old env tm v in
        migrate_current env' _ (rw e (applied_version env tm (rw e at ok)))
  ]
