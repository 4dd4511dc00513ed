-- ===== src/Migrations/Apply.antt =====
-- internal/store/migrations.go: applying the migrations to the database. `Schema` is what the
-- migrations' statements work on, and `exec` is the effect of a file's statements on it: `none` when
-- SQLite refuses them. A transaction that is not committed leaves no trace.
use gopanel.Common.{
  ℕ, Bool, not, ◌||◌, List, [], ◌∷◌, ◌++◌, Option, none, some, Bytes, eqb, length, drop, ltb, ◌==◌,
  if◌then◌else◌,
}
use gopanel.Common.Result.{Result, ok, err}
use gopanel.Database.Rows.{any_row}
use gopanel.Migrations.{
  Migration, AppliedMigration, MigrationError, table_failed, query_failed, newer_schema,
  incompatible, begin_failed, execute_failed, record_failed, commit_failed, rollback_failed, Entry,
  sort_by, load_migrations,
}

-- What the surroundings decide in one migration's transaction.
pub record StepEnv : Type 0 where
  pub begin_fails : Bool
  pub record_fails : Bool
  pub commit_fails : Bool
  pub rollback_fails : Bool

pub record MigrateEnv : Type 0 where
  pub table_fails : Bool
  pub query_fails : Bool
  pub step : (version : ℕ) → StepEnv

abbrev pub applied_of : Migration → AppliedMigration
applied_of m = record { version = m.version; name = m.name }

-- The loop of `validateAppliedMigrations`; the first clause stands behind the check of the lengths.
unfoldable pub check_applied :
    List Migration → List AppliedMigration → Result MigrationError (Unit {0})
check_applied ms [] = ok tt
check_applied [] (r ∷ rs) = err newer_schema
check_applied (m ∷ ms) (r ∷ rs) =
    if not (r.version == m.version) || not (eqb r.name m.name)
    then err (incompatible r.version)
    else check_applied ms rs

unfoldable pub validate_applied_migrations :
    List Migration → List AppliedMigration → Result MigrationError (Unit {0})
unfolding check_applied
validate_applied_migrations migrations applied =
    if ltb (length migrations) (length applied)
    then err newer_schema
    else check_applied migrations applied

-- The errors that are joined.
unfoldable pub rollback_migration : StepEnv → ℕ → MigrationError → List MigrationError
rollback_migration env version e =
    if env.rollback_fails then e ∷ rollback_failed version ∷ [] else e ∷ []

module _ {Schema : Type 0} (exec : Bytes → Schema → Option Schema) where
  -- The table schema_migrations, and the rest.
  pub record Tables : Type 0 where
    pub applied : List AppliedMigration
    pub schema : Schema

  -- INSERT INTO schema_migrations behind the statements of the file. The version is a key.
  unfoldable pub execute_migration : StepEnv → Migration → Tables → Result MigrationError Tables
  execute_migration env candidate tables = elim (exec candidate.query tables.schema) [
    | none ↦ err (execute_failed candidate.version)
    | some schema ↦
        if env.record_fails
          || any_row (λ (r : AppliedMigration). r.version == candidate.version) tables.applied
        then err (record_failed candidate.version)
        else ok (record { applied = tables.applied ++ applied_of candidate ∷ []; schema = schema })
  ]

  unfoldable pub apply_migration :
      StepEnv → Migration → Tables → Result (List MigrationError) (Unit {0}) × Tables
  apply_migration env candidate tables =
      if env.begin_fails
      then (err (begin_failed candidate.version ∷ []), tables)
      else elim (execute_migration env candidate tables) [
        | err e ↦ (err (rollback_migration env candidate.version e), tables)
        | ok tables' ↦
            if env.commit_fails
            then (err (commit_failed candidate.version ∷ []), tables)
            else (ok tt, tables')
      ]

  -- The loop's step behind one migration: what is next, unless there was an error.
  abbrev pub then_pending :
      (Tables → Result (List MigrationError) (Unit {0}) × Tables)
      → Result (List MigrationError) (Unit {0}) × Tables
      → Result (List MigrationError) (Unit {0}) × Tables
  then_pending next (err es, tables) = (err es, tables)
  then_pending next (ok done, tables) = next tables

  unfoldable pub apply_pending_migrations :
      (ℕ → StepEnv) → List Migration → Tables → Result (List MigrationError) (Unit {0}) × Tables
  apply_pending_migrations env [] tables = (ok tt, tables)
  apply_pending_migrations env (candidate ∷ pending) tables =
      then_pending (apply_pending_migrations env pending)
        (apply_migration (env candidate.version) candidate tables)

  -- `migrate` behind the loading.
  unfoldable pub migrate_loaded :
      MigrateEnv → List Migration → Tables → Result (List MigrationError) (Unit {0}) × Tables
  migrate_loaded env migrations tables =
      if env.table_fails
      then (err (table_failed ∷ []), tables)
      else if env.query_fails
      then (err (query_failed ∷ []), tables)
      else let applied = sort_by (λ (r : AppliedMigration). r.version) tables.applied in
        elim (validate_applied_migrations migrations applied) [
          | err e ↦ (err (e ∷ []), tables)
          | ok valid ↦ apply_pending_migrations env.step (drop (length applied) migrations) tables
        ]

  unfoldable pub migrate :
      MigrateEnv → Option (List Entry) → Tables → Result (List MigrationError) (Unit {0}) × Tables
  migrate env files tables = elim (load_migrations files) [
    | err e ↦ (err (e ∷ []), tables)
    | ok migrations ↦ migrate_loaded env migrations tables
  ]
