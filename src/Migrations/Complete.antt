-- ===== src/Migrations/Complete.antt =====
-- A run of the migrations on which nothing fails from outside.
use gopanel.Common.{
  ℕ, ◌≡◌, inl, inr, refl, sym, map-append, ap, ◌∙◌, false, List, [], ◌∷◌, ◌++◌, map, append_assoc,
  Option, some, Bytes, Option-cases, ◌==◌, arith,
}
use gopanel.Common.Result.{Result, ok, err}
use gopanel.Database.Rows.{any_row}
use gopanel.Migrations.{Migration, AppliedMigration, MigrationError, Entry, load_migrations}
use gopanel.Migrations.Apply.{
  MigrateEnv, applied_of, Tables, execute_migration, apply_migration, apply_pending_migrations,
  migrate,
}
use gopanel.Migrations.Versions.{
  Numbered, load_migrations-Numbered, Numbered-append, any_row-Numbered,
}
use gopanel.Migrations.Progress.{
  run, Reached, Migrated, Outcome, migrate_loaded-pending, migrate-load_migrations, migrate-Outcome,
}

-- Nothing fails but what the files' statements decide.
pub record Quiet (env : MigrateEnv) : Type 0 where
  pub table : env.table_fails ≡ false
  pub query : env.query_fails ≡ false
  pub begins : (version : ℕ) → (env.step version).begin_fails ≡ false
  pub records : (version : ℕ) → (env.step version).record_fails ≡ false
  pub commits : (version : ℕ) → (env.step version).commit_fails ≡ false

module _ {Schema : Type 0} (exec : Bytes → Schema → Option Schema) where
  run-append :
      (done rest : List Migration) (initial schema : Schema)
      → run exec done initial ≡ some schema
      → run exec (done ++ rest) initial ≡ run exec rest schema
  unfolding run
  run-append [] rest initial schema h = ground arith
  run-append (n ∷ done) rest initial schema h = elim (Option-cases (exec n.query initial)) [
    | inl failed ↦ absurd (ground arith)
    | inr (next, q) ↦ rw q (run-append done rest next schema (ground (arith, h, q)))
  ]

  applies_next :
      (env : MigrateEnv) (m : Migration) (tables : Tables exec) (schema : Schema)
      → Quiet env
      → exec m.query tables.schema ≡ some schema
      → any_row (λ (r : AppliedMigration). r.version == m.version) tables.applied ≡ false
      → apply_migration exec (env.step m.version) m tables
        ≡ (ok tt, record { applied = tables.applied ++ applied_of m ∷ []; schema = schema })
  unfolding apply_migration execute_migration
  applies_next env m tables schema q e new =
      rw (q.begins m.version, e, q.records m.version, new, q.commits m.version) refl

  pending-completes :
      (env : MigrateEnv) (done rest : List Migration) (tables : Tables exec) (final : Schema)
      → Quiet env
      → tables.applied ≡ map applied_of done
      → Numbered 0 (done ++ rest)
      → run exec rest tables.schema ≡ some final
      → (apply_pending_migrations exec env.step rest tables).0 ≡ ok tt
  unfolding apply_pending_migrations run
  pending-completes env done [] tables final q recorded numbered ran = refl
  pending-completes env done (m ∷ rest) tables final q recorded numbered ran =
      elim (Option-cases (exec m.query tables.schema)) [
        | inl failed ↦ absurd (ground arith)
        | inr (schema, e) ↦
            let (before, (v, after)) = Numbered-append 0 done (m ∷ rest) numbered in
            let new = any_row-Numbered 0 m.version done before (omega (arith, v)) in
            rw (applies_next env m tables schema q e (rw recorded new)) (
              pending-completes env (done ++ m ∷ []) rest _ final q
                (rw recorded (sym (map-append applied_of done (m ∷ []))))
                (rw (append_assoc done (m ∷ []) rest) numbered) (ground (arith, ran, e)))
      ]

when_ok :
    {Schema : Type 0} (exec : Bytes → Schema → Option Schema) (initial : Schema)
    (ms : List Migration) (r : Result (List MigrationError) (Unit {0}) × Tables exec)
    → Outcome exec initial ms r
    → r.0 ≡ ok tt
    → Migrated exec initial ms r.1
when_ok exec initial ms (ok done, tables) h e = h
when_ok exec initial ms (err es, tables) h e = cc

-- A run of the migrations on which nothing fails from outside, and whose files' statements SQLite
-- takes one after the other from the first database, gives no error and ends with all of them
-- recorded and run once, wherever the run before it stopped.
pub migrate-Migrated :
    {Schema : Type 0} (exec : Bytes → Schema → Option Schema) (initial final : Schema)
    (env : MigrateEnv) (files : Option (List Entry)) (ms : List Migration) (tables : Tables exec)
    → load_migrations files ≡ ok ms
    → Reached exec initial ms tables
    → run exec ms initial ≡ some final
    → Quiet env
    → ((migrate exec env files tables).0 ≡ ok tt)
      × Migrated exec initial ms (migrate exec env files tables).1
migrate-Migrated exec initial final env files ms tables loaded reached all q =
    let numbered = load_migrations-Numbered files ms loaded in
    let onward = run-append exec reached.done reached.rest initial tables.schema reached.ran in
    let ran : run exec reached.rest tables.schema ≡ some final =
      sym onward ∙ ap (λ l. run exec l initial) reached.parts ∙ all in
    let completes =
      pending-completes exec env reached.done reached.rest tables final q reached.recorded
        (rw reached.parts numbered) ran in
    let same : migrate exec env files tables
        ≡ apply_pending_migrations exec env.step reached.rest tables =
      sym (migrate-load_migrations exec env files ms tables loaded)
      ∙ (migrate_loaded-pending exec initial ms env reached.done reached.rest tables reached.parts
          reached.recorded numbered q.table q.query) in
    let done = ap (λ r. r.0) same ∙ completes in
    (
      done,
      when_ok exec initial ms _ (migrate-Outcome exec initial env files ms tables loaded reached)
          done,
    )
