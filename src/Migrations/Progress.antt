-- ===== src/Migrations/Progress.antt =====
-- Running the migrations again and again, with failures at any place.
use gopanel.Common.{
  ℕ, ◌≡◌, ◌⊎◌, inl, inr, refl, sym, subst, map-append, ap, ◌∙◌, false, Bool-cases, ◌||◌, List, [],
  ◌∷◌, ◌++◌, map, append-nil, append_assoc, Option, none, some, Bytes, Option-cases, ◌==◌, arith,
}
use gopanel.Common.Result.{Result, ok, err}
use gopanel.Database.Rows.{any_row}
use gopanel.Migrations.{
  Migration, AppliedMigration, MigrationError, Entry, load_migrations, begin_failed, execute_failed,
  record_failed, commit_failed,
}
use gopanel.Migrations.Apply.{
  StepEnv, MigrateEnv, applied_of, rollback_migration, Tables, execute_migration, apply_migration,
  apply_pending_migrations, migrate_loaded, migrate, then_pending,
}
use gopanel.Migrations.Versions.{
  Numbered, load_migrations-Numbered, Numbered-append, sort_by-Numbered, validate-prefix,
  drop-prefix,
}

module _ {Schema : Type 0} (exec : Bytes → Schema → Option Schema) where
  -- The files' statements one after the other, the database's promise of `Migrate`.
  unfoldable pub run : List Migration → Schema → Option Schema
  run [] schema = some schema
  run (m ∷ ms) schema = elim (exec m.query schema) [ none ↦ none | some schema' ↦ run ms schema' ]

  run_last :
      (done : List Migration) (m : Migration) (initial schema last : Schema)
      → run done initial ≡ some schema
      → exec m.query schema ≡ some last
      → run (done ++ m ∷ []) initial ≡ some last
  unfolding run
  run_last [] m initial schema last h e = ground arith
  run_last (n ∷ done) m initial schema last h e = elim (Option-cases (exec n.query initial)) [
    | inl failed ↦ absurd (ground arith)
    | inr (next, q) ↦ rw q (run_last done m next schema last (ground (arith, h, q)) e)
  ]

  module _ (initial : Schema) (ms : List Migration) where
    -- Some of the migrations, from the first on, are recorded and have run, in order and once each.
    pub record Reached (tables : Tables {Schema = Schema} exec) : Type 0 where
      pub done : List Migration
      pub rest : List Migration
      pub parts : done ++ rest ≡ ms
      pub recorded : tables.applied ≡ map applied_of done
      pub ran : run done initial ≡ some tables.schema

    -- All of them are recorded and have run.
    abbrev pub Migrated : Tables exec → Type 0
    Migrated tables = (tables.applied ≡ map applied_of ms) × (run ms initial ≡ some tables.schema)

    abbrev pub Outcome : Result (List MigrationError) (Unit {0}) × Tables exec → Type 0
    Outcome (ok done, tables) = Migrated tables
    Outcome (err es, tables) = Reached tables

    Migrated-Reached : (tables : Tables exec) → Migrated tables → Reached tables
    Migrated-Reached tables (recorded, ran) = record {
      done = ms;
      rest = [];
      parts = append-nil ms;
      recorded = recorded;
      ran = ran;
    }

  apply_cases :
      (env : StepEnv) (m : Migration) (tables : Tables exec)
      → ((es : List MigrationError) × (apply_migration exec env m tables ≡ (err es, tables)))
        ⊎ ((schema : Schema) × (exec m.query tables.schema ≡ some schema)
            × (apply_migration exec env m tables ≡ (
              ok tt,
              record { applied = tables.applied ++ applied_of m ∷ []; schema = schema },
            )))
  unfolding apply_migration execute_migration rollback_migration
  apply_cases env m tables = elim (Bool-cases env.begin_fails) [
    | inl a ↦ inl (begin_failed m.version ∷ [], rw a refl)
    | inr a ↦ elim (Option-cases (exec m.query tables.schema)) [
      | inl b ↦ inl (rollback_migration env m.version (execute_failed m.version), rw (a, b) refl)
      | inr (schema, b) ↦
          elim (Bool-cases (
            env.record_fails
            || any_row (λ (r : AppliedMigration). r.version == m.version) tables.applied)) [
              | inl c ↦
                  inl
                    (rollback_migration env m.version (record_failed m.version), rw (a, b, c) refl)
              | inr c ↦ elim (Bool-cases env.commit_fails) [
                | inl d ↦ inl (commit_failed m.version ∷ [], rw (a, b, c, d) refl)
                | inr d ↦ inr (schema, b, rw (a, b, c, d) refl)
              ]
            ]
    ]
  ]

  module _ (initial : Schema) (ms : List Migration) where
    pending-Outcome :
        (env : ℕ → StepEnv) (done rest : List Migration) (tables : Tables exec)
        → done ++ rest ≡ ms
        → tables.applied ≡ map applied_of done
        → run done initial ≡ some tables.schema
        → Outcome initial ms (apply_pending_migrations exec env rest tables)
    unfolding apply_pending_migrations
    pending-Outcome env done [] tables parts recorded ran =
        let all : done ≡ ms = sym (append-nil done) ∙ parts in
        (recorded ∙ ap (map applied_of) all, rw all at ran)
    pending-Outcome env done (m ∷ rest) tables parts recorded ran =
        let after = λ (r : Result (List MigrationError) (Unit {0}) × Tables exec).
          Outcome initial ms (then_pending exec (apply_pending_migrations exec env rest) r) in
        elim (apply_cases (env m.version) m tables) [
          | inl (es, failed) ↦ subst after (sym failed) (record {
            done = done;
            rest = m ∷ rest;
            parts = parts;
            recorded = recorded;
            ran = ran;
          })
          | inr (schema, e, applied) ↦ subst after (sym applied) (
              pending-Outcome env (done ++ m ∷ []) rest _ (append_assoc done (m ∷ []) rest ∙ parts)
                (rw recorded (sym (map-append applied_of done (m ∷ []))))
                (run_last done m initial tables.schema schema ran e))
        ]

    -- What a database whose reached migrations are known goes on with.
    pub migrate_loaded-pending :
        (env : MigrateEnv) (done rest : List Migration) (tables : Tables exec)
        → done ++ rest ≡ ms
        → tables.applied ≡ map applied_of done
        → Numbered 0 ms
        → env.table_fails ≡ false
        → env.query_fails ≡ false
        → migrate_loaded exec env ms tables ≡ apply_pending_migrations exec env.step rest tables
    unfolding migrate_loaded
    migrate_loaded-pending env done rest tables parts recorded numbered a b =
        let sorted = sort_by-Numbered 0 done (Numbered-append 0 done rest (rw parts numbered)).0 in
        simp (a, b, recorded, sorted, ← parts, validate-prefix done rest, drop-prefix done rest)

    migrate_loaded-Outcome :
        (env : MigrateEnv) (tables : Tables exec)
        → Numbered 0 ms
        → Reached initial ms tables
        → Outcome initial ms (migrate_loaded exec env ms tables)
    unfolding migrate_loaded
    migrate_loaded-Outcome env tables numbered reached =
        let all = Outcome initial ms in
        elim (Bool-cases env.table_fails) [
          | inl a ↦ rw a reached
          | inr a ↦ elim (Bool-cases env.query_fails) [
            | inl b ↦ rw (a, b) reached
            | inr b ↦
                subst all
                  (sym (
                    migrate_loaded-pending env reached.done reached.rest tables reached.parts
                      reached.recorded numbered a b))
                  (pending-Outcome env.step reached.done reached.rest tables reached.parts
                    reached.recorded reached.ran)
          ]
        ]

pub migrate-load_migrations :
    {Schema : Type 0} (exec : Bytes → Schema → Option Schema) (env : MigrateEnv)
    (files : Option (List Entry)) (ms : List Migration) (tables : Tables exec)
    → load_migrations files ≡ ok ms
    → migrate_loaded exec env ms tables ≡ migrate exec env files tables
unfolding migrate
migrate-load_migrations exec env files ms tables loaded = rw (migrate, loaded) refl

-- Whatever fails in a run of the migrations, and wherever the run before it stopped, the database
-- ends with some first part of the migrations recorded and run, in order and once each; where the
-- run gives no error, with all of them.
pub migrate-Outcome :
    {Schema : Type 0} (exec : Bytes → Schema → Option Schema) (initial : Schema) (env : MigrateEnv)
    (files : Option (List Entry)) (ms : List Migration) (tables : Tables exec)
    → load_migrations files ≡ ok ms
    → Reached exec initial ms tables
    → Outcome exec initial ms (migrate exec env files tables)
migrate-Outcome exec initial env files ms tables loaded reached =
    subst (Outcome exec initial ms) (migrate-load_migrations exec env files ms tables loaded) (
      migrate_loaded-Outcome exec initial ms env tables (load_migrations-Numbered files ms loaded)
        reached)
