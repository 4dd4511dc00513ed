-- ===== src/Migrations/Examples.antt =====
-- The theorems on the migrations at concrete inputs.
use gopanel.Common.{
  [], ◌∷◌, ◌++◌, ◌≡◌, List, Option, none, some, Bytes, true, false, codes, refl, eqb, has_suffix,
  trim_space,
}
use gopanel.Common.Result.{ok}
use gopanel.Migrations.{
  Migration, Entry, ext, trim_suffix, split_two, atoi, parse_migration_version, parse_migration,
  parse_migration_entries, sort_by, validate_migration_sequence, load_migrations,
}
use gopanel.Migrations.Apply.{StepEnv, MigrateEnv, Tables, applied_of, migrate}
use gopanel.Migrations.Versions.{Numbered, load_migrations-Numbered}
use gopanel.Migrations.Progress.{run, Reached, Outcome, Migrated, migrate-Outcome}
use gopanel.Migrations.Complete.{Quiet, migrate-Migrated}

abbrev initial : Migration
initial = record { version = 1; name = codes "0001_initial.sql"; query = codes "A" }

abbrev audit : Migration
audit = record { version = 2; name = codes "0002_audit.sql"; query = codes "B" }

-- The directory, not in the order of the versions, with a file of another kind.
abbrev files : Option (List Entry)
files = some (
    record { name = codes "0002_audit.sql"; is_dir = false; contents = some (codes "B") }
    ∷ record { name = codes "README.md"; is_dir = false; contents = none }
    ∷ record { name = codes "0001_initial.sql"; is_dir = false; contents = some (codes " A ") }
    ∷ [])

-- The statements that have run.
abbrev execute : Bytes → List Bytes → Option (List Bytes)
execute query done = some (done ++ query ∷ [])

loaded : load_migrations files ≡ ok (initial ∷ audit ∷ [])
unfolding load_migrations parse_migration_entries ext eqb parse_migration parse_migration_version
    trim_suffix split_two atoi has_suffix trim_space sort_by validate_migration_sequence
loaded = refl

-- The first migration is done.
abbrev tables : Tables execute
tables = record { applied = applied_of initial ∷ []; schema = codes "A" ∷ [] }

tables-Reached : Reached execute [] (initial ∷ audit ∷ []) tables
unfolding run
tables-Reached = record {
  done = initial ∷ [];
  rest = audit ∷ [];
  parts = refl;
  recorded = refl;
  ran = refl;
}

abbrev step : StepEnv
step = record {
  begin_fails = false;
  record_fails = false;
  commit_fails = false;
  rollback_fails = false;
}

abbrev smooth : MigrateEnv
smooth = record { table_fails = false; query_fails = false; step = λ version. step }

smooth-Quiet : Quiet smooth
smooth-Quiet = record {
  table = refl;
  query = refl;
  begins = λ version. refl;
  records = λ version. refl;
  commits = λ version. refl;
}

abbrev failing : MigrateEnv
failing = record smooth { step = λ version. record step { commit_fails = true } }

load_migrations-Numbered_example : Numbered 0 (initial ∷ audit ∷ [])
load_migrations-Numbered_example = load_migrations-Numbered files (initial ∷ audit ∷ []) loaded

migrate-Outcome_example :
    Outcome execute [] (initial ∷ audit ∷ []) (migrate execute failing files tables)
migrate-Outcome_example =
    migrate-Outcome execute [] failing files (initial ∷ audit ∷ []) tables loaded tables-Reached

all_run : run execute (initial ∷ audit ∷ []) [] ≡ some (codes "A" ∷ codes "B" ∷ [])
unfolding run
all_run = refl

migrate-Migrated_example :
    ((migrate execute smooth files tables).0 ≡ ok tt)
    × Migrated execute [] (initial ∷ audit ∷ []) (migrate execute smooth files tables).1
migrate-Migrated_example =
    migrate-Migrated execute [] (codes "A" ∷ codes "B" ∷ []) smooth files (initial ∷ audit ∷ [])
      tables loaded tables-Reached all_run smooth-Quiet
