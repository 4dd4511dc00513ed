-- ===== src/Migrations/Versions.antt =====
-- internal/store/migrations.go: the versions of the migrations, and a first part of them.
use gopanel.Common.{
  ℕ, suc, ◌+◌, ◌≡◌, ◌≤◌, refl, false, List, [], ◌∷◌, ◌++◌, map, Option, none, some, eqb_self,
  length, drop, length-append, length-map, ◌==◌, arith,
}
use gopanel.Common.Result.{Result, ok, err, ◌>>=◌}
use gopanel.Database.Rows.{any_row}
use gopanel.Migrations.{
  Migration, AppliedMigration, MigrationError, Entry, parse_migration_entries, insert_sorted,
  sort_by, validate_migration_sequence, load_migrations,
}
use gopanel.Migrations.Apply.{applied_of, check_applied, validate_applied_migrations}

-- The versions are consecutive, the first is one above the index.
abbrev pub Numbered : ℕ → List Migration → Type 0
Numbered index [] = Unit
Numbered index (m ∷ ms) = (m.version ≡ index + 1) × Numbered (index + 1) ms

validate-Numbered :
    (index : ℕ) (ms : List Migration)
    → validate_migration_sequence index ms ≡ ok tt
    → Numbered index ms
unfolding validate_migration_sequence
validate-Numbered index [] h = tt
validate-Numbered index (m ∷ ms) h = (ground arith, validate-Numbered (index + 1) ms (ground arith))

checked :
    (r : Result MigrationError (Unit {0})) (xs ys : List Migration)
    → (r >>= λ _. ok xs) ≡ ok ys
    → (r ≡ ok tt) × (xs ≡ ys)
checked (ok tt) xs ys h = (refl, ground arith)
checked (err e) xs ys h = cc

parsed_Numbered :
    (r : Result MigrationError (List Migration)) (ms : List Migration)
    → (r >>= λ parsed.
        let migrations = sort_by (λ m. m.version) parsed in
        validate_migration_sequence 0 migrations >>= λ _. ok migrations)
      ≡ ok ms
    → Numbered 0 ms
parsed_Numbered (err e) ms h = cc
parsed_Numbered (ok parsed) ms h =
    let (valid, same) =
      checked (validate_migration_sequence 0 (sort_by (λ m. m.version) parsed)) _ ms h in
    rw (← same) (validate-Numbered 0 _ valid)

-- The migrations that are loaded have the versions 1, 2, 3 and so on, without a gap.
pub load_migrations-Numbered :
    (files : Option (List Entry)) (ms : List Migration)
    → load_migrations files ≡ ok ms
    → Numbered 0 ms
unfolding load_migrations
load_migrations-Numbered none ms h = cc
load_migrations-Numbered (some entries) ms h =
    parsed_Numbered (parse_migration_entries entries) ms h

pub Numbered-append :
    (index : ℕ) (done rest : List Migration)
    → Numbered index (done ++ rest)
    → Numbered index done × Numbered (length done + index) rest
Numbered-append index [] rest h = let same : 0 + index ≡ index = omega arith in (tt, rw same h)
Numbered-append index (m ∷ done) rest (v, h) =
    let (a, b) = Numbered-append (index + 1) done rest h in
    let same : length done + (index + 1) ≡ suc (length done) + index = omega arith in
    ((v, a), rw same at b)

version_of : AppliedMigration → ℕ
version_of r = r.version

insert_first :
    (index : ℕ) (m : Migration) (ms : List Migration)
    → Numbered index (m ∷ ms)
    → insert_sorted (λ (r : AppliedMigration). r.version) (applied_of m) (map applied_of ms)
      ≡ applied_of m ∷ map applied_of ms
unfolding insert_sorted
insert_first index m [] h = refl
insert_first index m (n ∷ ms) (v, (w, h)) = ground arith

pub sort_by-Numbered :
    (index : ℕ) (ms : List Migration)
    → Numbered index ms
    → sort_by (λ (r : AppliedMigration). r.version) (map applied_of ms) ≡ map applied_of ms
unfolding sort_by
sort_by-Numbered index [] h = refl
sort_by-Numbered index (m ∷ ms) (v, h) =
    rw (sort_by-Numbered (index + 1) ms h) (insert_first index m ms (v, h))

check_applied-prefix :
    (done rest : List Migration) → check_applied (done ++ rest) (map applied_of done) ≡ ok tt
unfolding check_applied
check_applied-prefix [] rest = refl
check_applied-prefix (m ∷ done) rest =
    rw (eqb_self m.name) (ground (arith, check_applied-prefix done rest))

pub validate-prefix :
    (done rest : List Migration)
    → validate_applied_migrations (done ++ rest) (map applied_of done) ≡ ok tt
unfolding validate_applied_migrations
validate-prefix done rest =
    ground
      (arith, check_applied-prefix done rest, length-append done rest, length-map applied_of done)

pub drop-prefix :
    (done rest : List Migration) → drop (length (map applied_of done)) (done ++ rest) ≡ rest
drop-prefix [] rest = refl
drop-prefix (m ∷ done) rest = drop-prefix done rest

-- A version behind the applied ones is not among them.
pub any_row-Numbered :
    (index version : ℕ) (done : List Migration)
    → Numbered index done
    → suc (length done + index) ≤ version
    → any_row (λ (r : AppliedMigration). r.version == version) (map applied_of done) ≡ false
unfolding any_row
any_row-Numbered index version [] h late = refl
any_row-Numbered index version (m ∷ done) (v, h) late =
    ground (arith, any_row-Numbered (index + 1) version done h (omega arith))
