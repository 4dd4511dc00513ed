-- ===== src/Migrations.antt =====
-- internal/store/migrations.go: reading the migration files. The file system is an argument: the
-- entries of the directory, each with the contents that a read of it gives.
mod Examples
pub mod Apply
pub mod Complete
pub mod Progress
pub mod Versions
use gopanel.Common.{
  ℕ, suc, ◌+◌, ◌-◌, ◌*◌, Bool, true, false, not, ◌&&◌, ◌||◌, List, [], ◌∷◌, Option, none, some,
  Bytes, codes, eqb, length, take, drop, leb, ltb, ◌==◌, if◌then◌else◌, has_suffix, trim_space,
  null,
}
use gopanel.Common.Int.{ℤ, pos, negsuc}
use gopanel.Common.Result.{Result, ok, err, ◌>>=◌}

pub record Migration : Type 0 where
  pub version : ℕ
  pub name : Bytes
  pub query : Bytes

pub record AppliedMigration : Type 0 where
  pub version : ℕ
  pub name : Bytes

pub data MigrationError : Type 0 where
  directory_failed table_failed query_failed newer_schema : MigrationError
  misnamed bad_version read_failed empty_file : (filename : Bytes) → MigrationError
  out_of_sequence : (expected found : ℕ) → MigrationError
  incompatible begin_failed execute_failed record_failed : (version : ℕ) → MigrationError
  commit_failed rollback_failed : (version : ℕ) → MigrationError

-- An entry of the directory. `none` is a read that fails.
pub record Entry : Type 0 where
  pub name : Bytes
  pub is_dir : Bool
  pub contents : Option Bytes

-- path.Ext of a name without a slash: the text from the last dot.
unfoldable pub ext : Bytes → Bytes
ext [] = []
ext (c ∷ s) = let rest = ext s in if not (null rest) then rest else if c == b'.' then c ∷ s else []

-- strings.TrimSuffix
unfoldable pub trim_suffix : Bytes → Bytes → Bytes
trim_suffix s p = if has_suffix s p then take (length s - length p) s else s

-- strings.SplitN at one byte, into two parts at most: the part behind the separator, if there is one.
unfoldable pub split_two : ℕ → Bytes → Bytes × Option Bytes
split_two sep [] = ([], none)
split_two sep (c ∷ s) =
    let (before, after) = split_two sep s in if c == sep then ([], some s) else (c ∷ before, after)

unfoldable pub digits : ℕ → Bytes → Option ℕ
digits n [] = some n
digits n (c ∷ s) = if leb b'0' c && leb c b'9' then digits (n * 10 + (c - b'0')) s else none

abbrev signed : Bool → Option ℕ → Option ℤ
signed negative none = none
signed negative (some ℕ.zero) = some (pos 0)
signed true (some (suc n)) = some (negsuc n)
signed false (some (suc n)) = some (pos (suc n))

-- strconv.Atoi on a text of few bytes, where the value fits.
unfoldable pub atoi : Bytes → Option ℤ
unfolding digits
atoi [] = none
atoi (c ∷ s) =
    if c == b'-' || c == b'+'
    then if null s then none else signed (c == b'-') (digits 0 s)
    else signed false (digits 0 (c ∷ s))

abbrev checked_version : Bytes → Option ℤ → Result MigrationError ℕ
checked_version filename (some (pos (suc n))) = ok (suc n)
checked_version filename _ = err (bad_version filename)

abbrev parse_parts : Bytes → Bytes × Option Bytes → Result MigrationError ℕ
parse_parts filename (first, none) = err (misnamed filename)
parse_parts filename (first, some second) =
    if not (length first == 4) || null second
    then err (misnamed filename)
    else checked_version filename (atoi first)

unfoldable pub parse_migration_version : Bytes → Result MigrationError ℕ
parse_migration_version filename =
    parse_parts filename (split_two b'_' (trim_suffix filename (codes ".sql")))

abbrev pub with_contents : ℕ → Bytes → Option Bytes → Result MigrationError Migration
with_contents version filename none = err (read_failed filename)
with_contents version filename (some contents) =
    let query = trim_space contents in
    if null query
    then err (empty_file filename)
    else ok (record { version = version; name = filename; query = query })

unfoldable pub parse_migration : Entry → Result MigrationError Migration
parse_migration entry = parse_migration_version entry.name >>= λ version.
    with_contents version entry.name entry.contents

unfoldable pub parse_migration_entries : List Entry → Result MigrationError (List Migration)
parse_migration_entries [] = ok []
parse_migration_entries (entry ∷ entries) =
    let rest = parse_migration_entries entries in
    if entry.is_dir || not (eqb (ext entry.name) (codes ".sql"))
    then rest
    else parse_migration entry >>= λ parsed. rest >>= λ migrations. ok (parsed ∷ migrations)

module _ {A : Type 0} (version : A → ℕ) where
  unfoldable pub insert_sorted : A → List A → List A
  insert_sorted x [] = x ∷ []
  insert_sorted x (y ∷ ys) =
      if ltb (version y) (version x) then y ∷ insert_sorted x ys else x ∷ y ∷ ys

  -- sort.Slice by version, and ORDER BY version. Equal versions are refused behind it.
  unfoldable pub sort_by : List A → List A
  unfolding insert_sorted
  sort_by [] = []
  sort_by (x ∷ xs) = insert_sorted x (sort_by xs)

-- The loop of `validateMigrationSequence` from an index.
unfoldable pub validate_migration_sequence : ℕ → List Migration → Result MigrationError (Unit {0})
validate_migration_sequence index [] = ok tt
validate_migration_sequence index (candidate ∷ migrations) =
    let expected = index + 1 in
    if not (candidate.version == expected)
    then err (out_of_sequence expected candidate.version)
    else validate_migration_sequence (index + 1) migrations

-- `none` is a directory that cannot be read.
unfoldable pub load_migrations : Option (List Entry) → Result MigrationError (List Migration)
load_migrations none = err directory_failed
load_migrations (some entries) = parse_migration_entries entries >>= λ parsed.
    let migrations = sort_by (λ m. m.version) parsed in
    validate_migration_sequence 0 migrations >>= λ _. ok migrations
