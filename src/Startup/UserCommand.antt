-- ===== src/Startup/UserCommand.antt =====
-- cmd/gopanel/user_command.go. What the terminal and the package flag say is an argument.
pub mod Created
use gopanel.Common.{
  Bool, true, false, not, ◌||◌, List, [], ◌∷◌, ◌++◌, Option, none, some, Bytes, codes, eqb, null,
  trim_space, if◌then◌else◌,
}
use gopanel.Common.Result.{Result, ok, err}
use gopanel.Database.{Db}
use gopanel.Resource.{Event, end, recorded, Run, database}
use gopanel.Connection.{OpenEnv, OpenError, open_store}
use gopanel.Auth.Password.{PasswordError, hash_password}
use gopanel.Auth.Store.{User, StoreError, CreateUserEnv, create_user, normalize_email}
use gopanel.Auth.Service.{Externals}

pub data CommandError : Type 0 where
  unknown_command flags_rejected positional_arguments : CommandError
  not_a_terminal prompt_failed line_unread password_unread credentials_missing : CommandError
  database_open_failed migration_failed : CommandError
  email_rejected : CommandError
  password_rejected : PasswordError → CommandError
  creation_failed : StoreError → CommandError
  close_failed : CommandError

abbrev pub default_user_database_path : Bytes
default_user_database_path = codes "./gopanel.db"

abbrev option_path : Option (Option Bytes × Bool) → Result CommandError Bytes
option_path none = err flags_rejected
option_path (some (path, true)) = err positional_arguments
option_path (some (none, false)) = ok default_user_database_path
option_path (some (some path, false)) = ok path

-- `parse_flags` is flag.FlagSet.Parse with the option database-path, and whether arguments are left
-- over.
unfoldable pub parse_user_command :
    (parse_flags : List Bytes → Option (Option Bytes × Bool))
    → List Bytes
    → Result CommandError Bytes
parse_user_command parse_flags [] = err unknown_command
parse_user_command parse_flags (command ∷ arguments) =
    if not (eqb command (codes "create-admin"))
    then err unknown_command
    else option_path (parse_flags arguments)

pub record Terminal : Type 0 where
  pub is_terminal : Bool
  pub email_prompt_fails : Bool
  pub email_line : Option Bytes
  pub name_prompt_fails : Bool
  pub name_line : Option Bytes
  pub password_prompt_fails : Bool
  pub password_bytes : Option Bytes
  pub newline_fails : Bool

pub record AdminCredentials : Type 0 where
  pub email : Bytes
  pub name : Bytes
  pub password : Bytes

abbrev or_unread : CommandError → Option Bytes → Result CommandError Bytes
or_unread e none = err e
or_unread e (some value) = ok value

unfoldable pub read_line : (prompt_fails : Bool) → Option Bytes → Result CommandError Bytes
read_line prompt_fails line = if prompt_fails then err prompt_failed else or_unread line_unread line

abbrev given : (email name password : Bytes) → Result CommandError AdminCredentials
given email name password =
    if null email || null name || null password
    then err credentials_missing
    else ok (record { email = email; name = name; password = password })

abbrev with_password :
    Terminal
    → (email name : Bytes) → Result CommandError Bytes
    → Result CommandError AdminCredentials
with_password t email name (err e) = err e
with_password t email name (ok password) =
    if t.newline_fails
    then err prompt_failed
    else given (trim_space email) (trim_space name) password

abbrev with_name :
    Terminal → (email : Bytes) → Result CommandError Bytes → Result CommandError AdminCredentials
with_name t email (err e) = err e
with_name t email (ok name) =
    if t.password_prompt_fails
    then err prompt_failed
    else with_password t email name (or_unread password_unread t.password_bytes)

abbrev with_email : Terminal → Result CommandError Bytes → Result CommandError AdminCredentials
with_email t (err e) = err e
with_email t (ok email) = with_name t email (read_line t.name_prompt_fails t.name_line)

unfoldable pub read_admin_credentials : Terminal → Result CommandError AdminCredentials
unfolding read_line
read_admin_credentials t =
    if not t.is_terminal
    then err not_a_terminal
    else with_email t (read_line t.email_prompt_fails t.email_line)

-- What the surroundings decide in a call of `createAdmin`.
pub record AdminEnv : Type 0 where
  pub open_env : OpenEnv
  pub migrate_fails : Bool
  pub salt : Option Bytes
  pub create_env : CreateUserEnv
  pub close_fails : Bool

-- Errors that are joined: an empty list is nil.
abbrev pub Created : Type 0
Created = List CommandError × Db

module _ (ext : Externals) (env : AdminEnv) (credentials : AdminCredentials) where
  abbrev pub after_create : Result StoreError User × Db → Created
  after_create (ok user, db) = ([], db)
  after_create (err e, db) = (creation_failed e ∷ [], db)

  abbrev pub after_hash : (normalized : Bytes) → Result PasswordError Bytes → Db → Created
  after_hash normalized (err e) db = (password_rejected e ∷ [], db)
  after_hash normalized (ok hash) db =
      after_create (create_user env.create_env normalized credentials.name hash (codes "admin") db)

  abbrev pub after_email : Option Bytes → Db → Created
  after_email none db = (email_rejected ∷ [], db)
  after_email (some normalized) db =
      after_hash normalized (hash_password ext.id_key env.salt credentials.password) db

  -- `createAdmin` behind the migration, without the deferred close.
  abbrev pub stored : Db → Created
  stored db = after_email (normalize_email ext.to_lower ext.parse_address credentials.email) db

  abbrev pub body : Db → Created
  body db = if env.migrate_fails then (migration_failed ∷ [], db) else stored db

  -- errors.Join with the error of the deferred close
  abbrev pub closed : Created → Created
  closed (errors, db) = (if env.close_fails then errors ++ close_failed ∷ [] else errors, db)

  abbrev pub with_store : Result (List OpenError) (Unit {0}) → Db → Created
  with_store (err e) db = (database_open_failed ∷ [], db)
  with_store (ok opened) db = closed (body db)

  -- `createAdmin`, on the tables that the migrations leave.
  unfoldable pub create_admin : Db → Created
  create_admin db = with_store (open_store env.open_env).0 db

  abbrev pub failures : Result (List OpenError) (Unit {0}) → List Event
  failures (err e) = recorded (codes "database_open_failed") ∷ []
  failures (ok opened) =
      if env.migrate_fails
      then recorded (codes "migration_failed") ∷ end database ∷ []
      else end database ∷ []

  -- What `createAdmin` opens and closes, and records.
  unfoldable pub create_admin_events : List Event
  create_admin_events = (open_store env.open_env).1 ++ failures (open_store env.open_env).0
