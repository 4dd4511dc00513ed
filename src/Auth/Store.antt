-- ===== src/Auth/Store.antt =====
-- internal/auth/store.go. The clock, the random bytes and the failures of statements are arguments.
-- `sum` is sha256.Sum256, `to_lower` is strings.ToLower, `parse_address` is the Address that
-- mail.ParseAddress gives, and `before` is the order of RFC 3339 texts by which SQLite compares
-- stored times. A time is stored as text of nanoseconds in UTC and is read back as it was.
use gopanel.Common.{
  ℕ, ◌+◌, ◌*◌, Bool, false, not, ◌||◌, List, [], ◌∷◌, ◌++◌, Option, none, some, Bytes, eqb, length,
  ltb, trim_space, if◌then◌else◌,
}
use gopanel.Common.Split.{hex_encode}
use gopanel.Common.Result.{Result, ok, err}
use gopanel.Common.Base64
use gopanel.Database.{Db, UserRow, SessionRow, is_role}
use gopanel.Database.Rows.{any_row, find_row, delete_rows, count_rows}
use gopanel.Auth.RateLimit.{second}

-- 12 * time.Hour
abbrev pub session_lifetime : ℕ
session_lifetime = 12 * 3600 * second

pub record User : Type 0 where
  pub id : Bytes
  pub email : Bytes
  pub name : Bytes
  pub password_hash : Bytes
  pub role : Bytes

pub data StoreError : Type 0 where
  not_found query_failed random_failed insert_failed delete_failed : StoreError
  begin_failed update_failed invalidate_failed commit_failed rollback_failed : StoreError
  rows_failed : StoreError

abbrev pub user_of_row : UserRow → User
user_of_row row = record {
  id = row.id;
  email = row.email;
  name = row.name;
  password_hash = row.password_hash;
  role = row.role;
}

abbrev address_is : Bytes → Option Bytes → Bool
address_is normalized none = false
address_is normalized (some address) = eqb address normalized

module _ (to_lower : Bytes → Bytes) (parse_address : Bytes → Option Bytes) where
  -- `none` is the error.
  unfoldable pub normalize_email : Bytes → Option Bytes
  normalize_email value =
      let normalized = to_lower (trim_space value) in
      if not (address_is normalized (parse_address normalized)) || ltb 254 (length normalized)
      then none
      else some normalized

-- What the surroundings decide in a call of `CreateUser`.
pub record CreateUserEnv : Type 0 where
  pub random : Option Bytes
  pub now : ℕ
  pub insert_fails : Bool

-- The key and the e-mail are new, and the role passes the check.
abbrev pub user_refused : Bool → UserRow → Db → Bool
user_refused fails row db =
    fails
    || any_row (λ (u : UserRow). eqb u.id row.id) db.users
    || any_row (λ (u : UserRow). eqb u.email row.email) db.users
    || not (is_role row.role)

-- INSERT INTO users
unfoldable pub create_user :
    CreateUserEnv → (email name password_hash role : Bytes) → Db → Result StoreError User × Db
create_user env email name password_hash role db = elim env.random [
  | none ↦ (err random_failed, db)
  | some value ↦
      let row : UserRow = record {
        id = hex_encode value;
        email = email;
        name = trim_space name;
        password_hash = password_hash;
        role = role;
        created_at = env.now;
        updated_at = env.now;
      } in
      if user_refused env.insert_fails row db
      then (err insert_failed, db)
      else (ok (user_of_row row), record db { users = db.users ++ row ∷ [] })
]

abbrev pub found_user : Option UserRow → Result StoreError User
found_user none = err not_found
found_user (some row) = ok (user_of_row row)

-- SELECT … FROM users WHERE email=?
unfoldable pub find_user_by_email : Bool → Bytes → Db → Result StoreError User
find_user_by_email fails email db =
    if fails
    then err query_failed
    else found_user (find_row (λ (u : UserRow). eqb u.email email) db.users)

-- base64.RawURLEncoding
abbrev pub raw_url_encode : Bytes → Bytes
raw_url_encode = Base64.encode b'-' b'_'

pub record Granted : Type 0 where
  pub token : Bytes
  pub expires : ℕ

abbrev pub joined_user : ℕ → SessionRow → Option UserRow → Result StoreError User
joined_user now session none = err not_found
joined_user now session (some row) =
    if ltb now session.expires_at then ok (user_of_row row) else err not_found

abbrev pub joined : ℕ → List UserRow → Option SessionRow → Result StoreError User
joined now users none = err not_found
joined now users (some session) =
    joined_user now session (find_row (λ (u : UserRow). eqb u.id session.user_id) users)

module _ (sum : Bytes → Bytes) where
  abbrev pub token_hash : Bytes → Bytes
  token_hash token = hex_encode (sum token)

  abbrev pub session_row : Bytes → Bytes → ℕ → SessionRow
  session_row token user_id now = record {
    token_hash = token_hash token;
    user_id = user_id;
    expires_at = now + session_lifetime;
    created_at = now;
  }

  -- The key is taken, or the user does not exist.
  abbrev pub session_refused : Bool → SessionRow → Db → Bool
  session_refused fails row db =
      fails
      || any_row (λ (s : SessionRow). eqb s.token_hash row.token_hash) db.sessions
      || not (any_row (λ (u : UserRow). eqb u.id row.user_id) db.users)

  -- INSERT INTO sessions, for the 32 random bytes that rand.Read gives.
  unfoldable pub create_session :
      (random : Option Bytes) (insert_fails : Bool) (user_id : Bytes) (now : ℕ)
      → Db
      → Result StoreError Granted × Db
  create_session random insert_fails user_id now db = elim random [
    | none ↦ (err random_failed, db)
    | some raw ↦
        let token = raw_url_encode raw in
        let row = session_row token user_id now in
        if session_refused insert_fails row db then (err insert_failed, db) else (
          ok (record { token = token; expires = now + session_lifetime }),
          record db { sessions = db.sessions ++ row ∷ [] },
        )
  ]

  -- SELECT … FROM sessions s JOIN users u ON u.id=s.user_id WHERE s.token_hash=?
  unfoldable pub find_session : Bool → Bytes → ℕ → Db → Result StoreError User
  find_session fails token now db =
      if fails
      then err query_failed
      else joined now db.users
          (find_row (λ (s : SessionRow). eqb s.token_hash (token_hash token)) db.sessions)

  -- DELETE FROM sessions WHERE token_hash=?
  unfoldable pub delete_session : Bool → Bytes → Db → Result StoreError (Unit {0}) × Db
  delete_session fails token db = if fails then (err delete_failed, db) else (
    ok tt,
    record db {
      sessions = delete_rows (λ (s : SessionRow). eqb s.token_hash (token_hash token)) db.sessions;
    },
  )

-- DELETE FROM sessions WHERE user_id=?
unfoldable pub delete_user_sessions : Bool → Bytes → Db → Result StoreError (Unit {0}) × Db
delete_user_sessions fails user_id db = if fails then (err delete_failed, db) else (
  ok tt,
  record db { sessions = delete_rows (λ (s : SessionRow). eqb s.user_id user_id) db.sessions },
)

-- UPDATE users SET password_hash=?,updated_at=? WHERE id=?
unfoldable pub set_password : Bytes → Bytes → ℕ → List UserRow → List UserRow
set_password user_id hash now [] = []
set_password user_id hash now (u ∷ users) =
    (if eqb u.id user_id then record u { password_hash = hash; updated_at = now } else u)
    ∷ set_password user_id hash now users

-- What the surroundings decide in a call of `UpdatePassword`.
pub record UpdateEnv : Type 0 where
  pub now : ℕ
  pub begin_fails : Bool
  pub update_fails : Bool
  pub delete_fails : Bool
  pub commit_fails : Bool
  pub rollback_fails : Bool

-- `rollbackPasswordUpdate`: the errors that are joined.
unfoldable pub rollback_password_update : UpdateEnv → StoreError → List StoreError
rollback_password_update env update_error =
    if env.rollback_fails then update_error ∷ rollback_failed ∷ [] else update_error ∷ []

-- Both statements stand in one transaction: what is not committed leaves no trace.
unfoldable pub update_password :
    UpdateEnv → (user_id hash : Bytes) → Db → Result (List StoreError) (Unit {0}) × Db
unfolding rollback_password_update
update_password env user_id hash db =
    if env.begin_fails
    then (err (begin_failed ∷ []), db)
    else if env.update_fails
    then (err (rollback_password_update env update_failed), db)
    else if env.delete_fails
    then (err (rollback_password_update env invalidate_failed), db)
    else if env.commit_fails
    then (err (commit_failed ∷ []), db)
    else (
      ok tt,
      record db {
        users = set_password user_id hash env.now db.users;
        sessions = delete_rows (λ (s : SessionRow). eqb s.user_id user_id) db.sessions;
      },
    )

-- DELETE FROM sessions WHERE expires_at < ?, with the number of rows.
unfoldable pub cleanup_expired :
    (before : ℕ → ℕ → Bool) (delete_fails rows_fail : Bool) (now : ℕ)
    → Db
    → Result StoreError ℕ × Db
cleanup_expired before delete_fails rows_fail now db =
    if delete_fails
    then (err delete_failed, db)
    else let stale = λ (s : SessionRow). before s.expires_at now in
      let db' = record db { sessions = delete_rows stale db.sessions } in
      if rows_fail then (err rows_failed, db') else (ok (count_rows stale db.sessions), db')
