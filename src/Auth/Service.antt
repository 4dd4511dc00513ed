-- ===== src/Auth/Service.antt =====
-- internal/auth/service.go, over the store, the limiter and the password functions.
pub mod Login
pub mod Revocation
pub mod Sessions
pub mod Expiry
use gopanel.Common.{
  ℕ, Bool, true, false, not, List, [], ◌∷◌, Option, none, some, Bytes, codes, eqb, if◌then◌else◌,
}
use gopanel.Common.Result.{Result, ok, err}
use gopanel.Database.{Db}
use gopanel.Auth.RateLimit
use gopanel.Auth.RateLimit.{LoginLimiter}
use gopanel.Auth.Password.{PasswordError, hash_password, verify_password}
use gopanel.Auth.Store.{
  User, StoreError, Granted, UpdateEnv, normalize_email, find_user_by_email, create_session,
  find_session, delete_session, update_password, cleanup_expired,
}

-- The errors of the service. A backend error has its operation and the store's errors.
pub data AuthError : Type 0 where
  rate_limited invalid_credentials password_mismatch not_found : AuthError
  refused_password : PasswordError → AuthError
  backend : (operation : Bytes) (causes : List StoreError) → AuthError

pub record State : Type 0 where
  pub limiter : LoginLimiter
  pub db : Db

-- What the surroundings decide in a call of `Login`.
pub record LoginEnv : Type 0 where
  pub global_now : ℕ
  pub account_now : ℕ
  pub find_fails : Bool
  pub session_now : ℕ
  pub session_random : Option Bytes
  pub insert_fails : Bool

pub record LoggedIn : Type 0 where
  pub user : User
  pub token : Bytes
  pub expires : ℕ

-- What the code takes from other libraries.
pub record Externals : Type 0 where
  -- strings.ToLower
  pub to_lower : Bytes → Bytes
  -- the Address of mail.ParseAddress
  pub parse_address : Bytes → Option Bytes
  -- argon2.IDKey
  pub id_key : (password salt : Bytes) (iterations memory parallelism key_length : ℕ) → Bytes
  -- sha256.Sum256
  pub sum : Bytes → Bytes

abbrev grant_reply :
    LoginLimiter → User → Result StoreError Granted × Db → Result AuthError LoggedIn × State
grant_reply limiter user (ok granted, db) = (
  ok (record { user = user; token = granted.token; expires = granted.expires }),
  record { limiter = limiter; db = db },
)
grant_reply limiter user (err e, db) =
    (err (backend (codes "session creation") (e ∷ [])), record { limiter = limiter; db = db })

abbrev updated : Result (List StoreError) (Unit {0}) × Db → Result AuthError (Unit {0}) × Db
updated (ok done, db) = (ok done, db)
updated (err es, db) = (err (backend (codes "password update") es), db)

abbrev pub session_reply : Result StoreError User → Result AuthError User
session_reply (ok user) = ok user
session_reply (err StoreError.not_found) = err not_found
session_reply (err e) = err (backend (codes "session lookup") (e ∷ []))

abbrev deleted : Result StoreError (Unit {0}) × Db → Result AuthError (Unit {0}) × Db
deleted (ok done, db) = (ok done, db)
deleted (err e, db) = (err (backend (codes "session deletion") (e ∷ [])), db)

module _ (ext : Externals) where
  -- The body of `Login` behind the look at the user.
  abbrev check_user :
      LoginEnv
      → (normalized password : Bytes) → State
      → Result StoreError User
      → Result AuthError LoggedIn × State
  check_user env normalized password s (err StoreError.not_found) = (err invalid_credentials, s)
  check_user env normalized password s (err e) = (err (backend (codes "user lookup") (e ∷ [])), s)
  check_user env normalized password s (ok user) =
      if not (verify_password ext.id_key user.password_hash password)
      then (err invalid_credentials, s)
      else grant_reply (RateLimit.reset s.limiter normalized) user
          (create_session ext.sum env.session_random env.insert_fails user.id env.session_now s.db)

  -- The body of `Login` behind the normalised address.
  abbrev login_as :
      LoginEnv → (password : Bytes) → State → Option Bytes → Result AuthError LoggedIn × State
  login_as env password s none = (err invalid_credentials, s)
  login_as env password s (some normalized) =
      let (limiter, allowed) = RateLimit.allow_account s.limiter normalized env.account_now in
      let s' : State = record s { limiter = limiter } in
      if not allowed
      then (err rate_limited, s')
      else check_user env normalized password s'
          (find_user_by_email env.find_fails normalized s'.db)

  -- The password check of an unknown user has no result and is left out.
  unfoldable pub login :
      LoginEnv → (email password : Bytes) → State → Result AuthError LoggedIn × State
  login env email password s =
      let (limiter, allowed) = RateLimit.allow_global s.limiter env.global_now in
      let s' : State = record s { limiter = limiter } in
      if not allowed
      then (err rate_limited, s')
      else login_as env password s' (normalize_email ext.to_lower ext.parse_address email)

  -- The random bytes are the new salt's.
  unfoldable pub change_password :
      Option Bytes
      → UpdateEnv
      → User
      → (current next confirm : Bytes) → Db
      → Result AuthError (Unit {0}) × Db
  change_password random env user current next confirm db =
      if not (verify_password ext.id_key user.password_hash current)
      then (err invalid_credentials, db)
      else if not (eqb next confirm)
      then (err password_mismatch, db)
      else elim (hash_password ext.id_key random next) [
        | err e ↦ (err (refused_password e), db)
        | ok hash ↦ updated (update_password env user.id hash db)
      ]

  unfoldable pub user_for_session :
      (fails : Bool) (now : ℕ) (token : Bytes) → Db → Result AuthError User
  user_for_session fails now token db = session_reply (find_session ext.sum fails token now db)

  unfoldable pub logout : (fails : Bool) (token : Bytes) → Db → Result AuthError (Unit {0}) × Db
  logout fails token db = deleted (delete_session ext.sum fails token db)

abbrev cleaned : Result StoreError ℕ × Db → Result AuthError ℕ × Db
cleaned (ok removed, db) = (ok removed, db)
cleaned (err e, db) = (err (backend (codes "session cleanup") (e ∷ [])), db)

unfoldable pub cleanup :
    (before : ℕ → ℕ → Bool) (delete_fails rows_fail : Bool) (now : ℕ) → Db → Result AuthError ℕ × Db
cleanup before delete_fails rows_fail now db =
    cleaned (cleanup_expired before delete_fails rows_fail now db)
