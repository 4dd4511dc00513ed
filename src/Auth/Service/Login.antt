-- ===== src/Auth/Service/Login.antt =====
-- What a login does, on every branch, and that the session that it grants is found.
use gopanel.Common.{
  ℕ, ◌+◌, ◌<◌, ◌≡◌, inl, inr, refl, Bool, true, false, Bool-cases, not, ◌||◌, List, [], ◌∷◌, ◌++◌,
  Option, none, some, Bytes, eqb, eqb_iff, eqb_self, arith, if◌then◌else◌,
}
use gopanel.Common.Assoc.{lookup, lookup-remove}
use gopanel.Common.Result.{Result, ok, err}
use gopanel.Database.{Db, UserRow, SessionRow}
use gopanel.Database.Rows.{any_row, find_row, find_row-append}
use gopanel.Auth.Password.{verify_password}
use gopanel.Auth.RateLimit
use gopanel.Auth.RateLimit.{LoginLimiter}
use gopanel.Auth.Store.{
  user_of_row, found_user, token_hash, session_row, session_refused, normalize_email,
  find_user_by_email, create_session, find_session, session_lifetime, raw_url_encode,
}
use gopanel.Auth.Service.{
  AuthError, State, LoginEnv, LoggedIn, Externals, grant_reply, check_user, login_as, login,
}
use gopanel.Auth.Service.Sessions.{Live-find_session, by_hash, by_id}

-- The user's identifier is a key.
abbrev pub UniqueIds : List UserRow → Type 0
UniqueIds [] = Unit
UniqueIds (u ∷ us) = (any_row (λ (v : UserRow). eqb v.id u.id) us ≡ false) × UniqueIds us

or_false : (a b c : Bool) → (a || b || c) ≡ false → b ≡ false
or_false a b c h = ground arith

module _ (ext : Externals) (env : LoginEnv) (email password : Bytes) where
  -- A login that succeeded, on these tables.
  pub record Granting (db : Db) (l : LoggedIn) (s' : State) : Type 0 where
    pub normalized : Bytes
    pub is_email : normalize_email ext.to_lower ext.parse_address email ≡ some normalized
    pub row : UserRow
    pub known : find_row (λ (u : UserRow). eqb u.email normalized) db.users ≡ some row
    pub user : l.user ≡ user_of_row row
    pub verified : verify_password ext.id_key row.password_hash password ≡ true
    pub expires : l.expires ≡ env.session_now + session_lifetime
    pub new_hash :
        any_row (λ (r : SessionRow). eqb r.token_hash (token_hash ext.sum l.token)) db.sessions
        ≡ false
    pub tables : s'.db ≡ record db {
      sessions = db.sessions ++ session_row ext.sum l.token row.id env.session_now ∷ [];
    }
    pub forgotten : lookup normalized s'.limiter.accounts ≡ none

  -- What a reply of `Login` says: it is granted with all of that, or the tables are as they were.
  abbrev pub Explained : Db → Result AuthError LoggedIn × State → Type 0
  Explained db (ok l, s') = Granting db l s'
  Explained db (err e, s') = s'.db ≡ db

  module _ (db : Db) (normalized : Bytes) (row : UserRow)
      (is_email : normalize_email ext.to_lower ext.parse_address email ≡ some normalized)
      (known : find_row (λ (u : UserRow). eqb u.email normalized) db.users ≡ some row)
      (verified : verify_password ext.id_key row.password_hash password ≡ true)
      (limiter : LoginLimiter) where
    grant-Explained :
        (random : Option Bytes)
        → Explained db (
            grant_reply
              (RateLimit.reset limiter normalized)
              (user_of_row row)
              (create_session ext.sum random env.insert_fails row.id env.session_now db))
    unfolding create_session RateLimit.reset
    grant-Explained none = refl
    grant-Explained (some raw) =
        elim (Bool-cases (
          session_refused ext.sum env.insert_fails
            (session_row ext.sum (raw_url_encode raw) row.id env.session_now) db)) [
              | inl refused ↦ rw refused refl
              | inr granted ↦ rw granted (record {
                normalized = normalized;
                is_email = is_email;
                row = row;
                known = known;
                user = refl;
                verified = verified;
                expires = refl;
                new_hash =
                    or_false env.insert_fails
                      (any_row
                        (λ (r : SessionRow).
                          eqb r.token_hash (token_hash ext.sum (raw_url_encode raw)))
                        db.sessions)
                      _ granted;
                tables = refl;
                forgotten = ground (
                  arith,
                  lookup-remove normalized normalized limiter.accounts,
                  eqb_self normalized,
                );
              })
            ]

  module _ (s : State) (normalized : Bytes)
      (is_email : normalize_email ext.to_lower ext.parse_address email ≡ some normalized) where
    check_user-Explained :
        (o : Option UserRow)
        → find_row (λ (u : UserRow). eqb u.email normalized) s.db.users ≡ o
        → Explained s.db (check_user ext env normalized password s (found_user o))
    check_user-Explained none known = refl
    check_user-Explained (some row) known =
        elim (Bool-cases (verify_password ext.id_key row.password_hash password)) [
          | inl right ↦ rw right (
              grant-Explained s.db normalized row is_email known right s.limiter env.session_random)
          | inr wrong ↦ rw wrong refl
        ]

    looked_up :
        (fails : Bool)
        → Explained s.db
            (check_user ext env normalized password s (find_user_by_email fails normalized s.db))
    unfolding find_user_by_email
    looked_up true = refl
    looked_up false = check_user-Explained _ refl

  guarded :
      (allowed : Bool) (db : Db) (s : State) (r : Result AuthError LoggedIn × State)
      → s.db ≡ db
      → Explained db r
      → Explained db (if not allowed then (err AuthError.rate_limited, s) else r)
  guarded true db s r same h = h
  guarded false db s r same h = same

  login_as-Explained :
      (s : State) (normalized : Option Bytes)
      → normalize_email ext.to_lower ext.parse_address email ≡ normalized
      → Explained s.db (login_as ext env password s normalized)
  login_as-Explained s none is_email = refl
  login_as-Explained s (some normalized) is_email =
      let r = RateLimit.allow_account s.limiter normalized env.account_now in
      guarded r.1 s.db (record s { limiter = r.0 }) _ refl
        (looked_up (record s { limiter = r.0 }) normalized is_email env.find_fails)

  -- A login that is granted has a well-formed address, the row of a user of that address whose hash
  -- the password matches, one more session of that user under a hash that no session had, and no
  -- failed attempt counted. A login that is refused or fails leaves the tables as they were.
  pub login-Explained : (s : State) → Explained s.db (login ext env email password s)
  unfolding login
  login-Explained s =
      let r = RateLimit.allow_global s.limiter env.global_now in
      guarded r.1 s.db (record s { limiter = r.0 }) _ refl
        (login_as-Explained (record s { limiter = r.0 }) _ refl)

  granting :
      (db : Db) (r : Result AuthError LoggedIn × State) (l : LoggedIn)
      → Explained db r
      → r.0 ≡ ok l
      → Granting db l r.1
  granting db (ok m, s) l h e = let same : m ≡ l = ground arith in rw (← same) h
  granting db (err x, s) l h e = cc

any_row-find_row :
    (q : UserRow → Bool) (id : Bytes) (users : List UserRow) (row : UserRow)
    → find_row q users ≡ some row
    → any_row (by_id id) users ≡ false
    → by_id id row ≡ false
unfolding find_row any_row
any_row-find_row q id [] row h n = cc
any_row-find_row q id (u ∷ users) row h n = elim (Bool-cases (q u)) [
  | inl hit ↦ let same : u ≡ row = ground arith in rw (← same) (ground arith)
  | inr miss ↦ any_row-find_row q id users row (ground arith) (ground arith)
]

-- With identifiers that are keys, a row that some look finds is found by its identifier.
find_row_by_id :
    (q : UserRow → Bool) (users : List UserRow) (row : UserRow)
    → UniqueIds users
    → find_row q users ≡ some row
    → find_row (λ (u : UserRow). eqb u.id row.id) users ≡ some row
unfolding find_row
find_row_by_id q [] row unique h = cc
find_row_by_id q (u ∷ users) row (new, unique) h = elim (Bool-cases (q u)) [
  | inl hit ↦ let same : u ≡ row = ground arith in rw (← same) (rw (eqb_self u.id) refl)
  | inr miss ↦
      let rest : find_row q users ≡ some row = ground arith in
      ground (
        arith,
        eqb_iff u.id row.id,
        eqb_iff row.id u.id,
        any_row-find_row q u.id users row rest new,
        find_row_by_id q users row unique rest,
      )
]

-- The token that a login grants finds the user who logged in, at any time before the expiry that
-- the login gives, where users' identifiers are keys.
pub login-find_session :
    (ext : Externals) (env : LoginEnv) (email password : Bytes) (s : State) (l : LoggedIn) (at : ℕ)
    → UniqueIds s.db.users
    → (login ext env email password s).0 ≡ ok l
    → at < l.expires
    → find_session ext.sum false l.token at (login ext env email password s).1.db ≡ ok l.user
login-find_session ext env email password s l at unique h before =
    let g = granting ext env email password s.db _ l (login-Explained ext env email password s) h in
    Live-find_session ext.sum l.token at _ l.user (record {
      session = session_row ext.sum l.token g.row.id env.session_now;
      stored = rw g.tables (
          find_row-append (by_hash (token_hash ext.sum l.token)) s.db.sessions
            (session_row ext.sum l.token g.row.id env.session_now) g.new_hash
            (eqb_self (token_hash ext.sum l.token)));
      not_expired = rw (← g.expires) before;
      row = g.row;
      known = rw g.tables (find_row_by_id _ s.db.users g.row unique g.known);
      is_user = g.user;
    })
