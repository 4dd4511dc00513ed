-- ===== src/Auth/Service/Revocation.antt =====
-- What takes sessions away: a change of the password, and a logout.
use gopanel.Common.{
  ℕ, ◌≡◌, ◌≢◌, inl, inr, refl, ◌⊎◌, ◌∙◌, Bool, true, false, Bool-cases, List, [], ◌∷◌, Option,
  Bytes, codes, eqb, eqb_iff, arith,
}
use gopanel.Common.Result.{Result, ok, err}
use gopanel.Database.{Db, UserRow, SessionRow}
use gopanel.Database.Rows.{
  find_row, delete_rows, find_row_sound, find_row-delete_rows, find_row-delete_sound,
  find_row-delete_other,
}
use gopanel.Auth.Password.{PasswordError, hash_password, verify_password}
use gopanel.Auth.Store.{
  User, StoreError, token_hash, find_session, delete_session, set_password, begin_failed,
  update_failed, invalidate_failed, commit_failed, UpdateEnv, update_password,
  rollback_password_update,
}
use gopanel.Auth.Service.{
  AuthError, invalid_credentials, password_mismatch, refused_password, backend, Externals, updated,
  change_password, logout,
}
use gopanel.Auth.Service.Sessions.{by_hash, Live-user, find_session-Live, Live-find_session}

find_row-set_password :
    (user_id hash : Bytes) (now : ℕ) (id : Bytes) (users : List UserRow)
    → id ≢ user_id
    → find_row (λ (r : UserRow). eqb r.id id) (set_password user_id hash now users)
      ≡ find_row (λ (r : UserRow). eqb r.id id) users
unfolding find_row set_password
find_row-set_password user_id hash now id [] differ = refl
find_row-set_password user_id hash now id (r ∷ users) differ = ground (
  arith,
  eqb_iff r.id user_id,
  eqb_iff r.id id,
  find_row-set_password user_id hash now id users differ,
)

-- The tables after a password update that is committed.
pub record Revoked (user_id : Bytes) (db db' : Db) : Type 0 where
  pub hash : Bytes
  pub now : ℕ
  pub users : db'.users ≡ set_password user_id hash now db.users
  pub sessions : db'.sessions ≡ delete_rows (λ (s : SessionRow). eqb s.user_id user_id) db.sessions

by_user : Bytes → SessionRow → Bool
by_user id s = eqb s.user_id id

module _ (sum : Bytes → Bytes) (user_id : Bytes) (db db' : Db) (r : Revoked user_id db db')
    (token : Bytes) (at : ℕ) (u : User) where
  revoked : find_session sum false token at db' ≡ ok u → u.id ≢ user_id
  unfolding by_user
  revoked h =
      let l = find_session-Live sum token at db' u h in
      let kept =
        find_row-delete_sound (by_hash (token_hash sum token)) (by_user user_id) db.sessions
          l.session (rw r.sessions at l.stored) in
      ground (arith, kept, Live-user _ at db' u l, eqb_iff l.session.user_id user_id)

  spared :
      find_session sum false token at db ≡ ok u
      → u.id ≢ user_id
      → find_session sum false token at db' ≡ ok u
  unfolding by_user
  spared h differ =
      let l = find_session-Live sum token at db u h in
      let owner = Live-user _ at db u l in
      let other : l.session.user_id ≢ user_id = λ e. differ (owner ∙ e) in
      Live-find_session sum token at db' u (record {
        session = l.session;
        stored = rw r.sessions (
            find_row-delete_other (by_hash (token_hash sum token)) (by_user user_id) db.sessions
              l.session l.stored (ground (arith, eqb_iff l.session.user_id user_id)));
        not_expired = l.not_expired;
        row = l.row;
        known =
            rw r.users (
              find_row-set_password user_id r.hash r.now l.session.user_id db.users other
              ∙ l.known);
        is_user = l.is_user;
      })

update_password-Revoked :
    (env : UpdateEnv) (user_id hash : Bytes) (db : Db)
    → ((e : List StoreError) × (update_password env user_id hash db ≡ (err e, db)))
      ⊎ ((db' : Db) × (update_password env user_id hash db ≡ (ok tt, db')) × Revoked user_id db db')
unfolding update_password by_user
update_password-Revoked env user_id hash db = elim (Bool-cases env.begin_fails) [
  | inl a ↦ inl (begin_failed ∷ [], rw a)
  | inr a ↦ elim (Bool-cases env.update_fails) [
    | inl b ↦ inl (rollback_password_update env update_failed, rw (a, b))
    | inr b ↦ elim (Bool-cases env.delete_fails) [
      | inl c ↦ inl (rollback_password_update env invalidate_failed, rw (a, b, c))
      | inr c ↦ elim (Bool-cases env.commit_fails) [
        | inl d ↦ inl (commit_failed ∷ [], rw (a, b, c, d))
        | inr d ↦ inr (
          record db {
            users = set_password user_id hash env.now db.users;
            sessions = delete_rows (by_user user_id) db.sessions;
          },
          rw (a, b, c, d),
          record { hash = hash; now = env.now; users = refl; sessions = refl },
        )
      ]
    ]
  ]
]

module _ (ext : Externals) (random : Option Bytes) (env : UpdateEnv) (user : User)
    (current next confirm : Bytes) (db : Db) where
  hashed :
      (h : Result PasswordError Bytes)
      → let r : Result AuthError (Unit {0}) × Db = elim h [
        | err e ↦ (err (refused_password e), db)
        | ok hash ↦ updated (update_password env user.id hash db)
      ] in
        ((e : AuthError) × (r ≡ (err e, db)))
        ⊎ ((db' : Db) × (r ≡ (ok tt, db')) × Revoked user.id db db')
  hashed (err e) = inl (refused_password e, refl)
  hashed (ok hash) = elim (update_password-Revoked env user.id hash db) [
    | inl (es, failed) ↦ inl (backend (codes "password update") es, rw failed)
    | inr (db', done, r) ↦ inr (db', rw done, r)
  ]

  change_password-Revoked :
      ((e : AuthError) × (change_password ext random env user current next confirm db
          ≡ (err e, db)))
      ⊎ ((db' : Db) × (change_password ext random env user current next confirm db ≡ (ok tt, db'))
          × Revoked user.id db db')
  unfolding change_password
  change_password-Revoked =
      elim (Bool-cases (verify_password ext.id_key user.password_hash current)) [
        | inr wrong ↦ inl (invalid_credentials, rw wrong)
        | inl right ↦ elim (Bool-cases (eqb next confirm)) [
          | inr differ ↦ inl (password_mismatch, rw (right, differ))
          | inl same ↦ rw (right, same) (hashed (hash_password ext.id_key random next))
        ]
      ]

  -- A password change that is refused or fails leaves the tables as they were.
  pub change_password_fails :
      (e : AuthError) (db' : Db)
      → change_password ext random env user current next confirm db ≡ (err e, db')
      → db' ≡ db
  change_password_fails e db' h = elim change_password-Revoked [
    | inl (x, failed) ↦ cc
    | inr (after, done, r) ↦ cc
  ]

  -- After a password change that succeeds no token finds a session of the user, at any time.
  pub change_password_revokes :
      (db' : Db) (token : Bytes) (at : ℕ) (u : User)
      → change_password ext random env user current next confirm db ≡ (ok tt, db')
      → find_session ext.sum false token at db' ≡ ok u
      → u.id ≢ user.id
  change_password_revokes db' token at u h found = elim change_password-Revoked [
    | inl (x, failed) ↦ cc
    | inr (after, done, r) ↦
        let same : after ≡ db' = cc in revoked ext.sum user.id db after r token at u (rw same found)
  ]

  -- After a password change that succeeds a session of any other user is found as before.
  pub change_password_spares :
      (db' : Db) (token : Bytes) (at : ℕ) (u : User)
      → change_password ext random env user current next confirm db ≡ (ok tt, db')
      → find_session ext.sum false token at db ≡ ok u
      → u.id ≢ user.id
      → find_session ext.sum false token at db' ≡ ok u
  change_password_spares db' token at u h found other = elim change_password-Revoked [
    | inl (x, failed) ↦ cc
    | inr (after, done, r) ↦
        let same : after ≡ db' = cc in
        rw (← same) (spared ext.sum user.id db after r token at u found other)
  ]

other_hash :
    (s : SessionRow) (hash gone : Bytes)
    → eqb s.token_hash hash ≡ true
    → hash ≢ gone
    → eqb s.token_hash gone ≡ false
other_hash s hash gone h differ =
    ground (arith, eqb_iff s.token_hash hash, eqb_iff s.token_hash gone)

module _ (ext : Externals) (fails : Bool) (token : Bytes) (db db' : Db) where
  -- After a logout that succeeds the token finds no session, at any time.
  pub logout_ends_session :
      (at : ℕ)
      → logout ext fails token db ≡ (ok tt, db')
      → find_session ext.sum false token at db' ≡ err StoreError.not_found
  unfolding logout delete_session find_session
  logout_ends_session at h = elim (Bool-cases fails) [
    | inl failed ↦ absurd (ground (arith, h, failed))
    | inr done ↦
        let gone = find_row-delete_rows (by_hash (token_hash ext.sum token)) db.sessions in
        let same : delete_rows (by_hash (token_hash ext.sum token)) db.sessions ≡ db'.sessions =
          ground (arith, h, done) in
        rw (← same, gone) refl
  ]

  -- A logout leaves a session under any other hash as it was found before.
  pub logout_spares :
      (r : Result AuthError (Unit {0})) (other : Bytes) (at : ℕ) (u : User)
      → logout ext fails token db ≡ (r, db')
      → token_hash ext.sum other ≢ token_hash ext.sum token
      → find_session ext.sum false other at db ≡ ok u
      → find_session ext.sum false other at db' ≡ ok u
  unfolding logout delete_session
  logout_spares r other at u e differ h = elim (Bool-cases fails) [
    | inl failed ↦ let same : db ≡ db' = ground (arith, e, failed) in rw (← same) h
    | inr done ↦
        let l = find_session-Live ext.sum other at db u h in
        let same : record db {
          sessions = delete_rows (by_hash (token_hash ext.sum token)) db.sessions;
        }
            ≡ db' =
          ground (arith, e, done) in
        rw (← same) (
          Live-find_session ext.sum other at
            (record db { sessions = delete_rows (by_hash (token_hash ext.sum token)) db.sessions })
            u
            (record {
              session = l.session;
              stored =
                  find_row-delete_other (by_hash (token_hash ext.sum other))
                    (by_hash (token_hash ext.sum token)) db.sessions l.session l.stored
                    (other_hash l.session (token_hash ext.sum other) (token_hash ext.sum token)
                      (find_row_sound (by_hash (token_hash ext.sum other)) db.sessions l.session
                        l.stored)
                      differ);
              not_expired = l.not_expired;
              row = l.row;
              known = l.known;
              is_user = l.is_user;
            }))
  ]
