-- ===== src/Startup/UserCommand/Created.antt =====
-- The administrator that the command creates.
use gopanel.Common.{
  ℕ, ◌≤◌, ◌≡◌, ◌≢◌, ◌⊎◌, inl, inr, refl, Bool, true, false, ◌||◌, List, [], ◌∷◌, ◌++◌, Option, none,
  some, Bytes, codes, eqb, eqb_self, length, arith, Bool-cases, Option-cases, trim_space,
  if◌then◌else◌,
}
use gopanel.Common.Split.{hex_encode}
use gopanel.Common.Result.{Result, ok, err}
use gopanel.Database.{Db, UserRow}
use gopanel.Database.Rows.{find_row, find_row-append}
use gopanel.Http.Reads.{if_intro}
use gopanel.Connection.{OpenError, open_store}
use gopanel.Auth.Password.{
  PasswordError, minimum_password, maximum_password, argon_salt_bytes, argon_output_bytes,
  validate_password, hash_password, verify_password, encode_password_hash,
}
use gopanel.Auth.Password.RoundTrip.{IsBlock, key_of, verify-hash_password}
use gopanel.Auth.Store.{create_user, user_refused, normalize_email}
use gopanel.Auth.Service.{Externals}
use gopanel.Resource.{Event, Run, database, open_after}
use gopanel.Startup.Balance.{Leads, Leaves, Leads-append, open_store-Leaves}
use gopanel.Startup.UserCommand.{
  failures, create_admin_events, CommandError, close_failed, AdminCredentials, AdminEnv, Created,
  after_hash, after_email, body, closed, with_store, create_admin,
}

joined_none :
    (fails : Bool) (errors : List CommandError)
    → errors ≡ []
    → let joined = if fails then errors ++ close_failed ∷ [] else errors in
      (joined ≡ []) ⊎ (joined ≡ close_failed ∷ [])
joined_none true errors h = inr (rw h refl)
joined_none false errors h = inl h

joined_some :
    (fails : Bool) (errors : List CommandError)
    → errors ≢ []
    → (if fails then errors ++ close_failed ∷ [] else errors) ≢ []
joined_some true [] h = λ q. h refl
joined_some true (e ∷ errors) h = λ q. absurd (ground (arith, q))
joined_some false errors h = h

-- The row that the statement inserts.
abbrev admin_row : (id normalized name hash : Bytes) (now : ℕ) → UserRow
admin_row id normalized name hash now = record {
  id = id;
  email = normalized;
  name = trim_space name;
  password_hash = hash;
  role = codes "admin";
  created_at = now;
  updated_at = now;
}

email_new : (a b c d : Bool) → (a || b || c || d) ≡ false → c ≡ false
email_new a b c d h = ground arith

module _ (ext : Externals) (env : AdminEnv) (credentials : AdminCredentials) (salt : Bytes)
    (salt_ok : IsBlock argon_salt_bytes salt) (salted : env.salt ≡ some salt)
    (key_ok : IsBlock argon_output_bytes
      (key_of ext.id_key salt salt_ok credentials.password)) where
  -- A new user with the role of an administrator is in the tables, the look for the normalized address
  -- finds it, and its hash matches the password.
  pub record Administrator (db db' : Db) : Type 0 where
    pub normalized : Bytes
    pub row : UserRow
    pub is_email :
        normalize_email ext.to_lower ext.parse_address credentials.email ≡ some normalized
    pub added : db' ≡ record db { users = db.users ++ row ∷ [] }
    pub is_admin : row.role ≡ codes "admin"
    pub known : find_row (λ (u : UserRow). eqb u.email normalized) db'.users ≡ some row
    pub verified : verify_password ext.id_key row.password_hash credentials.password ≡ true

  abbrev Told : Db → Created → Type 0
  Told db (errors, db') = ((errors ≡ []) × Administrator db db') ⊎ ((errors ≢ []) × (db' ≡ db))

  length_given :
      (hash : Bytes)
      → hash_password ext.id_key (some salt) credentials.password ≡ ok hash
      → (minimum_password ≤ length credentials.password)
        × (length credentials.password ≤ maximum_password)
  unfolding hash_password validate_password
  length_given hash made = (ground (arith, made), ground (arith, made))

  hash_verified :
      (hash : Bytes)
      → hash_password ext.id_key env.salt credentials.password ≡ ok hash
      → verify_password ext.id_key hash credentials.password ≡ true
  hash_verified hash made =
      let made' : hash_password ext.id_key (some salt) credentials.password ≡ ok hash =
        rw (← salted) made in
      let (least, most) = length_given hash made' in
      let (encoded, verified) =
        verify-hash_password ext.id_key salt salt_ok credentials.password credentials.password
          key_ok least most in
      let same : encode_password_hash salt (key_of ext.id_key salt salt_ok credentials.password)
          ≡ hash =
        ground (arith, encoded, made') in
      rw (← same) (verified.1 (most, refl))

  created-Told :
      (db : Db) (normalized hash : Bytes)
      → normalize_email ext.to_lower ext.parse_address credentials.email ≡ some normalized
      → hash_password ext.id_key env.salt credentials.password ≡ ok hash
      → Told db (after_hash ext env credentials normalized (ok hash) db)
  unfolding create_user
  created-Told db normalized hash is_email made = elim (Option-cases env.create_env.random) [
    | inl failed ↦ rw failed (inr (λ q. absurd (ground (arith, q)), refl))
    | inr (value, drawn) ↦ rw drawn (
        let row =
          admin_row (hex_encode value) normalized credentials.name hash env.create_env.now in
        elim (Bool-cases (user_refused env.create_env.insert_fails row db)) [
          | inl refused ↦ rw refused (inr (λ q. absurd (ground (arith, q)), refl))
          | inr accepted ↦ rw accepted (
              inl (
                refl,
                record {
                  normalized = normalized;
                  row = row;
                  is_email = is_email;
                  added = refl;
                  is_admin = refl;
                  known =
                      find_row-append (λ (u : UserRow). eqb u.email normalized) db.users row
                        (email_new env.create_env.insert_fails _ _ _ accepted)
                        (eqb_self normalized);
                  verified = hash_verified hash made;
                },
              ))
        ])
  ]

  hashed-Told :
      (db : Db) (normalized : Bytes) (reply : Result PasswordError Bytes)
      → normalize_email ext.to_lower ext.parse_address credentials.email ≡ some normalized
      → hash_password ext.id_key env.salt credentials.password ≡ reply
      → Told db (after_hash ext env credentials normalized reply db)
  hashed-Told db normalized (err e) is_email made = inr (λ q. absurd (ground (arith, q)), refl)
  hashed-Told db normalized (ok hash) is_email made = created-Told db normalized hash is_email made

  email-Told :
      (db : Db) (normalized : Option Bytes)
      → normalize_email ext.to_lower ext.parse_address credentials.email ≡ normalized
      → Told db (after_email ext env credentials normalized db)
  email-Told db none is_email = inr (λ q. absurd (ground (arith, q)), refl)
  email-Told db (some normalized) is_email = hashed-Told db normalized _ is_email refl

  body-Told : (db : Db) → Told db (body ext env credentials db)
  body-Told db =
      if_intro (Told db) env.migrate_fails (inr (λ q. absurd (ground (arith, q)), refl))
        (email-Told db _ refl)

  -- What the command leaves: an administrator, with no error but that of the close, or the tables as
  -- they were, with an error.
  abbrev pub Outcome : Db → Created → Type 0
  Outcome db (errors, db') =
      (((errors ≡ []) ⊎ (errors ≡ close_failed ∷ [])) × Administrator db db')
      ⊎ ((errors ≢ []) × (db' ≡ db))

  closed-Outcome : (db : Db) (c : Created) → Told db c → Outcome db (closed ext env credentials c)
  closed-Outcome db (errors, db') (inl (none_yet, made)) =
      inl (joined_none env.close_fails errors none_yet, made)
  closed-Outcome db (errors, db') (inr (some_yet, same)) =
      inr (joined_some env.close_fails errors some_yet, same)

  opened-Outcome :
      (db : Db) (reply : Result (List OpenError) (Unit {0}))
      → Outcome db (with_store ext env credentials reply db)
  opened-Outcome db (err e) = inr (λ q. absurd (ground (arith, q)), refl)
  opened-Outcome db (ok opened) = closed-Outcome db _ (body-Told db)

  failures-Leads :
      (m : Run (List OpenError) (Unit {0}))
      → Leaves m [] (database ∷ [])
      → Leads (m.1 ++ failures ext env credentials m.0) [] []
  failures-Leads (err e, events) h = Leads-append events _ [] [] [] h refl
  failures-Leads (ok opened, events) h =
      Leads-append events _ [] (database ∷ []) [] h
        (if_intro (λ (es : List Event). Leads es (database ∷ []) []) env.migrate_fails refl refl)

  -- The command leaves a new administrator under the normalized address, whose hash matches the
  -- password that was typed, and reports no error but a failing close; or it leaves the tables as they
  -- were and reports an error. In any case a database that it opens is closed. The salt has 16 bytes
  -- and the key of the password 32.
  pub create_admin-Outcome :
      (db : Db)
      → Outcome db (create_admin ext env credentials db)
        × (open_after (create_admin_events ext env credentials) [] ≡ some [])
  unfolding create_admin create_admin_events
  create_admin-Outcome db = (
    opened-Outcome db (open_store env.open_env).0,
    failures-Leads (open_store env.open_env) (open_store-Leaves env.open_env),
  )
