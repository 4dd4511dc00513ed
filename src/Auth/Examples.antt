-- ===== src/Auth/Examples.antt =====
-- The theorems on accounts, sign-ins and sessions at concrete inputs.
use gopanel.Common.{
  ◌+◌, ◌*◌, ◌≤◌, ◌<◌, ◌≡◌, ◌≢◌, ◌↔◌, All, ltb, refl, true, false, [], ◌∷◌, some, codes, eqb,
  has_prefix, length, arith, trim_space, ◌-◌,
}
use gopanel.Common.Split.{split, hex_encode}
use gopanel.Common.Base64
use gopanel.Common.Assoc.{lookup, keep_if}
use gopanel.Common.Int.{pos, ◌+ℤ◌}
use gopanel.Common.Result.{ok, err}
use gopanel.Database.{Db, SessionRow}
use gopanel.Database.Rows.{find_row, any_row}
use gopanel.Auth.Samples.{
  salt, toy_key, toy, old_password, new_password, alice, bob, alice_token, bob_token, tables,
  smooth, login_env, salt-IsBlock, key-IsBlock,
}
use gopanel.Auth.Password.{
  encode_password_hash, decode_password_hash, validate_password, hash_password, verify_password,
  maximum_password,
}
use gopanel.Auth.Password.RoundTrip.{verify-hash_password, key_of}
use gopanel.Auth.RateLimit.{
  LoginLimiter, second, global_burst, account_attempts, new_login_limiter, allow_global,
  allow_account, reset,
}
use gopanel.Auth.RateLimit.Bucket.{IsFilled, allow_all, allow_all-le, allow_global_after_second}
use gopanel.Auth.RateLimit.Accounts.{IsWithin, attempt_all, attempt_all-le, allow_account-IsWithin}
use gopanel.Auth.Store.{
  StoreError, user_of_row, find_session, update_password, raw_url_encode, session_lifetime,
  normalize_email, find_user_by_email, create_session, delete_session,
}
use gopanel.Auth.Service.{
  State, LoggedIn, invalid_credentials, cleanup, login, change_password, logout,
}
use gopanel.Auth.Service.Expiry.{UniqueHashes, cleanup-find_session}
use gopanel.Auth.Service.Revocation.{
  change_password_fails, change_password_revokes, change_password_spares, logout_ends_session,
  logout_spares,
}
use gopanel.Auth.Service.Login.{Explained, login-Explained, login-find_session}

abbrev changed : Db
changed =
    (change_password toy (some salt) smooth (user_of_row alice) old_password new_password
      new_password tables).1

change_ok :
    change_password toy
      (some salt)
      smooth
      (user_of_row alice)
      old_password
      new_password
      new_password
      tables
    ≡ (ok tt, changed)
unfolding change_password verify_password hash_password validate_password decode_password_hash split
    encode_password_hash eqb has_prefix update_password Base64.encode Base64.decode
change_ok = refl

verify-hash_password_example :
    (hash_password toy_key (some salt) old_password
      ≡ ok (encode_password_hash salt (key_of toy_key salt salt-IsBlock old_password)))
    × ((verify_password toy_key
            (encode_password_hash salt (key_of toy_key salt salt-IsBlock old_password))
            new_password
          ≡ true)
        ↔ ((length new_password ≤ maximum_password)
            × (key_of toy_key salt salt-IsBlock new_password
                ≡ key_of toy_key salt salt-IsBlock old_password)))
verify-hash_password_example =
    verify-hash_password toy_key salt salt-IsBlock old_password new_password key-IsBlock
      (omega arith) (omega arith)

bob_found : find_session (λ s. s) false bob_token 60 tables ≡ ok (user_of_row bob)
unfolding find_session find_row eqb hex_encode
bob_found = refl

change_password_spares_example :
    find_session (λ s. s) false bob_token 60 changed ≡ ok (user_of_row bob)
change_password_spares_example =
    change_password_spares toy (some salt) smooth (user_of_row alice) old_password new_password
      new_password tables changed bob_token 60 (user_of_row bob) change_ok bob_found
      (λ e. absurd (ground arith))

change_password_revokes_example : (user_of_row bob).id ≢ (user_of_row alice).id
change_password_revokes_example =
    change_password_revokes toy (some salt) smooth (user_of_row alice) old_password new_password
      new_password tables changed bob_token 60 (user_of_row bob) change_ok
      change_password_spares_example

change_refused :
    change_password toy
      (some salt)
      smooth
      (user_of_row alice)
      new_password
      new_password
      new_password
      tables
    ≡ (err invalid_credentials, tables)
unfolding change_password verify_password decode_password_hash split encode_password_hash eqb
    has_prefix Base64.encode Base64.decode
change_refused = refl

change_password_fails_example : tables ≡ tables
change_password_fails_example =
    change_password_fails toy (some salt) smooth (user_of_row alice) new_password new_password
      new_password tables invalid_credentials tables change_refused

hashes_unique : UniqueHashes tables.sessions
unfolding any_row eqb hex_encode
hashes_unique = (refl, (refl, tt))

-- Both sessions have expired.
abbrev clean_tables : Db
clean_tables = (cleanup ltb false false (5 * second) tables).1

cleanup-find_session_example :
    (find_session (λ s. s) false bob_token (6 * second) clean_tables
      ≡ find_session (λ s. s) false bob_token (6 * second) tables)
    × All (λ (s : SessionRow). 5 * second < s.expires_at + second) clean_tables.sessions
    × (clean_tables.users ≡ tables.users)
cleanup-find_session_example =
    cleanup-find_session ltb (λ e n h. ground (arith, h)) (λ e n h. ground (arith, h)) (λ s. s)
      false (5 * second) (6 * second) bob_token tables hashes_unique (omega arith)

abbrev logged_out : Db
logged_out = (logout toy false alice_token tables).1

alice_logs_out : logout toy false alice_token tables ≡ (ok tt, logged_out)
unfolding logout delete_session
alice_logs_out = refl

logout_ends_session_example :
    find_session (λ s. s) false alice_token 60 logged_out ≡ err StoreError.not_found
logout_ends_session_example =
    logout_ends_session toy false alice_token tables logged_out 60 alice_logs_out

tokens_differ : hex_encode bob_token ≢ hex_encode alice_token
unfolding hex_encode
tokens_differ = λ e. absurd (ground arith)

logout_spares_example : find_session (λ s. s) false bob_token 60 logged_out ≡ ok (user_of_row bob)
logout_spares_example =
    logout_spares toy false alice_token tables logged_out (ok tt) bob_token 60 (user_of_row bob)
      alice_logs_out tokens_differ bob_found

abbrev start : State
start = record { limiter = new_login_limiter 0; db = tables }

login-Explained_example :
    Explained toy login_env alice.email old_password tables
      (login toy login_env alice.email old_password start)
login-Explained_example = login-Explained toy login_env alice.email old_password start

abbrev logged_in : LoggedIn
logged_in = record {
  user = user_of_row alice;
  token = raw_url_encode salt;
  expires = 20 * second + session_lifetime;
}

login_granted : (login toy login_env alice.email old_password start).0 ≡ ok logged_in
unfolding login new_login_limiter allow_global allow_account normalize_email trim_space
    find_user_by_email find_row create_session any_row verify_password decode_password_hash split
    encode_password_hash eqb has_prefix Base64.encode Base64.decode hex_encode lookup keep_if ◌+ℤ◌
login_granted = refl

login-find_session_example :
    find_session
      (λ s. s)
      false
      (raw_url_encode salt)
      (21 * second)
      (login toy login_env alice.email old_password start).1.db
    ≡ ok (user_of_row alice)
unfolding any_row eqb
login-find_session_example =
    login-find_session toy login_env alice.email old_password start logged_in (21 * second)
      (refl, (refl, tt)) login_granted (omega arith)

abbrev tried : LoginLimiter
tried = record {
  accounts = (codes "a", record { count = 4; reset = 90 }) ∷ [];
  tokens = pos (5 * second);
  last = 40;
}

tried_found : lookup (codes "a") tried.accounts ≡ some (record { count = 4; reset = 90 })
unfolding lookup eqb
tried_found = refl

attempt_all-le_example :
    4 + (attempt_all (codes "a") tried ((codes "a", 50) ∷ (codes "b", 60) ∷ (codes "a", 70) ∷ [])).1
    ≤ account_attempts
attempt_all-le_example =
    attempt_all-le (codes "a") tried (record { count = 4; reset = 90 })
      ((codes "a", 50) ∷ (codes "b", 60) ∷ (codes "a", 70) ∷ []) tried_found (omega arith)
      (omega arith, (omega arith, (omega arith, tt)))

tried-IsWithin : IsWithin tried
tried-IsWithin = record { entries = omega arith; counts = (omega arith, tt) }

allow_account-IsWithin_example :
    IsWithin (allow_account tried (codes "c") 60).0 × IsWithin (reset tried (codes "c"))
allow_account-IsWithin_example = allow_account-IsWithin tried (codes "c") 60 tried-IsWithin

tried-IsFilled : IsFilled tried
tried-IsFilled = record { owed = refl; capped = omega arith }

allow_all-le_example :
    (allow_all tried (50 ∷ 60 ∷ 70 ∷ [])).1 * second ≤ global_burst + (100 - tried.last)
allow_all-le_example = allow_all-le tried (50 ∷ 60 ∷ 70 ∷ []) 100 tried-IsFilled (omega arith)

allow_global_after_second_example : (allow_global tried (2 * second)).1 ≡ true
allow_global_after_second_example =
    allow_global_after_second tried (2 * second) tried-IsFilled (omega arith)
