-- ===== src/Auth/Handler/Examples.antt =====
-- The theorems on sign-ins and passwords over the handlers at concrete requests.
use gopanel.Common.{
  ◌+◌, ◌*◌, ◌≡◌, ◌≢◌, refl, false, [], ◌∷◌, none, some, Bytes, codes, eqb, has_prefix, trim_space,
  arith,
}
use gopanel.Common.Split.{split, hex_encode}
use gopanel.Common.Base64
use gopanel.Common.Assoc.{lookup, keep_if}
use gopanel.Common.Int.{◌+ℤ◌}
use gopanel.Common.Result.{ok}
use gopanel.Database.{Db}
use gopanel.Database.Rows.{find_row, any_row, delete_rows}
use gopanel.Diagnostic.Record.{new_recorder}
use gopanel.Container.Status.{new_status_cache}
use gopanel.Http.{Request, World}
use gopanel.Auth.RateLimit.{second, new_login_limiter, allow_global, allow_account}
use gopanel.Auth.Password.{
  encode_password_hash, decode_password_hash, validate_password, hash_password, verify_password,
}
use gopanel.Auth.Store.{
  user_of_row, set_password, update_password, raw_url_encode, session_lifetime, normalize_email,
  find_user_by_email, create_session, find_session,
}
use gopanel.Auth.Service.{LoggedIn, login, change_password, user_for_session}
use gopanel.Auth.Samples.{alice, bob, bob_token, old_password, new_password, salt, tables}
use gopanel.Auth.Handler.{
  Ambient, session_cookie_name, login_cookie_name, session_token, set_cookie, clear_cookie,
  legacy_session_cookie, redirect,
}
use gopanel.Auth.Handler.Answers.{post_login, post_password, respond_to_password_change}
use gopanel.Auth.Handler.Guards.{with_user}
use gopanel.Auth.Handler.Guards.Admission.{admit_session}
use gopanel.Auth.Handler.SignIn.{form_login, post_login-admit_session}
use gopanel.Auth.Handler.SignOut.{form_change, post_password-admit_session}
use gopanel.Auth.Handler.Samples.{config, ambient}

abbrev blank : Request
blank = record {
  cookies = [];
  form = none;
  cross_origin = false;
  hx_request = [];
  path = [];
  user = none;
  session = none;
}

abbrev world : World
world = record {
  limiter = new_login_limiter 0;
  db = tables;
  recorder = new_recorder;
  cache = new_status_cache;
}

abbrev sign_in : Request
sign_in = record blank {
  form = some ((codes "email", alice.email) ∷ (codes "password", old_password) ∷ []);
}

abbrev logged_in : LoggedIn
logged_in = record {
  user = user_of_row alice;
  token = raw_url_encode salt;
  expires = 20 * second + session_lifetime;
}

granted : (form_login config ambient sign_in world).0 ≡ ok logged_in
unfolding login new_login_limiter allow_global allow_account normalize_email trim_space
    find_user_by_email find_row create_session any_row verify_password decode_password_hash split
    encode_password_hash eqb has_prefix Base64.encode Base64.decode hex_encode lookup keep_if ◌+ℤ◌
granted = refl

abbrev with_session : Bytes → Request
with_session token = record blank { cookies = (codes "__Host-gopanel_session", token) ∷ [] }

session_given : session_token config (with_session logged_in.token) ≡ logged_in.token
unfolding session_token session_cookie_name lookup eqb
session_given = refl

abbrev later : Ambient
later = record ambient { now = 21 * second }

post_login-admit_session_example :
    ((post_login config ambient sign_in world).0.cookies
      ≡ clear_cookie config (login_cookie_name config)
        ∷ clear_cookie config (legacy_session_cookie config)
        ∷ set_cookie config (session_cookie_name config) logged_in.token logged_in.expires 20
        ∷ [])
    × (admit_session config later
          (with_session logged_in.token)
          (post_login config ambient sign_in world).1
        ≡ some (with_user (with_session logged_in.token) logged_in.token logged_in.user))
unfolding any_row eqb
post_login-admit_session_example =
    post_login-admit_session config ambient sign_in (with_session logged_in.token) world logged_in
      later (refl, (refl, tt)) granted session_given refl (omega arith)

abbrev password_change : Request
password_change = record blank {
  user = some (user_of_row alice);
  form = some (
      (codes "current_password", old_password)
      ∷ (codes "new_password", new_password)
      ∷ (codes "confirm_password", new_password)
      ∷ []);
}

abbrev changed : Db
changed = (form_change config ambient password_change world).1

change_made : form_change config ambient password_change world ≡ (ok tt, changed)
unfolding change_password verify_password hash_password validate_password decode_password_hash split
    encode_password_hash eqb has_prefix update_password Base64.encode Base64.decode lookup
change_made = refl

bob_admitted :
    admit_session config ambient
      (with_session bob_token)
      (post_password config ambient password_change world).1
    ≡ some (with_user (with_session bob_token) bob_token (user_of_row bob))
unfolding post_password respond_to_password_change redirect user_for_session find_session find_row
    session_token session_cookie_name change_password verify_password hash_password
    validate_password decode_password_hash split encode_password_hash eqb has_prefix update_password
    Base64.encode Base64.decode lookup hex_encode delete_rows set_password
bob_admitted = refl

post_password-admit_session_example : (user_of_row bob).id ≢ (user_of_row alice).id
post_password-admit_session_example =
    post_password-admit_session config ambient ambient password_change (with_session bob_token)
      (with_user (with_session bob_token) bob_token (user_of_row bob)) world changed change_made
      refl bob_admitted
