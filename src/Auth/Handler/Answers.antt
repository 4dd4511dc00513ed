-- ===== src/Auth/Handler/Answers.antt =====
-- internal/auth/handler.go: the handlers of the sign-in, the sign-out and the password.
use gopanel.Common.{ℕ, List, [], ◌∷◌, Option, none, some, Bytes, codes}
use gopanel.Common.Assoc.{lookup}
use gopanel.Common.Result.{Result, ok, err}
use gopanel.Http.{
  Request, form_value, is_htmx_request, current_user, current_user_id, Cookie, Response, World,
  Handler, ok_status, unprocessable, or_empty,
}
use gopanel.Auth.Csrf.{LoginContext, new_login_context, login_token, auth_token}
use gopanel.Auth.Service.{AuthError, State, LoggedIn, login, change_password, logout}
use gopanel.Auth.Handler.{
  Config, Ambient, AuthPage, login_page, password_page, operation_of, login_rejection,
  password_rejection, form_failed, password_form_failed, session_cookie_name, login_cookie_name,
  session_token, set_cookie, clear_cookie, legacy_session_cookie, render_auth_component,
  render_backend_failure, redirect,
}

module _ (config : Config) (env : Ambient) where
  unfoldable pub render_login :
      Request
      → List Cookie
      → (status : ℕ) (token message email : Bytes) → World
      → Response AuthPage × World
  render_login r cookies status token message email w =
      render_auth_component config env r cookies status
        (login_page (is_htmx_request r) token message email) w

  unfoldable pub render_password :
      Request → (status : ℕ) (token message : Bytes) → World → Response AuthPage × World
  render_password r status token message w =
      render_auth_component config env r [] status (password_page (is_htmx_request r) token message)
        w

  -- The page of `GetLogin`, and the cookie, for a new context or a token for the old one.
  pub data FormContext : Type 0 where
    kept : (token : Bytes) → FormContext
    renewed : LoginContext → FormContext
    no_context : FormContext

  abbrev fresh_context : FormContext
  fresh_context =
      elim (new_login_context config.hmac config.csrf_key env.now env.context_random
        env.token_random) [ none ↦ no_context | some context ↦ renewed context ]

  abbrev kept_or_fresh : Option Bytes → FormContext
  kept_or_fresh none = fresh_context
  kept_or_fresh (some token) = kept token

  abbrev context_of : Option Bytes → FormContext
  context_of none = fresh_context
  context_of (some cookie) =
      kept_or_fresh (login_token config.hmac config.csrf_key cookie env.now env.token_random)

  -- `loginContext`
  unfoldable pub login_context : Request → FormContext
  login_context r = context_of (lookup (login_cookie_name config) r.cookies)

  abbrev pub login_form : Request → FormContext → World → Response AuthPage × World
  login_form r no_context w =
      render_backend_failure config env r [] (codes "login_form_failed") form_failed none [] w
  login_form r (kept token) w = render_login r [] ok_status token [] [] w
  login_form r (renewed context) w =
      render_login r
        (set_cookie config (login_cookie_name config) context.cookie context.expires env.now ∷ [])
        ok_status context.token [] [] w

  unfoldable pub get_login : Handler AuthPage
  unfolding login_context render_login
  get_login r w = login_form r (login_context r) w

  -- The state that the sign-in service works on.
  abbrev pub service_state : World → State
  service_state w = record { limiter = w.limiter; db = w.db }

  abbrev pub with_state : World → State → World
  with_state w s = record w { limiter = s.limiter; db = s.db }

  abbrev rejected_form :
      Request → (message : Bytes) (status : ℕ) → Option Bytes → World → Response AuthPage × World
  rejected_form r message status none w =
      render_backend_failure config env r [] (codes "login_form_failed") form_failed none [] w
  rejected_form r message status (some fresh) w =
      render_login r [] status fresh message (form_value r (codes "email")) w

  abbrev login_failure :
      Request → AuthError → Option (Bytes × ℕ) → World → Response AuthPage × World
  login_failure r e none w =
      render_backend_failure config env r [] (codes "login_failed")
        (codes "GoPanel could not complete sign-in. Try again.") (operation_of e) [] w
  login_failure r e (some (message, status)) w =
      rejected_form r message status
        (login_token config.hmac config.csrf_key
          (or_empty (lookup (login_cookie_name config) r.cookies)) env.now env.token_random)
        w

  -- `respondToLogin`
  unfoldable pub respond_to_login :
      Request → Result AuthError LoggedIn → World → Response AuthPage × World
  unfolding render_login
  respond_to_login r (err e) w = login_failure r e (login_rejection e) w
  respond_to_login r (ok granted) w =
      redirect config env r
        (clear_cookie config (login_cookie_name config)
          ∷ clear_cookie config (legacy_session_cookie config)
          ∷ set_cookie config (session_cookie_name config) granted.token granted.expires env.now
          ∷ [])
        (codes "/") w

  -- `PostLogin` with `loginFromRequest`
  unfoldable pub post_login : Handler AuthPage
  unfolding respond_to_login
  post_login r w =
      let (reply, s) =
        login config.ext env.login_env (form_value r (codes "email"))
          (form_value r (codes "password")) (service_state w) in
      respond_to_login r reply (with_state w s)

  -- Both cookies of the session are cleared.
  abbrev pub cleared_session : List Cookie
  cleared_session =
      clear_cookie config (session_cookie_name config)
      ∷ clear_cookie config (legacy_session_cookie config)
      ∷ []

  unfoldable pub respond_to_logout :
      Request → Result AuthError (Unit {0}) → World → Response AuthPage × World
  respond_to_logout r (err e) w =
      render_backend_failure config env r [] (codes "logout_failed")
        (codes "GoPanel could not sign you out. Reload the page and try again.") (operation_of e)
        (current_user_id r) w
  respond_to_logout r (ok done) w = redirect config env r cleared_session (codes "/login") w

  unfoldable pub post_logout : Handler AuthPage
  unfolding respond_to_logout
  post_logout r w =
      let (reply, db) = logout config.ext env.delete_fails (session_token config r) w.db in
      respond_to_logout r reply (record w { db = db })

  abbrev pub password_form :
      Request
      → (status : ℕ) (message user_id : Bytes) → Option Bytes
      → World
      → Response AuthPage × World
  password_form r status message user_id none w =
      render_backend_failure config env r [] (codes "password_form_failed") password_form_failed
        none user_id w
  password_form r status message user_id (some token) w = render_password r status token message w

  abbrev session_form_token : Request → Option Bytes
  session_form_token r =
      auth_token config.hmac config.csrf_key (session_token config r) env.token_random

  unfoldable pub get_password : Handler AuthPage
  unfolding render_password
  get_password r w = password_form r ok_status [] (current_user_id r) (session_form_token r) w

  abbrev password_failure : Request → AuthError → Option Bytes → World → Response AuthPage × World
  password_failure r e none w =
      render_backend_failure config env r [] (codes "password_change_failed")
        (codes "GoPanel could not change your password. Try again.") (operation_of e)
        (current_user_id r) w
  password_failure r e (some message) w =
      password_form r unprocessable message (current_user_id r) (session_form_token r) w

  unfoldable pub respond_to_password_change :
      Request → Result AuthError (Unit {0}) → World → Response AuthPage × World
  unfolding render_password
  respond_to_password_change r (err e) w = password_failure r e (password_rejection e) w
  respond_to_password_change r (ok done) w =
      redirect config env r cleared_session (codes "/login") w

  -- `PostPassword` with `changePasswordFromRequest`
  unfoldable pub post_password : Handler AuthPage
  unfolding respond_to_password_change
  post_password r w =
      let (reply, db) =
        change_password config.ext env.salt_random env.update_env (current_user r)
          (form_value r (codes "current_password")) (form_value r (codes "new_password"))
          (form_value r (codes "confirm_password")) w.db in
      respond_to_password_change r reply (record w { db = db })

  -- `AuthenticatedFormToken`: the session is the one in the context.
  abbrev token_for : Option Bytes → Option Bytes
  token_for none = none
  token_for (some session) = auth_token config.hmac config.csrf_key session env.token_random

  unfoldable pub authenticated_form_token : Request → Option Bytes
  authenticated_form_token r = token_for r.session
