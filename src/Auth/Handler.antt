-- ===== src/Auth/Handler.antt =====
-- internal/auth/handler.go: cookies and pages, and the functions that answer a request. Log lines are
-- left out.
pub mod Answers
pub mod Guards
mod Examples
pub mod Reads
pub mod Samples
pub mod SignIn
pub mod SignOut
use gopanel.Common.{
  ℕ, ◌+◌, ◌-◌, ◌/◌, Bool, true, false, not, ◌&&◌, ◌||◌, List, [], ◌∷◌, ◌++◌, Option, none, some,
  Bytes, codes, eqb, leb, null, if◌then◌else◌,
}
use gopanel.Common.Assoc.{lookup}
use gopanel.Common.Int.{ℤ, pos, negsuc, sub_ℕ}
use gopanel.Common.Result.{Result, ok, err}
use gopanel.Diagnostic.Record.{Input}
use gopanel.Http.{
  Request, form_value, is_htmx_request, current_user, current_user_id, Cookie, Body, page, fallback,
  empty, Response, World, Draw, Rendering, Handler, ok_status, no_content, see_other, forbidden,
  unprocessable, too_many_requests, internal_error, record_diagnostic, or_empty,
}
use gopanel.Auth.RateLimit.{second}
use gopanel.Auth.Password.{too_short, too_long}
use gopanel.Auth.Csrf.{LoginContext, new_login_context, login_token, auth_token}
use gopanel.Auth.Store.{User, UpdateEnv}
use gopanel.Auth.Service.{
  AuthError, rate_limited, invalid_credentials, password_mismatch, refused_password, backend, State,
  LoginEnv, LoggedIn, Externals, login, change_password, logout,
}

pub record Config : Type 0 where
  pub development : Bool
  pub ext : Externals
  -- crypto/hmac with SHA-256, and the key of `NewCSRF`
  pub hmac : Bytes → Bytes → Bytes
  pub csrf_key : Bytes
  pub sanitize_detail : Bytes → Bytes

-- What the surroundings decide in a request: the clock, random bytes, statements that fail, and
-- whether the answer can be written.
pub record Ambient : Type 0 where
  pub now : ℕ
  pub context_random : Option Bytes
  pub token_random : Option Bytes
  pub login_env : LoginEnv
  pub salt_random : Option Bytes
  pub update_env : UpdateEnv
  pub find_fails : Bool
  pub delete_fails : Bool
  pub failure_draw : Draw
  pub rendering : Rendering

-- The components of internal/view/pages/auth, each as a page or as a fragment.
pub data AuthPage : Type 0 where
  login_page : (fragment : Bool) (token message email : Bytes) → AuthPage
  password_page : (fragment : Bool) (token message : Bytes) → AuthPage
  denied_page : (fragment : Bool) (message : Bytes) → AuthPage
  failure_page : (fragment : Bool) (message reference : Bytes) → AuthPage

-- The struct DiagnosticFailure
pub record DiagnosticFailure : Type 0 where
  pub event : Bytes
  pub public_message : Bytes
  pub technical_detail : Bytes
  pub user_id : Bytes
  pub http_status : ℕ

-- internal/diagnostic/auth.go, `AuthFailureRecorder`
unfoldable pub auth_failure_input : DiagnosticFailure → Input
auth_failure_input failure = record {
  event = failure.event;
  component = codes "auth";
  public_message = failure.public_message;
  technical_detail = failure.technical_detail;
  user_id = failure.user_id;
  action = failure.event;
  target = [];
  http_status = failure.http_status;
  audit_correlation_id = [];
}

-- The text of `safeTechnicalDetail`, for an error with its operation or for another one.
unfoldable pub safe_technical_detail : Option Bytes → Bytes
safe_technical_detail (some operation) = codes "authentication " ++ (operation ++ codes " failed")
safe_technical_detail none = codes "authentication request failed"

abbrev pub operation_of : AuthError → Option Bytes
operation_of (backend operation causes) = some operation
operation_of _ = none

unfoldable pub login_rejection : AuthError → Option (Bytes × ℕ)
login_rejection invalid_credentials = some (codes "Email or password is incorrect.", unprocessable)
login_rejection rate_limited =
    some (codes "Too many sign-in attempts. Wait briefly and try again.", too_many_requests)
login_rejection _ = none

unfoldable pub password_rejection : AuthError → Option Bytes
password_rejection invalid_credentials = some (codes "Current password is incorrect.")
password_rejection password_mismatch = some (codes "New passwords do not match.")
password_rejection (refused_password too_short) =
    some (codes "New password must contain at least 12 characters.")
password_rejection (refused_password too_long) =
    some (codes "New password must contain at most 1024 characters.")
password_rejection _ = none

abbrev pub form_failed : Bytes
form_failed = codes "The sign-in form could not be prepared. Reload the page and try again."

abbrev pub password_form_failed : Bytes
password_form_failed =
    codes "The password form could not be prepared. Reload the page and try again."

-- The seconds of a duration, without the fraction.
abbrev whole_seconds : ℤ → ℤ
whole_seconds (pos n) = pos (n / second)
whole_seconds (negsuc n) = sub_ℕ 0 ((n + 1) / second)

module _ (config : Config) where
  unfoldable pub session_cookie_name : Bytes
  session_cookie_name =
      if config.development then codes "gopanel_session_dev" else codes "__Host-gopanel_session"

  unfoldable pub login_cookie_name : Bytes
  login_cookie_name =
      if config.development then codes "gopanel_login_dev" else codes "__Host-gopanel_login"

  unfoldable pub session_token : Request → Bytes
  session_token r = or_empty (lookup session_cookie_name r.cookies)

  unfoldable pub cookie_max_age : (expires now : ℕ) → ℤ
  cookie_max_age expires now = whole_seconds (sub_ℕ expires now)

  -- `setLoginCookie` and `setSessionCookie`
  unfoldable pub set_cookie : (name value : Bytes) (expires now : ℕ) → Cookie
  unfolding cookie_max_age
  set_cookie name value expires now = record {
    name = name;
    value = value;
    secure = not config.development;
    expires = some expires;
    max_age = cookie_max_age expires now;
  }

  -- `clearLoginCookie`, `clearSessionCookie` and `clearLegacySessionCookie`
  unfoldable pub clear_cookie : (name : Bytes) → Cookie
  clear_cookie name = record {
    name = name;
    value = [];
    secure = not config.development;
    expires = none;
    max_age = negsuc 0;
  }

  abbrev pub legacy_session_cookie : Bytes
  legacy_session_cookie = codes "gopanel_session"

  unfoldable pub record_auth_failure : Draw → DiagnosticFailure → World → World × Bytes
  unfolding auth_failure_input
  record_auth_failure draw failure w =
      record_diagnostic config.sanitize_detail draw (auth_failure_input failure) w

  module _ (env : Ambient) (r : Request) where
    unfoldable pub render_auth_fallback : List Cookie → World → Response AuthPage × World
    unfolding record_auth_failure safe_technical_detail
    render_auth_fallback cookies w =
        let (w', reference) =
          record_auth_failure env.rendering.render_draw
            (record {
              event = codes "auth_render_failed";
              public_message = codes "The page could not be rendered.";
              technical_detail = safe_technical_detail (some (codes "response rendering"));
              user_id = current_user_id r;
              http_status = internal_error;
            })
            w in
        (
          record {
            status = internal_error;
            cookies = cookies;
            location = none;
            body = fallback reference;
          },
          w',
        )

    unfoldable pub render_auth_component :
        List Cookie → (status : ℕ) → AuthPage → World → Response AuthPage × World
    unfolding render_auth_fallback
    render_auth_component cookies status component w =
        let answer : Response AuthPage = record {
          status = status;
          cookies = cookies;
          location = none;
          body = page component;
        } in
        if env.rendering.render_fails
        then render_auth_fallback cookies w
        else if env.rendering.write_fails
        then (
          answer,
          (record_auth_failure env.rendering.write_draw
              (record {
                event = codes "auth_response_write_failed";
                public_message = codes "The response could not be completed.";
                technical_detail = codes "authentication response write failed";
                user_id = current_user_id r;
                http_status = status;
              })
              w).0,
        )
        else (answer, w)

    unfoldable pub render_denied :
        List Cookie → (status : ℕ) (message : Bytes) → World → Response AuthPage × World
    unfolding render_auth_component
    render_denied cookies status message w =
        render_auth_component cookies status (denied_page (is_htmx_request r) message) w

    unfoldable pub render_backend_failure :
        List Cookie
        → (event message : Bytes) (operation : Option Bytes) (user_id : Bytes) → World
        → Response AuthPage × World
    unfolding render_auth_component
    render_backend_failure cookies event message operation user_id w =
        let (w', reference) =
          record_auth_failure env.failure_draw
            (record {
              event = event;
              public_message = message;
              technical_detail = safe_technical_detail operation;
              user_id = user_id;
              http_status = internal_error;
            })
            w in
        render_auth_component cookies internal_error
          (failure_page (is_htmx_request r) message reference) w'

    unfoldable pub redirect : List Cookie → (target : Bytes) → World → Response AuthPage × World
    redirect cookies target w = (
      record {
        status = if is_htmx_request r then no_content else see_other;
        cookies = cookies;
        location = some target;
        body = empty;
      },
      w,
    )
