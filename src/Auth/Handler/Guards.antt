-- ===== src/Auth/Handler/Guards.antt =====
-- internal/auth/request.go and middleware.go: what stands before a handler.
pub mod Admission
use gopanel.Common.{
  ℕ, Bool, true, false, not, List, [], ◌∷◌, Option, none, some, Bytes, codes, eqb, if◌then◌else◌,
}
use gopanel.Common.Assoc.{lookup}
use gopanel.Common.Result.{Result, ok, err}
use gopanel.Http.{
  Request, form_value, Cookie, map_page, Response, World, Handler, unauthorized, forbidden,
  unprocessable,
}
use gopanel.Auth.Csrf.{LoginContext, new_login_context}
use gopanel.Auth.Store.{User}
use gopanel.Auth.Service.{AuthError}
use gopanel.Auth.Csrf.{validate_login, validate_auth}
use gopanel.Auth.Service.{not_found, user_for_session}
use gopanel.Auth.Handler.Answers.{render_login, cleared_session}
use gopanel.Auth.Handler.{
  Config, Ambient, AuthPage, operation_of, form_failed, login_cookie_name, session_token,
  set_cookie, render_denied, render_backend_failure,
}

abbrev expired_form : Bytes
expired_form = codes "This form has expired or is invalid. Reload the page and try again."

abbrev pub with_user : Request → Bytes → User → Request
with_user r token user = record r { user = some user; session = some token }

abbrev pub is_admin : Option User → Bool
is_admin none = false
is_admin (some user) = eqb user.role (codes "admin")

abbrev pub valid_login_post : Config → Ambient → Request → Option Bytes → Bool
valid_login_post config env r none = false
valid_login_post config env r (some cookie) =
    validate_login config.hmac config.csrf_key cookie (form_value r (codes "csrf_token")) env.now

abbrev pub valid_post : Config → Request → Bool
valid_post config r =
    validate_auth config.hmac config.csrf_key (session_token config r)
      (form_value r (codes "csrf_token"))

abbrev pub admin_required : Bytes
admin_required =
    codes
      "Administrator access is required. Sign in with an administrator account or contact an administrator to request access."

module _ {Page : Type 0} (as_page : AuthPage → Page) (config : Config) (env : Ambient) where
  -- `renderDenied`
  abbrev pub denied :
      Request → List Cookie → (status : ℕ) (message : Bytes) → World → Response Page × World
  denied r cookies status message w =
      map_page as_page (render_denied config env r cookies status message w)

  abbrev pub fresh_form : Request → Option LoginContext → World → Response Page × World
  fresh_form r none w =
      map_page as_page
        (render_backend_failure config env r [] (codes "login_form_failed") form_failed none [] w)
  fresh_form r (some context) w = map_page as_page (
      render_login config env r
        (set_cookie config (login_cookie_name config) context.cookie context.expires env.now ∷ [])
        forbidden context.token expired_form (form_value r (codes "email")) w)

  -- `csrfFailure`, with a fresh form or without.
  unfoldable pub csrf_failure : (fresh : Bool) → Handler Page
  csrf_failure true r w =
      fresh_form r
        (new_login_context config.hmac config.csrf_key env.now env.context_random env.token_random)
        w
  csrf_failure false r w = denied r [] forbidden expired_form w

  -- `preparePost`, for a request of another origin or with this form: `none` where the post goes on.
  abbrev pub refusal : (cross_origin : Bool) → Option (List (Bytes × Bytes)) → Option (ℕ × Bytes)
  refusal true form =
      some (forbidden, codes "This request was blocked because it came from another site.")
  refusal false none = some (
    unprocessable,
    codes "The submitted form is too large or invalid. Check the form and try again.",
  )
  refusal false (some form) = none

  abbrev pub post_refused : Request → Option (ℕ × Bytes)
  post_refused r = refusal r.cross_origin r.form

  abbrev pub prepared : Option (ℕ × Bytes) → Handler Page → Handler Page
  prepared none next r w = next r w
  prepared (some (status, message)) next r w = denied r [] status message w

  unfoldable pub protect_login_post : Handler Page → Handler Page
  unfolding csrf_failure
  protect_login_post next r w =
      prepared (post_refused r)
        (λ r w.
          if valid_login_post config env r (lookup (login_cookie_name config) r.cookies)
          then next r w
          else csrf_failure true r w)
        r w

  unfoldable pub protect_authenticated_post : Handler Page → Handler Page
  unfolding csrf_failure
  protect_authenticated_post next r w =
      prepared (post_refused r)
        (λ r w. if valid_post config r then next r w else csrf_failure false r w) r w

  abbrev pub signed_in : Handler Page → Bytes → Result AuthError User → Handler Page
  signed_in next token (ok user) r w = next (with_user r token user) w
  signed_in next token (err not_found) r w =
      denied r (cleared_session config env) unauthorized
        (codes
          "Sign in is required. Please sign in with an administrator account and try again. If you do not have access, contact an administrator.")
        w
  signed_in next token (err e) r w = map_page as_page (
      render_backend_failure config env r [] (codes "session_lookup_failed")
        (codes "GoPanel could not verify your session. Reload the page and try again.")
        (operation_of e) [] w)

  unfoldable pub require_login : Handler Page → Handler Page
  require_login next r w =
      let token = session_token config r in
      signed_in next token (user_for_session config.ext env.find_fails env.now token w.db) r w

  unfoldable pub require_admin : Handler Page → Handler Page
  require_admin next r w =
      if not (is_admin r.user) then denied r [] forbidden admin_required w else next r w
