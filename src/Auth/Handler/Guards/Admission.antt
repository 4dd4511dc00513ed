-- ===== src/Auth/Handler/Guards/Admission.antt =====
-- Whom the middleware of internal/auth lets through, and what becomes of the others.
use gopanel.Common.{
  ℕ, [], ◌≤◌, ◌≡◌, refl, Bool, true, false, not, List, Option, none, some, Bytes, arith,
  if◌then◌else◌,
}
use gopanel.Common.Assoc.{lookup}
use gopanel.Common.Result.{Result, ok, err}
use gopanel.Common.Base64.{◌>>=◌}
use gopanel.Diagnostic.Record.{Recorder}
use gopanel.Http.{
  Request, Cookie, Response, World, Handler, map_page, record_diagnostic, forbidden, internal_error,
}
use gopanel.Http.Reads.{if_intro}
use gopanel.Auth.Csrf.{LoginContext}
use gopanel.Auth.Store.{User}
use gopanel.Auth.Service.{
  AuthError, not_found, rate_limited, invalid_credentials, password_mismatch, refused_password,
  backend, user_for_session,
}
use gopanel.Auth.Handler.{
  Config, Ambient, AuthPage, login_cookie_name, session_token, render_auth_component,
  render_auth_fallback, record_auth_failure, render_denied, render_backend_failure,
}
use gopanel.Auth.Handler.Answers.{render_login}
use gopanel.Auth.Handler.Guards.{
  is_admin, with_user, valid_post, admin_required, csrf_failure, protect_login_post, signed_in,
  denied, prepared, fresh_form, valid_login_post, refusal, protect_authenticated_post,
  require_login, require_admin,
}

-- The handlers' state is as before but for the log of diagnostics.
pub record Untouched (w w' : World) : Type 0 where
  pub same_db : w'.db ≡ w.db
  pub same_limiter : w'.limiter ≡ w.limiter
  pub same_cache : w'.cache ≡ w.cache

pub Untouched-refl : (w : World) → Untouched w w
Untouched-refl w = record { same_db = refl; same_limiter = refl; same_cache = refl }

Untouched-recorded :
    {w v : World} {recorder : Recorder}
    → Untouched w v
    → Untouched w (record v { recorder = recorder })
Untouched-recorded h = record {
  same_db = h.same_db;
  same_limiter = h.same_limiter;
  same_cache = h.same_cache;
}

-- An error is answered, and nothing is done.
pub record Refused {Page : Type 0} (w : World) (answer : Response Page × World) : Type 0 where
  pub untouched : Untouched w answer.1
  pub error_status : 400 ≤ answer.0.status

-- The answer is the handler's for a request that is let through, and else a refusal.
abbrev pub Answered :
    {Page : Type 0} → Option Request → Handler Page → World → Response Page × World → Type 0
Answered (some r) handler w answer = answer ≡ handler r w
Answered none handler w answer = Refused w answer

module _ (config : Config) (env : Ambient) where
  abbrev pub of_session : Request → Bytes → Result AuthError User → Option Request
  of_session r token (ok user) = some (with_user r token user)
  of_session r token (err e) = none

  -- A session that is alive.
  abbrev pub admit_session : Request → World → Option Request
  admit_session r w =
      let token = session_token config r in
      of_session r token (user_for_session config.ext env.find_fails env.now token w.db)

  -- The role of an administrator.
  abbrev pub admit_admin : Request → Option Request
  admit_admin r = if is_admin r.user then some r else none

  abbrev pub admit_form :
      (cross_origin : Bool)
      → Option (List (Bytes × Bytes))
      → (valid : Bool) → Request
      → Option Request
  admit_form true form valid r = none
  admit_form false none valid r = none
  admit_form false (some form) valid r = if valid then some r else none

  abbrev pub admit_post : Request → Option Request
  admit_post r = admit_form r.cross_origin r.form (valid_post config r) r

  -- A form of the same origin with a token of the login context in the cookie.
  abbrev pub admit_login : Request → Option Request
  admit_login r =
      admit_form r.cross_origin r.form
        (valid_login_post config env r (lookup (login_cookie_name config) r.cookies)) r

  module _ {Page : Type 0} (as_page : AuthPage → Page) where
    abbrev as_answer : Response AuthPage × World → Response Page × World
    as_answer answer = map_page as_page answer

    render_auth_component-Refused :
        (r : Request) (cookies : List Cookie) (status : ℕ) (component : AuthPage) (w v : World)
        → 400 ≤ status
        → Untouched w v
        → Refused w (as_answer (render_auth_component config env r cookies status component v))
    unfolding map_page render_auth_component render_auth_fallback record_auth_failure
        record_diagnostic
    render_auth_component-Refused r cookies status component w v bound h =
        if_intro (λ a. Refused w (as_answer a)) env.rendering.render_fails
          (record { untouched = Untouched-recorded h; error_status = omega arith })
          (if_intro (λ a. Refused w (as_answer a)) env.rendering.write_fails
            (record { untouched = Untouched-recorded h; error_status = bound })
            (record { untouched = h; error_status = bound }))

    render_denied-Refused :
        (r : Request) (cookies : List Cookie) (status : ℕ) (message : Bytes) (w : World)
        → 400 ≤ status
        → Refused w (as_answer (render_denied config env r cookies status message w))
    unfolding render_denied
    render_denied-Refused r cookies status message w bound =
        render_auth_component-Refused r cookies status _ w w bound (Untouched-refl w)

    render_backend_failure-Refused :
        (r : Request) (cookies : List Cookie) (event message : Bytes) (operation : Option Bytes)
        (user_id : Bytes) (w : World)
        → Refused w (
            as_answer
              (render_backend_failure config env r cookies event message operation user_id w))
    unfolding render_backend_failure record_auth_failure record_diagnostic
    render_backend_failure-Refused r cookies event message operation user_id w =
        render_auth_component-Refused r cookies internal_error _ w _ (omega arith)
          (Untouched-recorded (Untouched-refl w))

    fresh_form-Refused :
        (r : Request) (context : Option LoginContext) (w : World)
        → Refused w (fresh_form as_page config env r context w)
    unfolding render_login
    fresh_form-Refused r none w = render_backend_failure-Refused r _ _ _ _ _ w
    fresh_form-Refused r (some context) w =
        render_auth_component-Refused r _ _ _ w w (omega arith) (Untouched-refl w)

    csrf_failure-Refused :
        (fresh : Bool) (r : Request) (w : World)
        → Refused w (csrf_failure as_page config env fresh r w)
    unfolding csrf_failure
    csrf_failure-Refused true r w = fresh_form-Refused r _ w
    csrf_failure-Refused false r w = render_denied-Refused r _ _ _ w (omega arith)

    module _ (admit : Request → World → Option Request) (next handler : Handler Page)
        (step : (r : Request) (w : World) → Answered (admit r w) handler w (next r w)) where
      signed_in-Answered :
          (r : Request) (w : World) (token : Bytes) (reply : Result AuthError User)
          → Answered
              (of_session r token reply >>= λ r. admit r w)
              handler
              w
              (signed_in as_page config env next token reply r w)
      signed_in-Answered r w token (ok user) = step (with_user r token user) w
      signed_in-Answered r w token (err not_found) = render_denied-Refused r _ _ _ w (omega arith)
      signed_in-Answered r w token (err rate_limited) = render_backend_failure-Refused r _ _ _ _ _ w
      signed_in-Answered r w token (err invalid_credentials) =
          render_backend_failure-Refused r _ _ _ _ _ w
      signed_in-Answered r w token (err password_mismatch) =
          render_backend_failure-Refused r _ _ _ _ _ w
      signed_in-Answered r w token (err (refused_password e)) =
          render_backend_failure-Refused r _ _ _ _ _ w
      signed_in-Answered r w token (err (backend operation causes)) =
          render_backend_failure-Refused r _ _ _ _ _ w

      pub require_login-Answered :
          (r : Request) (w : World)
          → Answered
              (admit_session r w >>= λ r. admit r w)
              handler
              w
              (require_login as_page config env next r w)
      unfolding require_login
      require_login-Answered r w = signed_in-Answered r w _ _

      pub require_admin-Answered :
          (r : Request) (w : World)
          → Answered
              (admit_admin r >>= λ r. admit r w)
              handler
              w
              (require_admin as_page config env next r w)
      unfolding require_admin
      require_admin-Answered r w =
          elim (is_admin r.user)
            as (λ b. Answered ((if b then some r else none) >>= λ r. admit r w) handler w (
              if not b
              then denied as_page config env r [] forbidden admin_required w
              else next r w)) [
                | true ↦ step r w
                | false ↦ render_denied-Refused r _ _ _ w (omega arith)
              ]

      choice-Answered :
          (r : Request) (w : World) (fresh valid : Bool)
          → Answered
              ((if valid then some r else none) >>= λ r. admit r w)
              handler
              w
              (if valid then next r w else csrf_failure as_page config env fresh r w)
      choice-Answered r w fresh true = step r w
      choice-Answered r w fresh false = csrf_failure-Refused fresh r w

      form-Answered :
          (r : Request) (w : World) (fresh : Bool) (valid : Request → Bool) (cross_origin : Bool)
          (form : Option (List (Bytes × Bytes)))
          → Answered (admit_form cross_origin form (valid r) r >>= λ r. admit r w) handler w (
              prepared as_page config env
                (refusal as_page config env cross_origin form)
                (λ r w. if valid r then next r w else csrf_failure as_page config env fresh r w)
                r
                w)
      form-Answered r w fresh valid true form = render_denied-Refused r _ _ _ w (omega arith)
      form-Answered r w fresh valid false none = render_denied-Refused r _ _ _ w (omega arith)
      form-Answered r w fresh valid false (some form) = choice-Answered r w fresh (valid r)

      pub protect_authenticated_post-Answered :
          (r : Request) (w : World)
          → Answered
              (admit_post r >>= λ r. admit r w)
              handler
              w
              (protect_authenticated_post as_page config env next r w)
      unfolding protect_authenticated_post
      protect_authenticated_post-Answered r w =
          form-Answered r w false (λ r. valid_post config r) r.cross_origin r.form

      pub protect_login_post-Answered :
          (r : Request) (w : World)
          → Answered
              (admit_login r >>= λ r. admit r w)
              handler
              w
              (protect_login_post as_page config env next r w)
      unfolding protect_login_post
      protect_login_post-Answered r w =
          form-Answered r w true
            (λ r. valid_login_post config env r (lookup (login_cookie_name config) r.cookies))
            r.cross_origin r.form
