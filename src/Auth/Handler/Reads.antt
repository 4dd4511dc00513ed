-- ===== src/Auth/Handler/Reads.antt =====
-- internal/auth/handler.go: what the forms leave of the state.
use gopanel.Common.{ℕ, List, Option, none, some, Bytes}
use gopanel.Http.{Request, Cookie, World, record_diagnostic}
use gopanel.Http.Reads.{Kept, Kept-refl, Kept-recorded, if_intro, Keeps}
use gopanel.Auth.Handler.{
  Config, Ambient, AuthPage, record_auth_failure, render_auth_fallback, render_auth_component,
  render_backend_failure,
}
use gopanel.Auth.Handler.Answers.{
  render_login, render_password, FormContext, kept, renewed, no_context, login_form, get_login,
  password_form, get_password,
}

module _ (config : Config) (env : Ambient) where
  render_auth_component-Kept :
      (r : Request) (cookies : List Cookie) (status : ℕ) (component : AuthPage) (w v : World)
      → Kept w v
      → Kept w (render_auth_component config env r cookies status component v).1
  unfolding render_auth_component render_auth_fallback record_auth_failure record_diagnostic
  render_auth_component-Kept r cookies status component w v h =
      if_intro (Keeps w) env.rendering.render_fails (Kept-recorded h)
        (if_intro (Keeps w) env.rendering.write_fails (Kept-recorded h) h)

  render_backend_failure-Kept :
      (r : Request) (cookies : List Cookie) (event message : Bytes) (operation : Option Bytes)
      (user_id : Bytes) (w : World)
      → Kept w (render_backend_failure config env r cookies event message operation user_id w).1
  unfolding render_backend_failure record_auth_failure record_diagnostic
  render_backend_failure-Kept r cookies event message operation user_id w =
      render_auth_component-Kept r cookies _ _ w _ (Kept-recorded (Kept-refl w))

  login_form-Kept :
      (r : Request) (context : FormContext config env) (w : World)
      → Kept w (login_form config env r context w).1
  unfolding render_login
  login_form-Kept r no_context w = render_backend_failure-Kept r _ _ _ _ _ w
  login_form-Kept r (kept token) w = render_auth_component-Kept r _ _ _ w w (Kept-refl w)
  login_form-Kept r (renewed context) w = render_auth_component-Kept r _ _ _ w w (Kept-refl w)

  pub get_login-Kept : (r : Request) (w : World) → Kept w (get_login config env r w).1
  unfolding get_login
  get_login-Kept r w = login_form-Kept r _ w

  password_form-Kept :
      (r : Request) (status : ℕ) (message user_id : Bytes) (token : Option Bytes) (w : World)
      → Kept w (password_form config env r status message user_id token w).1
  unfolding render_password
  password_form-Kept r status message user_id none w = render_backend_failure-Kept r _ _ _ _ _ w
  password_form-Kept r status message user_id (some token) w =
      render_auth_component-Kept r _ _ _ w w (Kept-refl w)

  pub get_password-Kept : (r : Request) (w : World) → Kept w (get_password config env r w).1
  unfolding get_password
  get_password-Kept r w = password_form-Kept r _ _ _ _ w
