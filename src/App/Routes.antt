-- ===== src/App/Routes.antt =====
-- The routes of internal/app/app.go and of the `Routes` methods, with the middleware before each
-- handler. The router of chi finds the route of a method and a path; the headers that
-- `securityHeaders` adds to every answer are left out.
pub mod Access
mod Examples
pub mod Reads
use gopanel.Common.{Option, Bytes}
use gopanel.Http.{Request, Response, World, Handler, map_page}
use gopanel.Auth.Handler.{Config, Ambient, AuthPage}
use gopanel.Auth.Handler.Answers.{
  get_login, post_login, post_logout, get_password, post_password, authenticated_form_token,
}
use gopanel.Auth.Handler.Guards.{
  protect_login_post, protect_authenticated_post, require_login, require_admin,
}
use gopanel.Diagnostic.Handler.{DiagnosticEnv}
use gopanel.Diagnostic.Handler as DiagnosticHandler
use gopanel.Server.Handler.{ServerEnv}
use gopanel.Server.Handler as ServerHandler
use gopanel.Container.Handler.{ContainerEnv}
use gopanel.Container.Handler as ContainerHandler
use gopanel.App.Handler.{AppPage, auth, diagnostic, server, container, AppEnv}
use gopanel.App.Handler as AppHandler

pub data Route : Type 0 where
  health readiness static : Route
  login_form login_post logout_post password_form password_post : Route
  home_route : Route
  error_list : Route
  error_detail : (id : Bytes) → Route
  server_list new_server_form server_post : Route
  server_detail : (id : Bytes) → Route
  container_list test_docker : (id : Bytes) → Route
  container_logs : (id container_id : Bytes) → Route
  unknown : Route

-- What the surroundings decide in a request, by the handler that asks.
pub record RequestEnv : Type 0 where
  pub app_env : AppEnv
  pub auth_env : Ambient
  pub diagnostic_env : DiagnosticEnv
  pub server_env : ServerEnv
  pub container_env : ContainerEnv
  -- http.FileServerFS
  pub static_file : Request → Response AppPage

module _ (config : Config) (env : RequestEnv) where
  abbrev pub lift : {Page : Type 0} → (Page → AppPage) → Handler Page → Handler AppPage
  lift as_page handler r w = map_page as_page (handler r w)

  abbrev pub logged_in : Handler AppPage → Handler AppPage
  logged_in next r w = require_login auth config env.auth_env next r w

  abbrev pub as_admin : Handler AppPage → Handler AppPage
  as_admin next r w = logged_in (λ r w. require_admin auth config env.auth_env next r w) r w

  abbrev pub protected : Handler AppPage → Handler AppPage
  protected next r w = protect_authenticated_post auth config env.auth_env next r w

  abbrev pub token_of : Request → Option Bytes
  token_of r = authenticated_form_token config env.auth_env r

  -- The handler of the route behind its middleware.
  unfoldable pub handle : Route → Handler AppPage
  handle health r w = AppHandler.handle_health config.sanitize_detail token_of env.app_env r w
  handle readiness r w = AppHandler.handle_readiness config.sanitize_detail token_of env.app_env r w
  handle static r w = (env.static_file r, w)
  handle login_form r w = lift auth (get_login config env.auth_env) r w
  handle login_post r w =
      protect_login_post auth config env.auth_env (lift auth (post_login config env.auth_env)) r w
  handle logout_post r w = logged_in (protected (lift auth (post_logout config env.auth_env))) r w
  handle password_form r w = logged_in (lift auth (get_password config env.auth_env)) r w
  handle password_post r w =
      logged_in (protected (lift auth (post_password config env.auth_env))) r w
  handle home_route r w =
      logged_in (AppHandler.handle_home config.sanitize_detail token_of env.app_env) r w
  handle error_list r w =
      as_admin
        (lift diagnostic (DiagnosticHandler.handle_list config.sanitize_detail env.diagnostic_env))
        r w
  handle (error_detail id) r w =
      as_admin
        (lift diagnostic
          (DiagnosticHandler.handle_detail config.sanitize_detail env.diagnostic_env id))
        r w
  handle server_list r w =
      as_admin
        (lift server (ServerHandler.handle_list config.sanitize_detail token_of env.server_env)) r w
  handle new_server_form r w =
      as_admin
        (lift server (ServerHandler.handle_new_form config.sanitize_detail token_of env.server_env))
        r w
  handle server_post r w =
      as_admin
        (protected (
          lift server (ServerHandler.handle_create config.sanitize_detail token_of env.server_env)))
        r w
  handle (server_detail id) r w =
      as_admin
        (lift server
          (ServerHandler.handle_detail config.sanitize_detail token_of env.server_env id))
        r w
  handle (container_list id) r w =
      as_admin
        (lift container
          (ContainerHandler.handle_list config.sanitize_detail token_of env.container_env id))
        r w
  handle (test_docker id) r w =
      as_admin
        (protected (
          lift container (
            ContainerHandler.handle_test_connection config.sanitize_detail token_of
              env.container_env id)))
        r w
  handle (container_logs id container_id) r w =
      as_admin
        (lift container (
          ContainerHandler.handle_logs config.sanitize_detail token_of env.container_env id
            container_id))
        r w
  handle unknown r w = AppHandler.handle_not_found config.sanitize_detail token_of env.app_env r w
