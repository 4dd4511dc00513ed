-- ===== src/App/Routes/Reads.antt =====
-- The routes of internal/app/app.go without a form: what they leave of the state.
use mathlib.Core.Path.{subst}
use gopanel.Common.{◌≡◌, sym, Option, none, some, arith}
use gopanel.Http.{Request, Response, World, Handler}
use gopanel.Http.Reads.{Kept, Keeps, Kept-refl, map_page-Kept}
use gopanel.Auth.Handler.{Config}
use gopanel.Auth.Handler.Reads.{get_login-Kept, get_password-Kept}
use gopanel.Auth.Handler.Guards.Admission.{Answered}
use gopanel.Diagnostic.Handler.Reads as DiagnosticReads
use gopanel.Server.Handler.Reads as ServerReads
use gopanel.Container.Handler.Reads as ContainerReads
use gopanel.App.Handler.{AppPage, auth, diagnostic, server, container}
use gopanel.App.Handler.Reads.{
  handle_home-Kept, handle_health-Kept, handle_readiness-Kept, handle_not_found-Kept,
}
use gopanel.App.Routes.{
  Route, health, readiness, static, login_form, login_post, logout_post, password_form,
  password_post, home_route, error_list, error_detail, server_list, new_server_form, server_post,
  server_detail, container_list, test_docker, container_logs, unknown, RequestEnv, handle,
}
use gopanel.App.Routes.Access.{no_form, form_of, access, behind, handle-Answered}

Answered-Kept :
    (admitted : Option Request) (handler : Handler AppPage) (w : World)
    (answer : Response AppPage × World)
    → ((r : Request) → Kept w (handler r w).1)
    → Answered admitted handler w answer
    → Kept w answer.1
Answered-Kept none handler w answer h refused = record {
  same_db = refused.untouched.same_db;
  same_limiter = refused.untouched.same_limiter;
}
Answered-Kept (some r) handler w answer h same = subst (Keeps w) (sym same) (h r)

module _ (config : Config) (env : RequestEnv) where
  behind-Kept :
      (route : Route) (r : Request) (w : World)
      → form_of route ≡ no_form
      → Kept w (behind config env route r w).1
  unfolding handle
  behind-Kept health r w h = handle_health-Kept config.sanitize_detail _ env.app_env r w
  behind-Kept readiness r w h = handle_readiness-Kept config.sanitize_detail _ env.app_env r w
  behind-Kept static r w h = Kept-refl w
  behind-Kept unknown r w h = handle_not_found-Kept config.sanitize_detail _ env.app_env r w
  behind-Kept home_route r w h = handle_home-Kept config.sanitize_detail _ env.app_env r w
  behind-Kept login_form r w h = map_page-Kept auth w _ (get_login-Kept config env.auth_env r w)
  behind-Kept password_form r w h =
      map_page-Kept auth w _ (get_password-Kept config env.auth_env r w)
  behind-Kept error_list r w h =
      map_page-Kept diagnostic w _
        (DiagnosticReads.errors-Kept config.sanitize_detail env.diagnostic_env r w)
  behind-Kept (error_detail id) r w h =
      map_page-Kept diagnostic w _
        (DiagnosticReads.error-Kept config.sanitize_detail env.diagnostic_env id r w)
  behind-Kept server_list r w h =
      map_page-Kept server w _
        (ServerReads.handle_list-Kept config.sanitize_detail _ env.server_env r w)
  behind-Kept new_server_form r w h =
      map_page-Kept server w _
        (ServerReads.handle_new_form-Kept config.sanitize_detail _ env.server_env r w)
  behind-Kept (server_detail id) r w h =
      map_page-Kept server w _
        (ServerReads.handle_detail-Kept config.sanitize_detail _ env.server_env id r w)
  behind-Kept (container_list id) r w h =
      map_page-Kept container w _
        (ContainerReads.handle_list-Kept config.sanitize_detail _ env.container_env id r w)
  behind-Kept (container_logs id container_id) r w h = map_page-Kept container w _ (
      ContainerReads.handle_logs-Kept config.sanitize_detail _ env.container_env id container_id r
        w)
  behind-Kept login_post r w h = absurd (ground arith)
  behind-Kept logout_post r w h = absurd (ground arith)
  behind-Kept password_post r w h = absurd (ground arith)
  behind-Kept server_post r w h = absurd (ground arith)
  behind-Kept (test_docker id) r w h = absurd (ground arith)

  -- Whatever a route without a form answers, the database and the limiter of sign-ins are as before.
  pub handle-Kept :
      (route : Route) (r : Request) (w : World)
      → form_of route ≡ no_form
      → Kept w (handle config env route r w).1
  handle-Kept route r w h =
      Answered-Kept (access config env route r w) (behind config env route) w _
        (λ r. behind-Kept route r w h) (handle-Answered config env route r w)
