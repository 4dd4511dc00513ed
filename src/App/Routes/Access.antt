-- ===== src/App/Routes/Access.antt =====
-- The routes of internal/app/app.go: who may have which, and what becomes of the other requests.
use gopanel.Common.{refl, Option, some}
use gopanel.Common.Base64.{◌>>=◌}
use gopanel.Http.{Request, World, Handler}
use gopanel.Auth.Handler.{Config}
use gopanel.Auth.Handler.Answers.{get_login, post_login, post_logout, get_password, post_password}
use gopanel.Auth.Handler.Guards.Admission.{
  Answered, admit_session, admit_admin, admit_post, admit_login, require_login-Answered,
  require_admin-Answered, protect_authenticated_post-Answered, protect_login_post-Answered,
}
use gopanel.Diagnostic.Handler as DiagnosticHandler
use gopanel.Server.Handler as ServerHandler
use gopanel.Container.Handler as ContainerHandler
use gopanel.App.Handler.{AppPage, auth, diagnostic, server, container}
use gopanel.App.Handler as AppHandler
use gopanel.App.Routes.{
  Route, health, readiness, static, login_form, login_post, logout_post, password_form,
  password_post, home_route, error_list, error_detail, server_list, new_server_form, server_post,
  server_detail, container_list, test_docker, container_logs, unknown, RequestEnv, lift, logged_in,
  as_admin, protected, token_of, handle,
}

pub data Audience : Type 0 where
  everyone users administrators : Audience

-- Whoever has no session has the probes, the static files, the sign-in and the page for an unknown
-- path; whoever is no administrator has the home page, the password and the sign-out as well.
abbrev pub audience : Route → Audience
audience health = everyone
audience readiness = everyone
audience static = everyone
audience login_form = everyone
audience login_post = everyone
audience unknown = everyone
audience home_route = users
audience logout_post = users
audience password_form = users
audience password_post = users
audience _ = administrators

pub data Form : Type 0 where
  no_form login_token session_token : Form

-- The forms that change something, by the token that they need.
abbrev pub form_of : Route → Form
form_of login_post = login_token
form_of logout_post = session_token
form_of password_post = session_token
form_of server_post = session_token
form_of (test_docker id) = session_token
form_of _ = no_form

module _ (config : Config) (env : RequestEnv) where
  abbrev form_admits : Form → Request → Option Request
  form_admits no_form r = some r
  form_admits login_token r = admit_login config env.auth_env r >>= λ r. some r
  form_admits session_token r = admit_post config env.auth_env r >>= λ r. some r

  abbrev audience_admits : Audience → Form → Request → World → Option Request
  audience_admits everyone form r w = form_admits form r
  audience_admits users form r w = admit_session config env.auth_env r w >>= λ r. form_admits form r
  audience_admits administrators form r w = admit_session config env.auth_env r w >>= λ r.
      admit_admin config env.auth_env r >>= λ r. form_admits form r

  -- The request as the handler of the route has it, if it may.
  abbrev pub access : Route → Request → World → Option Request
  access route r w = audience_admits (audience route) (form_of route) r w

  -- The handler of a route without its middleware.
  abbrev pub behind : Route → Handler AppPage
  behind health r w =
      AppHandler.handle_health config.sanitize_detail (token_of config env) env.app_env r w
  behind readiness r w =
      AppHandler.handle_readiness config.sanitize_detail (token_of config env) env.app_env r w
  behind static r w = (env.static_file r, w)
  behind unknown r w =
      AppHandler.handle_not_found config.sanitize_detail (token_of config env) env.app_env r w
  behind login_form r w = lift config env auth (get_login config env.auth_env) r w
  behind login_post r w = lift config env auth (post_login config env.auth_env) r w
  behind logout_post r w = lift config env auth (post_logout config env.auth_env) r w
  behind password_form r w = lift config env auth (get_password config env.auth_env) r w
  behind password_post r w = lift config env auth (post_password config env.auth_env) r w
  behind home_route r w =
      AppHandler.handle_home config.sanitize_detail (token_of config env) env.app_env r w
  behind error_list r w =
      lift config env diagnostic
        (DiagnosticHandler.handle_list config.sanitize_detail env.diagnostic_env) r w
  behind (error_detail id) r w =
      lift config env diagnostic
        (DiagnosticHandler.handle_detail config.sanitize_detail env.diagnostic_env id) r w
  behind server_list r w =
      lift config env server
        (ServerHandler.handle_list config.sanitize_detail (token_of config env) env.server_env) r w
  behind new_server_form r w =
      lift config env server
        (ServerHandler.handle_new_form config.sanitize_detail (token_of config env) env.server_env)
        r w
  behind server_post r w =
      lift config env server
        (ServerHandler.handle_create config.sanitize_detail (token_of config env) env.server_env) r
        w
  behind (server_detail id) r w =
      lift config env server
        (ServerHandler.handle_detail config.sanitize_detail (token_of config env) env.server_env id)
        r w
  behind (container_list id) r w =
      lift config env container
        (ContainerHandler.handle_list config.sanitize_detail (token_of config env) env.container_env
          id)
        r w
  behind (test_docker id) r w =
      lift config env container
        (ContainerHandler.handle_test_connection config.sanitize_detail (token_of config env)
          env.container_env id)
        r w
  behind (container_logs id container_id) r w =
      lift config env container
        (ContainerHandler.handle_logs config.sanitize_detail (token_of config env) env.container_env
          id container_id)
        r w

  as_admin-Answered :
      (admit : Request → World → Option Request) (next handler : Handler AppPage)
      → ((r : Request) (w : World) → Answered (admit r w) handler w (next r w))
      → (r : Request) (w : World)
      → Answered
          (admit_session config env.auth_env r w >>= λ r.
            admit_admin config env.auth_env r >>= λ r. admit r w)
          handler
          w
          (as_admin config env next r w)
  as_admin-Answered admit next handler step r w =
      require_login-Answered config env.auth_env auth
        (λ r w. admit_admin config env.auth_env r >>= λ r. admit r w) _ handler
        (require_admin-Answered config env.auth_env auth admit next handler step) r w

  open_to_admin :
      (handler : Handler AppPage) (r : Request) (w : World)
      → Answered
          (audience_admits administrators no_form r w)
          handler
          w
          (as_admin config env handler r w)
  open_to_admin handler = as_admin-Answered (λ r w. some r) handler handler (λ r w. refl)

  open_to_user :
      (handler : Handler AppPage) (r : Request) (w : World)
      → Answered (audience_admits users no_form r w) handler w (logged_in config env handler r w)
  open_to_user handler =
      require_login-Answered config env.auth_env auth (λ r w. some r) handler handler (λ r w. refl)

  session_form :
      (handler : Handler AppPage) (r : Request) (w : World)
      → Answered (form_admits session_token r) handler w (protected config env handler r w)
  session_form handler =
      protect_authenticated_post-Answered config env.auth_env auth (λ r w. some r) handler handler
        (λ r w. refl)

  form_of_admin :
      (handler : Handler AppPage) (r : Request) (w : World)
      → Answered
          (audience_admits administrators session_token r w)
          handler
          w
          (as_admin config env (protected config env handler) r w)
  form_of_admin handler =
      as_admin-Answered (λ r w. form_admits session_token r) (protected config env handler) handler
        (session_form handler)

  form_of_user :
      (handler : Handler AppPage) (r : Request) (w : World)
      → Answered
          (audience_admits users session_token r w)
          handler
          w
          (logged_in config env (protected config env handler) r w)
  form_of_user handler =
      require_login-Answered config env.auth_env auth (λ r w. form_admits session_token r)
        (protected config env handler) handler (session_form handler)

  -- The router answers with the handler of the route exactly if the route is open to the request: a
  -- session that is alive where the route needs a user, the administrator's role where it needs one,
  -- and for a form the same origin and the token. Every other request is answered with an error, and
  -- leaves the database, the limiter and the cache as they are.
  pub handle-Answered :
      (route : Route) (r : Request) (w : World)
      → Answered (access route r w) (behind route) w (handle config env route r w)
  unfolding handle
  handle-Answered health r w = refl
  handle-Answered readiness r w = refl
  handle-Answered static r w = refl
  handle-Answered login_form r w = refl
  handle-Answered unknown r w = refl
  handle-Answered login_post r w =
      protect_login_post-Answered config env.auth_env auth (λ r w. some r) _ (behind login_post)
        (λ r w. refl) r w
  handle-Answered logout_post r w = form_of_user (behind logout_post) r w
  handle-Answered password_form r w = open_to_user (behind password_form) r w
  handle-Answered password_post r w = form_of_user (behind password_post) r w
  handle-Answered home_route r w = open_to_user (behind home_route) r w
  handle-Answered error_list r w = open_to_admin (behind error_list) r w
  handle-Answered (error_detail id) r w = open_to_admin (behind (error_detail id)) r w
  handle-Answered server_list r w = open_to_admin (behind server_list) r w
  handle-Answered new_server_form r w = open_to_admin (behind new_server_form) r w
  handle-Answered server_post r w = form_of_admin (behind server_post) r w
  handle-Answered (server_detail id) r w = open_to_admin (behind (server_detail id)) r w
  handle-Answered (container_list id) r w = open_to_admin (behind (container_list id)) r w
  handle-Answered (test_docker id) r w = form_of_admin (behind (test_docker id)) r w
  handle-Answered (container_logs id container_id) r w =
      open_to_admin (behind (container_logs id container_id)) r w
