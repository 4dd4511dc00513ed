-- ===== src/App/Handler.antt =====
-- internal/app/handler.go: the home page, the probes and the page for other paths. The text of
-- `writeSafeRenderError` shows the reference of a record.
pub mod Reads
use gopanel.Common.{ℕ, Bool, [], ◌∷◌, ◌++◌, Option, none, some, Bytes, codes, eqb, if◌then◌else◌}
use gopanel.Diagnostic.Handler.{DiagnosticPage}
use gopanel.Container.Pages.{ContainerPage}
use gopanel.Server.Pages.{ServerPage}
use gopanel.Auth.Handler.{AuthPage}
use gopanel.Http.{
  Request, is_htmx_request, current_user, page, fallback, plain, Response, World, Draw, Rendering,
  Handler, ok_status, not_found_status, internal_error, service_unavailable, record_diagnostic,
}

-- Every page of the application.
pub data AppPage : Type 0 where
  home : (name : Bytes) (is_admin : Bool) (token : Bytes) → AppPage
  not_found : (fragment : Bool) → AppPage
  auth : AuthPage → AppPage
  diagnostic : DiagnosticPage → AppPage
  server : ServerPage → AppPage
  container : ContainerPage → AppPage

pub record AppEnv : Type 0 where
  pub shutting_down : Bool
  -- whether `Ready` of the store answers
  pub ready : Bool
  pub error_type : Bytes
  pub token_draw : Draw
  pub rendering : Rendering
  pub error_write_fails : Bool
  pub error_write_draw : Draw

module _ (sanitize_detail : Bytes → Bytes) (issue_token : Request → Option Bytes)
    (env : AppEnv) where
  -- `recordHTTPFailure`
  unfoldable pub record_http_failure : Draw → (event : Bytes) → World → World × Bytes
  record_http_failure draw event w =
      record_diagnostic sanitize_detail draw
        (record {
          event = event;
          component = codes "http";
          public_message = codes "The HTTP response could not be completed.";
          technical_detail = codes "error_type=" ++ env.error_type;
          user_id = [];
          action = [];
          target = [];
          http_status = 0;
          audit_correlation_id = [];
        })
        w

  abbrev pub written :
      Response AppPage → (fails : Bool) → Draw → (event : Bytes) → World → Response AppPage × World
  written answer fails draw event w =
      (answer, if fails then (record_http_failure draw event w).0 else w)

  -- `writeSafeRenderError` behind the record of the failure.
  unfoldable pub write_safe_render_error : World × Bytes → Response AppPage × World
  unfolding record_http_failure
  write_safe_render_error (w, reference) =
      written
        (record {
          status = internal_error;
          cookies = [];
          location = none;
          body = fallback reference;
        })
        env.error_write_fails env.error_write_draw (codes "write_error_response_failed") w

  -- `respondHTML`
  unfoldable pub respond_html : (status : ℕ) → AppPage → World → Response AppPage × World
  unfolding record_http_failure write_safe_render_error
  respond_html status component w =
      if env.rendering.render_fails
      then write_safe_render_error
          (record_http_failure env.rendering.render_draw (codes "render_response_failed") w)
      else written
          (record { status = status; cookies = []; location = none; body = page component })
          env.rendering.write_fails env.rendering.write_draw (codes "write_response_failed") w

  abbrev pub home_for : Request → Option Bytes → World → Response AppPage × World
  home_for r none w =
      write_safe_render_error
        (record_http_failure env.token_draw (codes "home_form_token_failed") w)
  home_for r (some token) w =
      respond_html ok_status
        (home (current_user r).name (eqb (current_user r).role (codes "admin")) token) w

  unfoldable pub handle_home : Handler AppPage
  unfolding respond_html record_http_failure write_safe_render_error
  handle_home r w = home_for r (issue_token r) w

  unfoldable pub write_probe_response :
      (status : ℕ) (text : Bytes) → World → Response AppPage × World
  unfolding record_http_failure
  write_probe_response status text w =
      written (record { status = status; cookies = []; location = none; body = plain text })
        env.rendering.write_fails env.rendering.write_draw (codes "write_probe_response_failed") w

  unfoldable pub handle_health : Handler AppPage
  unfolding write_probe_response
  handle_health r w = write_probe_response ok_status (codes "alive" ++ 10 ∷ []) w

  unfoldable pub handle_readiness : Handler AppPage
  unfolding write_probe_response
  handle_readiness r w =
      if env.shutting_down
      then write_probe_response service_unavailable (codes "not ready" ++ 10 ∷ []) w
      else if env.ready
      then write_probe_response ok_status (codes "ready" ++ 10 ∷ []) w
      else write_probe_response service_unavailable (codes "not ready" ++ 10 ∷ []) w

  unfoldable pub handle_not_found : Handler AppPage
  unfolding respond_html
  handle_not_found r w = respond_html not_found_status (not_found (is_htmx_request r)) w
