-- ===== src/Container/Handler.antt =====
-- internal/container/handler.go and diagnostic.go. Log lines are left out. A status shows its state,
-- its reference and the time of its check.
pub mod Reads
use gopanel.Common.{
  ℕ, Bool, true, false, ◌&&◌, List, [], ◌∷◌, ◌++◌, Option, none, some, Bytes, codes, eqb, length,
  leb, take, if◌then◌else◌,
}
use gopanel.Common.Result.{Result, ok, err}
use gopanel.Database.{Db}
use gopanel.Diagnostic.Record.{Input}
use gopanel.Container.Status.{get_status, mark_connected, mark_unavailable}
use gopanel.Container.Summary.{DockerSummaryModel, prepare_summary_model}
use gopanel.Container.Client.{
  Container, timed_out, permission, missing, unavailable, protocol, EngineError, Stream, Summary,
}
use gopanel.Container.Service.{
  RegisteredServer, registry, client, log_too_large, ServiceError, server_not_found,
  not_docker_server, container_not_found, invalid_container_id, backend, Lookup, get_docker_server,
  test_connection, list_service_containers, view_service_logs,
}
use gopanel.Container.Pages.{
  safe_diagnostic, ErrorModel, DisplayContainer, ContainerPage, operation_error_presentation,
  short_container_id, display_containers, container_list, docker_summary, logs_page, docker_error,
}
use gopanel.Http.{
  Request, form_value, current_user, current_user_id, page, empty, Response, World, Draw, Rendering,
  Handler, ok_status, see_other, not_found_status, unprocessable, internal_error,
  service_unavailable, record_diagnostic, write_component,
}

abbrev pub list_containers_action : Bytes
list_containers_action = codes "list_containers"

abbrev pub test_docker_action : Bytes
test_docker_action = codes "test_docker_connection"

abbrev pub view_logs_action : Bytes
view_logs_action = codes "view_container_logs"

-- What the surroundings decide in a request. `equal_fold` is strings.EqualFold.
pub record ContainerEnv : Type 0 where
  pub equal_fold : Bytes → Bytes → Bool
  -- time.RFC3339
  pub format : Option ℕ → Bytes
  pub demultiplex : Bytes → Option Bytes
  pub to_valid_utf8 : Bytes → Bytes
  -- the lookup of the registry, and the second one that a listing makes
  pub find_server : Bytes → Db → Lookup
  pub find_server_again : Bytes → Db → Lookup
  pub ping_reply : Option EngineError
  pub list_reply : Result EngineError (List Summary)
  pub inspection : Result EngineError Bool
  pub stream : Result EngineError Stream
  pub now : ℕ
  pub deadline : Bool
  pub render_deadline : Bool
  pub failure_draw : Draw
  pub rendering : Rendering

module _ (sanitize_detail : Bytes → Bytes) (issue_token : Request → Option Bytes)
    (env : ContainerEnv) where
  unfoldable pub is_htmx_request : Request → Bool
  is_htmx_request r = env.equal_fold r.hx_request (codes "true")

  unfoldable pub current_user_is_admin : Request → Bool
  current_user_is_admin r = eqb (current_user r).role (codes "admin")

  abbrev failure_input :
      Request
      → (server_id action : Bytes) (status : ℕ) (message : Bytes) (deadline : Bool)
      → Option ServiceError
      → Input
  failure_input r server_id action status message deadline e = record {
    event = action;
    component = codes "docker";
    public_message = message;
    technical_detail = safe_diagnostic deadline e;
    user_id = current_user_id r;
    action = action;
    target = server_id;
    http_status = status;
    audit_correlation_id = [];
  }

  unfoldable pub record_failure :
      Request
      → (server_id action : Bytes) (status : ℕ) (message : Bytes) → ServiceError
      → World
      → World × Bytes
  unfolding safe_diagnostic
  record_failure r server_id action status message e w =
      record_diagnostic sanitize_detail env.failure_draw
        (failure_input r server_id action status message env.deadline (some e)) w

  unfoldable pub render :
      Request → (status : ℕ) → ContainerPage → World → Response ContainerPage × World
  unfolding safe_diagnostic
  render r status component w =
      write_component sanitize_detail env.rendering
        (failure_input r r.path (codes "docker_response_render_failed") internal_error
          (codes "The Docker page could not be rendered.") env.render_deadline none)
        (failure_input r r.path (codes "docker_response_write_failed") internal_error
          (codes "The Docker response could not be completed.") env.render_deadline none)
        (record { status = status; cookies = []; location = none; body = page component }) w

  -- `renderExpectedError`
  abbrev render_expected_error :
      Request → ErrorModel → (status : ℕ) → World → Response ContainerPage × World
  render_expected_error r model status w =
      render r status (docker_error (is_htmx_request r) model) w

  abbrev summary_of : World → (server_id token message : Bytes) → DockerSummaryModel
  summary_of w server_id token message =
      prepare_summary_model env.format server_id (get_status w.cache server_id) token message

  abbrev unexpected_error :
      Request
      → (server_id action : Bytes) → ServiceError
      → (status : ℕ) (title message : Bytes) → World
      → Response ContainerPage × World
  unexpected_error r server_id action e status title message w =
      let (w₁, reference) = record_failure r server_id action status title e w in
      let w₂ : World = record w₁ {
        cache = mark_unavailable w₁.cache server_id env.now reference;
      } in
      if eqb action test_docker_action && is_htmx_request r
      then render r status
          (docker_summary (summary_of w₂ server_id (form_value r (codes "csrf_token")) [])) w₂
      else render_expected_error r
          (record {
            server_id = server_id;
            title = title;
            message = message;
            error_reference = reference;
            show_error_log = current_user_is_admin r;
          })
          status w₂

  abbrev pub presented :
      Request
      → (server_id action : Bytes) → ServiceError
      → ℕ × Bytes × Bytes × Bool
      → World
      → Response ContainerPage × World
  presented r server_id action e (status, title, message, true) w =
      render_expected_error r
        (record {
          server_id = server_id;
          title = title;
          message = message;
          error_reference = [];
          show_error_log = false;
        })
        status w
  presented r server_id action e (status, title, message, false) w =
      unexpected_error r server_id action e status title message w

  unfoldable pub render_operation_error :
      Request → (server_id action : Bytes) → ServiceError → World → Response ContainerPage × World
  unfolding render record_failure is_htmx_request current_user_is_admin
  render_operation_error r server_id action e w =
      presented r server_id action e (operation_error_presentation e) w

  abbrev pub listed :
      Request
      → (server_id name : Bytes) → Result ServiceError (List Container)
      → World
      → Response ContainerPage × World
  listed r server_id name (err e) w = render_operation_error r server_id list_containers_action e w
  listed r server_id name (ok containers) w =
      render r ok_status
        (container_list (is_htmx_request r) server_id name (display_containers containers)
          (current_user_is_admin r))
        (record w { cache = mark_connected w.cache server_id env.now })

  abbrev pub list_for :
      Request
      → (server_id : Bytes) → Result ServiceError RegisteredServer
      → World
      → Response ContainerPage × World
  list_for r server_id (err e) w = render_operation_error r server_id list_containers_action e w
  list_for r server_id (ok registered) w =
      listed r server_id registered.name
        (list_service_containers (env.find_server_again server_id w.db) env.list_reply) w

  unfoldable pub handle_list : (server_id : Bytes) → Handler ContainerPage
  unfolding render_operation_error render is_htmx_request current_user_is_admin
  handle_list server_id r w =
      list_for r server_id (get_docker_server (env.find_server server_id w.db)) w

  abbrev pub summary_page :
      Request → (server_id : Bytes) → Option Bytes → World → Response ContainerPage × World
  summary_page r server_id none w =
      render_operation_error r server_id test_docker_action
        (backend (codes "prepare Docker form") registry) w
  summary_page r server_id (some token) w =
      render r ok_status
        (docker_summary (summary_of w server_id token (codes "Docker connection succeeded."))) w

  abbrev pub tested :
      Request
      → (server_id : Bytes) → Result ServiceError (Unit {0})
      → World
      → Response ContainerPage × World
  tested r server_id (err e) w = render_operation_error r server_id test_docker_action e w
  tested r server_id (ok done) w =
      let w' : World = record w { cache = mark_connected w.cache server_id env.now } in
      if is_htmx_request r then summary_page r server_id (issue_token r) w' else (
        record {
          status = see_other;
          cookies = [];
          location = some (codes "/servers/" ++ server_id);
          body = empty;
        },
        w',
      )

  unfoldable pub handle_test_connection : (server_id : Bytes) → Handler ContainerPage
  unfolding render_operation_error render is_htmx_request
  handle_test_connection server_id r w =
      tested r server_id (test_connection (env.find_server server_id w.db) env.ping_reply) w

  abbrev pub logs_answer :
      Request
      → (server_id container_id : Bytes) → Result ServiceError Bytes
      → World
      → Response ContainerPage × World
  logs_answer r server_id container_id (err e) w =
      render_operation_error r server_id view_logs_action e w
  logs_answer r server_id container_id (ok logs) w =
      render r ok_status (logs_page server_id container_id (short_container_id container_id) logs) w

  unfoldable pub handle_logs : (server_id container_id : Bytes) → Handler ContainerPage
  unfolding render_operation_error render
  handle_logs server_id container_id r w =
      logs_answer r server_id container_id
        (view_service_logs env.demultiplex env.to_valid_utf8 (env.find_server server_id w.db)
          container_id env.inspection env.stream)
        w
