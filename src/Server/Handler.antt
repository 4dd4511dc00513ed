-- ===== src/Server/Handler.antt =====
-- internal/server/handler.go, with `SafeDiagnostic` of service.go. Log lines are left out; what a page
-- shows of a server is the server.
pub mod Reads
use gopanel.Common.{
  ℕ, Bool, not, List, [], ◌∷◌, ◌++◌, Option, none, some, Bytes, codes, eqb, null, if◌then◌else◌,
}
use gopanel.Common.Result.{Result, ok, err}
use gopanel.Diagnostic.Record.{Input}
use gopanel.Container.Status.{get_status}
use gopanel.Container.Summary.{DockerSummaryModel, prepare_summary_model}
use gopanel.Server.Model
use gopanel.Server.Model.{Server}
use gopanel.Server.Validate.{FieldErrors}
use gopanel.Server.Service.{
  CreateFailure, validation, preparation, audit_unavailable, creation, audit_incomplete, Reply,
  CreateEnv, ReadFailure, not_found, backend, create_server_action, create, list, get,
}
use gopanel.Server.Pages.{
  ServerPage, HandlerError, safe_diagnostic, server_list, server_detail, server_form, server_error,
  server_audit_incomplete, server_not_found, create_error, read_error, token_error,
}
use gopanel.Http.{
  Request, form_value, is_htmx_request, current_user_id, page, empty, Response, World, Draw,
  Rendering, Handler, ok_status, created_status, see_other, not_found_status, unprocessable,
  internal_error, record_diagnostic, write_component,
}

-- What the surroundings decide in a request.
pub record ServerEnv : Type 0 where
  pub is_ip : Bytes → Bool
  pub sort : List Server → List Server
  -- time.RFC3339
  pub format : Option ℕ → Bytes
  pub query_fails : Bool
  pub parse_fails : Bool
  pub create_env : CreateEnv
  pub failure_draw : Draw
  pub rendering : Rendering

unfoldable pub read_input : Request → Model.Input
read_input r = record {
  name = form_value r (codes "name");
  address = form_value r (codes "address");
  connection_type = form_value r (codes "connection_type");
}

abbrev empty_input : Model.Input
empty_input = record { name = []; address = []; connection_type = [] }

module _ (sanitize_detail : Bytes → Bytes) (issue_token : Request → Option Bytes)
    (env : ServerEnv) where
  -- The record of a response that is not rendered or not written.
  abbrev presentation_failure : Request → (event message detail : Bytes) → Input
  presentation_failure r event message detail = record {
    event = event;
    component = codes "presentation";
    public_message = message;
    technical_detail = detail;
    user_id = current_user_id r;
    action = r.path;
    target = [];
    http_status = internal_error;
    audit_correlation_id = [];
  }

  abbrev pub render_at :
      Option Bytes → Request → (status : ℕ) → ServerPage → World → Response ServerPage × World
  render_at location r status component w =
      write_component sanitize_detail env.rendering
        (presentation_failure r (codes "server_response_render_failed")
          (codes "The server page could not be rendered.") (codes "server response render failed"))
        (presentation_failure r (codes "server_response_write_failed")
          (codes "The server response could not be completed.")
          (codes "server response write failed"))
        (record { status = status; cookies = []; location = location; body = page component }) w

  unfoldable pub render : Request → (status : ℕ) → ServerPage → World → Response ServerPage × World
  render r status component w = render_at none r status component w

  abbrev pub server_error_at :
      Option Bytes → Request → (action : Bytes) → HandlerError → World → Response ServerPage × World
  server_error_at location r action e w =
      let (w', reference) =
        record_diagnostic sanitize_detail env.failure_draw
          (record {
            event = action;
            component = codes "server";
            public_message = codes "Server could not be loaded. Try again.";
            technical_detail = safe_diagnostic e;
            user_id = current_user_id r;
            action = [];
            target = [];
            http_status = internal_error;
            audit_correlation_id = [];
          })
          w in
      render_at location r internal_error (server_error (is_htmx_request r) reference) w'

  -- `renderServerError`
  unfoldable pub render_server_error :
      Request → (action : Bytes) → HandlerError → World → Response ServerPage × World
  render_server_error r action e w = server_error_at none r action e w

  abbrev pub list_page :
      Request → Result ReadFailure (List Server) → World → Response ServerPage × World
  list_page r (err e) w = render_server_error r (codes "list_servers") (read_error e) w
  list_page r (ok servers) w = render r ok_status (server_list (is_htmx_request r) servers) w

  unfoldable pub handle_list : Handler ServerPage
  unfolding render_server_error render
  handle_list r w = list_page r (list env.sort env.query_fails env.parse_fails w.db) w

  abbrev with_docker : World → Server → Option Bytes → Option (Option DockerSummaryModel)
  with_docker w server none = none
  with_docker w server (some token) =
      some
        (some (prepare_summary_model env.format server.id (get_status w.cache server.id) token []))

  -- `prepareDetail`: `none` is a failing form token, and within it a server without Docker.
  unfoldable pub prepare_detail : Request → Server → World → Option (Option DockerSummaryModel)
  prepare_detail r server w =
      if not (eqb server.connection_type (codes "docker"))
      then some none
      else with_docker w server (issue_token r)

  abbrev pub detail_page :
      Option Bytes
      → (status : ℕ) → Request
      → Server
      → Option (Option DockerSummaryModel)
      → World
      → Response ServerPage × World
  detail_page location status r server none w =
      server_error_at location r (codes "prepare_server_detail") token_error w
  detail_page location status r server (some docker) w =
      render_at location r status (server_detail (is_htmx_request r) server docker) w

  abbrev pub found_page :
      Request → Bytes → Result ReadFailure Server → World → Response ServerPage × World
  found_page r id (err not_found) w =
      render r not_found_status (server_not_found (is_htmx_request r) id) w
  found_page r id (err e) w = render_server_error r (codes "get_server") (read_error e) w
  found_page r id (ok server) w = detail_page none ok_status r server (prepare_detail r server w) w

  unfoldable pub handle_detail : (id : Bytes) → Handler ServerPage
  unfolding render_server_error render prepare_detail
  handle_detail id r w = found_page r id (get env.query_fails env.parse_fails id w.db) w

  abbrev pub form_page :
      Request
      → (status : ℕ) → Model.Input
      → Option FieldErrors
      → Option Bytes
      → World
      → Response ServerPage × World
  form_page r status input errors none w =
      render_server_error r (codes "prepare_server_form") token_error w
  form_page r status input errors (some token) w =
      render r status (server_form (is_htmx_request r) token input errors) w

  unfoldable pub handle_new_form : Handler ServerPage
  unfolding render_server_error render
  handle_new_form r w = form_page r ok_status empty_input none (issue_token r) w

  unfoldable pub render_validation :
      Request → Model.Input → FieldErrors → (token : Bytes) → World → Response ServerPage × World
  unfolding render_server_error render
  render_validation r input errors token w =
      form_page r unprocessable input (some errors)
        (if null token then issue_token r else some token) w

  unfoldable pub record_failure :
      (user_id target audit_id message : Bytes) → HandlerError → World → World × Bytes
  record_failure user_id target audit_id message e w =
      record_diagnostic sanitize_detail env.failure_draw
        (record {
          event = create_server_action;
          component = codes "server";
          public_message = message;
          technical_detail = safe_diagnostic e;
          user_id = user_id;
          action = create_server_action;
          target = target;
          http_status = internal_error;
          audit_correlation_id = audit_id;
        })
        w

  abbrev create_error_page :
      Request → Model.Input → Bytes → CreateFailure → World → Response ServerPage × World
  create_error_page r input audit_id e w =
      let (w', reference) =
        record_failure (current_user_id r) input.name audit_id
          (codes "Server could not be created.") (create_error e) w in
      render r internal_error (server_error (is_htmx_request r) reference) w'

  unfoldable pub handle_create_failure :
      Request
      → Model.Input
      → (audit_id : Bytes) → CreateFailure
      → World
      → Response ServerPage × World
  unfolding render_validation record_failure render
  handle_create_failure r input audit_id (validation fields) w =
      render_validation r input fields (form_value r (codes "csrf_token")) w
  handle_create_failure r input audit_id (audit_incomplete server id e) w =
      let (w', reference) =
        record_failure (current_user_id r) server.id id
          (codes "Server was created, but its audit record is incomplete.")
          (create_error (audit_incomplete server id e)) w in
      render r internal_error (server_audit_incomplete (is_htmx_request r) server reference) w'
  handle_create_failure r input audit_id e w = create_error_page r input audit_id e w

  abbrev created_page : Request → Server → World → Response ServerPage × World
  created_page r server w =
      let path = codes "/servers/" ++ server.id in
      if is_htmx_request r
      then detail_page (some path) created_status r server (prepare_detail r server w) w
      else (record { status = see_other; cookies = []; location = some path; body = empty }, w)

  abbrev created_or_failed :
      Request → Model.Input → Reply → Option CreateFailure → World → Response ServerPage × World
  created_or_failed r input reply none w = created_page r reply.server w
  created_or_failed r input reply (some e) w = handle_create_failure r input reply.audit_id e w

  -- `respondToCreate`
  unfoldable pub respond_to_create :
      Request → Model.Input → Reply → World → Response ServerPage × World
  unfolding handle_create_failure prepare_detail
  respond_to_create r input reply w = created_or_failed r input reply reply.failure w

  -- `HandleCreate` with `createFromRequest`
  unfoldable pub handle_create : Handler ServerPage
  unfolding respond_to_create
  handle_create r w =
      let (reply, db) = create env.is_ip env.create_env (current_user_id r) (read_input r) w.db in
      respond_to_create r (read_input r) reply (record w { db = db })
