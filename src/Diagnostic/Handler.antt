-- ===== src/Diagnostic/Handler.antt =====
-- internal/diagnostic/handler.go. Log lines are left out.
pub mod Reads
use mathlib.Core.List.{reverse}
use gopanel.Common.{ℕ, Bool, List, [], ◌∷◌, ◌++◌, Option, none, some, Bytes, codes}
use gopanel.Diagnostic.Record.{Input, Record, lookup, snapshot}
use gopanel.Http.{
  Request, is_htmx_request, current_user_id, page, Response, World, Rendering, Handler, ok_status,
  not_found_status, internal_error, write_component,
}

-- The components of internal/view/pages/diagnosticpages, each as a page or as a fragment.
pub data DiagnosticPage : Type 0 where
  error_list : (fragment : Bool) → List Record → DiagnosticPage
  error_detail : (fragment : Bool) → Record → DiagnosticPage
  error_not_found : (fragment : Bool) (id : Bytes) → DiagnosticPage

-- `%T` of an error is its type's name.
pub record DiagnosticEnv : Type 0 where
  pub rendering : Rendering
  pub error_type : Bytes

module _ (sanitize_detail : Bytes → Bytes) (env : DiagnosticEnv) where
  -- `recordRenderFailure`
  unfoldable pub render_failure_input : Request → Input
  render_failure_input r = record {
    event = codes "error_panel_render_failed";
    component = codes "presentation";
    public_message = codes "The Error Log page could not be rendered.";
    technical_detail = codes "diagnostic render failed: error_type=" ++ env.error_type;
    user_id = current_user_id r;
    action = r.path;
    target = [];
    http_status = internal_error;
    audit_correlation_id = [];
  }

  abbrev write_failure_input : Request → ℕ → Input
  write_failure_input r status = record {
    event = codes "error_panel_response_write_failed";
    component = codes "presentation";
    public_message = codes "The Error Log response could not be completed.";
    technical_detail = codes "diagnostic response write failed";
    user_id = current_user_id r;
    action = r.path;
    target = [];
    http_status = status;
    audit_correlation_id = [];
  }

  unfoldable pub render :
      Request → (status : ℕ) → DiagnosticPage → World → Response DiagnosticPage × World
  unfolding render_failure_input
  render r status component w =
      write_component sanitize_detail env.rendering (render_failure_input r)
        (write_failure_input r status)
        (record { status = status; cookies = []; location = none; body = page component }) w

  unfoldable pub handle_list : Handler DiagnosticPage
  unfolding render
  handle_list r w =
      render r ok_status (error_list (is_htmx_request r) (reverse (snapshot w.recorder))) w

  abbrev pub detail_page : Request → Bytes → Option Record → World → Response DiagnosticPage × World
  detail_page r id none w = render r not_found_status (error_not_found (is_htmx_request r) id) w
  detail_page r id (some found) w = render r ok_status (error_detail (is_htmx_request r) found) w

  unfoldable pub handle_detail : (id : Bytes) → Handler DiagnosticPage
  unfolding render
  handle_detail id r w = detail_page r id (lookup w.recorder id) w
