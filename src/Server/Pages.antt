-- ===== src/Server/Pages.antt =====
-- The pages of internal/server/handler.go, and `SafeDiagnostic` of service.go.
use gopanel.Common.{Bool, List, ◌++◌, Option, none, some, Bytes, codes}
use gopanel.Container.Summary.{DockerSummaryModel}
use gopanel.Server.Model
use gopanel.Server.Model.{Server}
use gopanel.Server.Validate.{FieldErrors}
use gopanel.Server.Service.{
  CreateFailure, validation, preparation, audit_unavailable, creation, audit_incomplete,
  ReadFailure, not_found, backend,
}

-- The components of internal/view/pages/serverpages, each as a page or as a fragment.
pub data ServerPage : Type 0 where
  server_list : (fragment : Bool) → List Server → ServerPage
  server_detail : (fragment : Bool) → Server → Option DockerSummaryModel → ServerPage
  server_form : (fragment : Bool) (token : Bytes) → Model.Input → Option FieldErrors → ServerPage
  server_error : (fragment : Bool) (reference : Bytes) → ServerPage
  server_audit_incomplete : (fragment : Bool) → Server → (reference : Bytes) → ServerPage
  server_not_found : (fragment : Bool) (id : Bytes) → ServerPage

-- The errors that `SafeDiagnostic` meets: of `Create`, of a read, or of the form token.
pub data HandlerError : Type 0 where
  create_error : CreateFailure → HandlerError
  read_error : ReadFailure → HandlerError
  token_error : HandlerError

unfoldable pub safe_diagnostic : HandlerError → Bytes
safe_diagnostic (create_error preparation) = codes "server identifier generation failed"
safe_diagnostic (create_error (audit_unavailable e)) = codes "audit attempt insert failed"
safe_diagnostic (create_error (creation audit_id cause (some e))) =
    codes "server persistence failed; audit result update failed"
safe_diagnostic (create_error (creation audit_id cause none)) = codes "server persistence failed"
safe_diagnostic (create_error (audit_incomplete server audit_id e)) =
    codes "audit result update failed after server persistence"
safe_diagnostic (create_error (validation fields)) = codes "server operation failed"
safe_diagnostic (read_error (backend operation e)) =
    codes "server " ++ (operation ++ codes " failed")
safe_diagnostic (read_error not_found) = codes "server operation failed"
safe_diagnostic token_error = codes "server operation failed"
