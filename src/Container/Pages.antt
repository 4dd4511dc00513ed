-- ===== src/Container/Pages.antt =====
-- internal/container/diagnostic.go, and what the pages of handler.go show of errors and containers.
use gopanel.Common.{
  ℕ, Bool, true, false, List, [], ◌∷◌, ◌++◌, Option, some, Bytes, codes, length, leb, take,
  if◌then◌else◌,
}
use gopanel.Container.Summary.{DockerSummaryModel}
use gopanel.Container.Client.{Container, timed_out, permission, missing, unavailable, protocol}
use gopanel.Container.Service.{
  registry, client, log_too_large, ServiceError, server_not_found, not_docker_server, backend,
}
use gopanel.Http.{not_found_status, unprocessable, service_unavailable}

-- `SafeDiagnostic`; errors.Is(err, context.DeadlineExceeded) is its first argument, and `none` an
-- error of no operation.
unfoldable pub safe_diagnostic : (deadline : Bool) → Option ServiceError → Bytes
safe_diagnostic deadline (some (backend operation log_too_large)) =
    codes "Docker log response exceeded the bounded byte limit"
safe_diagnostic true e = codes "Docker request timed out"
safe_diagnostic false (some (backend operation registry)) =
    codes "Docker " ++ (operation ++ codes " failed")
safe_diagnostic false (some (backend operation (client unavailable))) =
    codes "Docker daemon was unavailable"
safe_diagnostic false (some (backend operation (client timed_out))) =
    codes "Docker request timed out"
safe_diagnostic false (some (backend operation (client permission))) =
    codes "Docker daemon denied access"
safe_diagnostic false (some (backend operation (client missing))) =
    codes "Docker container was not found"
safe_diagnostic false (some (backend operation (client protocol))) =
    codes "Docker protocol operation failed"
safe_diagnostic false e = codes "Docker operation failed"

pub record ErrorModel : Type 0 where
  pub server_id : Bytes
  pub title : Bytes
  pub message : Bytes
  pub error_reference : Bytes
  pub show_error_log : Bool

pub record DisplayContainer : Type 0 where
  pub short_id : Bytes
  pub container : Container

-- The components of internal/view/pages/containerpages that the handler renders.
pub data ContainerPage : Type 0 where
  container_list :
      (fragment : Bool) (server_id server_name : Bytes)
      → List DisplayContainer
      → (can_view_logs : Bool) → ContainerPage
  docker_summary : DockerSummaryModel → ContainerPage
  logs_page : (server_id container_id container_ref content : Bytes) → ContainerPage
  docker_error : (fragment : Bool) → ErrorModel → ContainerPage

-- `operationErrorPresentation`: status, title, message, and whether the error is expected.
unfoldable pub operation_error_presentation : ServiceError → ℕ × Bytes × Bytes × Bool
operation_error_presentation server_not_found = (
  not_found_status,
  codes "Server not found",
  codes "No registered server matches that identifier.",
  true,
)
operation_error_presentation not_docker_server = (
  unprocessable,
  codes "Docker is not configured for this server",
  codes "Choose a registered server whose connection type is Docker.",
  true,
)
operation_error_presentation (backend operation cause) = (
  service_unavailable,
  codes "Docker did not respond",
  codes "Try again. If the problem continues, use the error reference in the Error Log.",
  false,
)
operation_error_presentation e = (
  not_found_status,
  codes "Container not found",
  codes "Docker could not find that container. Return to the container list and try again.",
  true,
)

unfoldable pub short_container_id : Bytes → Bytes
short_container_id id = if leb (length id) 12 then id else take 12 id

unfoldable pub display_containers : List Container → List DisplayContainer
display_containers [] = []
display_containers (item ∷ containers) =
    record { short_id = short_container_id item.id; container = item }
    ∷ display_containers containers
