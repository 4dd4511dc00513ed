-- ===== src/Container/Examples.antt =====
-- The theorems on logs at concrete inputs.
use gopanel.Common.{
  [], ◌∷◌, ◌++◌, ◌≡◌, ◌≤◌, refl, Bytes, codes, some, false, true, arith, eqb, has_suffix,
}
use gopanel.Common.Split.{split, join}
use gopanel.Common.Result.{ok}
use gopanel.Container.Client.{bound_log_lines, read_logs, view_logs, Stream}
use gopanel.Container.Client.Lines.{Ends, newlines, bound_log_lines-Ends}
use gopanel.Container.Service.{
  RegisteredServer, get_docker_server, container_id_pattern, all_hex, view_service_logs,
}
use gopanel.Container.Service.Logs.{Shown, view_service_logs-Shown}

abbrev log : Bytes
log = codes "a" ++ 10 ∷ codes "b" ++ 10 ∷ codes "c" ++ 10 ∷ []

bound_log_lines-Ends_example :
    Ends (bound_log_lines log 2) log × (newlines (bound_log_lines log 2) ≤ 2)
bound_log_lines-Ends_example = bound_log_lines-Ends log 2 (omega arith)

abbrev server : RegisteredServer
server = record { id = codes "s1"; name = codes "edge"; connection_type = codes "docker" }

abbrev container_id : Bytes
container_id = codes "0123456789abcdef0123456789abcdef0123456789abcdef0123456789abcdef"

abbrev stream : Stream
stream = record { bytes = some log; close_fails = false }

logs_shown :
    view_service_logs some (λ s. s) (some (some server)) container_id (ok true) (ok stream) ≡ ok log
unfolding view_service_logs get_docker_server eqb container_id_pattern all_hex view_logs read_logs
    bound_log_lines split join has_suffix
logs_shown = refl

view_service_logs-Shown_example : Shown (some (some server)) container_id log
view_service_logs-Shown_example =
    view_service_logs-Shown some (λ s. s) (some (some server)) container_id (ok true) (ok stream)
      log logs_shown
