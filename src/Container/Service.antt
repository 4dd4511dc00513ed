-- ===== src/Container/Service.antt =====
-- internal/container/service.go, over the lookups of registered servers and the Docker client.
pub mod Logs
use gopanel.Common.{
  ℕ, Bool, true, false, not, ◌&&◌, ◌||◌, List, [], ◌∷◌, Option, none, some, Bytes, codes, eqb,
  length, leb, ◌==◌, if◌then◌else◌,
}
use gopanel.Common.Result.{Result, ok, err, ◌>>=◌}
use gopanel.Container.Client.{
  Container, FailureKind, missing, LogFailure, failed, too_large, EngineError, Stream, Summary,
  ping, list_containers,
}
use gopanel.Container.Client

pub record RegisteredServer : Type 0 where
  pub id : Bytes
  pub name : Bytes
  pub connection_type : Bytes

-- The causes of a backend error: the registry of servers, or the client.
pub data Cause : Type 0 where
  registry : Cause
  client : FailureKind → Cause
  log_too_large : Cause

pub data ServiceError : Type 0 where
  server_not_found not_docker_server container_not_found invalid_container_id : ServiceError
  backend : (operation : Bytes) (cause : Cause) → ServiceError

-- What the registry says of an identifier: `none` is a failure, and within it no server.
abbrev pub Lookup : Type 0
Lookup = Option (Option RegisteredServer)

abbrev pub docker_connection_type : Bytes
docker_connection_type = codes "docker"

unfoldable pub get_docker_server : Lookup → Result ServiceError RegisteredServer
get_docker_server none = err (backend (codes "load registered server") registry)
get_docker_server (some none) = err server_not_found
get_docker_server (some (some registered)) =
    if not (eqb registered.connection_type docker_connection_type)
    then err not_docker_server
    else ok registered

abbrev mapped : {A : Type 0} → Bytes → Result FailureKind A → Result ServiceError A
mapped operation (ok a) = ok a
mapped operation (err kind) = err (backend operation (client kind))

unfoldable pub test_connection : Lookup → Option EngineError → Result ServiceError (Unit {0})
test_connection found reply =
    get_docker_server found >>= λ _. mapped (codes "test connection") (ping reply)

unfoldable pub list_service_containers :
    Lookup → Result EngineError (List Summary) → Result ServiceError (List Container)
list_service_containers found reply =
    get_docker_server found >>= λ _. mapped (codes "list containers") (list_containers reply)

unfoldable pub check_status : Lookup → Option EngineError → Result ServiceError (Unit {0})
unfolding test_connection
check_status found reply = test_connection found reply

-- [a-f0-9]
abbrev pub is_hex : ℕ → Bool
is_hex c = leb b'a' c && leb c b'f' || leb b'0' c && leb c b'9'

unfoldable pub all_hex : Bytes → Bool
all_hex [] = true
all_hex (c ∷ s) = is_hex c && all_hex s

-- ^[a-f0-9]{64}$
unfoldable pub container_id_pattern : Bytes → Bool
container_id_pattern s = length s == 64 && all_hex s

abbrev logs_reply : Result LogFailure Bytes → Result ServiceError Bytes
logs_reply (ok logs) = ok logs
logs_reply (err (failed missing)) = err container_not_found
logs_reply (err (failed kind)) = err (backend (codes "view container logs") (client kind))
logs_reply (err too_large) = err (backend (codes "view container logs") log_too_large)

module _ (demultiplex : Bytes → Option Bytes) (to_valid_utf8 : Bytes → Bytes) where
  unfoldable pub view_service_logs :
      Lookup
      → (container_id : Bytes) → Result EngineError Bool
      → Result EngineError Stream
      → Result ServiceError Bytes
  view_service_logs found container_id inspection stream = get_docker_server found >>= λ _.
      if not (container_id_pattern container_id)
      then err invalid_container_id
      else logs_reply (Client.view_logs demultiplex to_valid_utf8 inspection stream)

unfoldable pub docker_ids : List RegisteredServer → List Bytes
docker_ids [] = []
docker_ids (registered ∷ servers) =
    let rest = docker_ids servers in
    if eqb registered.connection_type docker_connection_type then registered.id ∷ rest else rest

-- `none` is a failure of the registry.
unfoldable pub list_docker_server_ids :
    Option (List RegisteredServer) → Result ServiceError (List Bytes)
list_docker_server_ids none = err (backend (codes "list registered servers") registry)
list_docker_server_ids (some servers) = ok (docker_ids servers)
