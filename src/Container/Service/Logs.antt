-- ===== src/Container/Service/Logs.antt =====
-- When logs are shown, and how much of them.
use gopanel.Common.{
  ◌≤◌, ◌≡◌, inl, inr, refl, Bool, true, false, not, Bool-cases, [], ◌∷◌, Option, none, some, Bytes,
  eqb_iff, length, arith, All, if◌then◌else◌, ltb, take, ◌+◌,
}
use gopanel.Common.Result.{Result, ok, err, ◌>>=◌}
use gopanel.Container.Client
use gopanel.Container.Client.{
  EngineError, Stream, LogFailure, failed, log_tail_lines, max_log_bytes, read_logs, log_text,
  logs_of, bound_log_lines,
}
use gopanel.Container.Client.Lines.{newlines, bound_log_lines-Ends}
use gopanel.Container.Service.{
  RegisteredServer, Lookup, ServiceError, docker_connection_type, get_docker_server, is_hex,
  all_hex, container_id_pattern, logs_reply, view_service_logs,
}

all_hex-All : (s : Bytes) → all_hex s ≡ true → All (λ c. is_hex c ≡ true) s
unfolding all_hex
all_hex-All [] h = tt
all_hex-All (c ∷ s) h = (ground arith, all_hex-All s (ground arith))

-- What stands behind logs that are shown.
pub record Shown (found : Lookup) (container_id logs : Bytes) : Type 0 where
  pub server : RegisteredServer
  pub registered : found ≡ some (some server)
  pub is_docker : server.connection_type ≡ docker_connection_type
  pub id_length : length container_id ≡ 64
  pub id_hex : All (λ c. is_hex c ≡ true) container_id
  pub few_lines : newlines logs ≤ log_tail_lines

module _ (demultiplex : Bytes → Option Bytes) (to_valid_utf8 : Bytes → Bytes) where
  log_text-le :
      (o : Option Bytes) (logs : Bytes)
      → log_text demultiplex to_valid_utf8 o ≡ ok logs
      → newlines logs ≤ log_tail_lines
  log_text-le none logs h = cc
  log_text-le (some output) logs h =
      let same : bound_log_lines (to_valid_utf8 output) log_tail_lines ≡ logs = ground arith in
      rw (← same) (bound_log_lines-Ends (to_valid_utf8 output) log_tail_lines (omega arith)).1

  logs_of-le :
      (close_fails tty : Bool) (o : Option Bytes) (logs : Bytes)
      → logs_of demultiplex to_valid_utf8 close_fails tty o ≡ ok logs
      → newlines logs ≤ log_tail_lines
  logs_of-le close_fails tty none logs h = cc
  logs_of-le true tty (some all) logs h = cc
  logs_of-le false tty (some all) logs h =
      let bytes = take (max_log_bytes + 1) all in
      elim (Bool-cases (ltb max_log_bytes (length bytes))) [
        | inl more ↦ absurd (ground (arith, h, more))
        | inr fits ↦ elim (Bool-cases tty) [
          | inl terminal ↦ log_text-le (some bytes) logs (rw (fits, terminal) at h)
          | inr plain ↦ log_text-le (demultiplex bytes) logs (rw (fits, plain) at h)
        ]
      ]

  view_logs-le :
      (inspection : Result EngineError Bool) (stream : Result EngineError Stream) (logs : Bytes)
      → Client.view_logs demultiplex to_valid_utf8 inspection stream ≡ ok logs
      → newlines logs ≤ log_tail_lines
  unfolding Client.view_logs read_logs
  view_logs-le (ok tty) (ok stream) logs h = logs_of-le stream.close_fails tty stream.bytes logs h
  view_logs-le (ok tty) (err e) logs h = cc
  view_logs-le (err e) stream logs h = cc

  logs_reply-ok :
      (r : Result LogFailure Bytes) (logs : Bytes) → logs_reply r ≡ ok logs → r ≡ ok logs
  logs_reply-ok r logs h = ground arith

  registered_docker :
      (found : Lookup) (container_id : Bytes) (r : Result LogFailure Bytes) (logs : Bytes)
      → (get_docker_server found >>= λ _.
          if not (container_id_pattern container_id)
          then err ServiceError.invalid_container_id
          else logs_reply r)
        ≡ ok logs
      → (newlines logs ≤ log_tail_lines)
      → Shown found container_id logs
  unfolding get_docker_server container_id_pattern
  registered_docker none container_id r logs h few = cc
  registered_docker (some none) container_id r logs h few = cc
  registered_docker (some (some server)) container_id r logs h few = record {
    server = server;
    registered = refl;
    is_docker = ground (arith, h, eqb_iff server.connection_type docker_connection_type);
    id_length = ground (arith, h);
    id_hex = all_hex-All container_id (ground (arith, h));
    few_lines = few;
  }

  client_logs :
      (server : Result ServiceError RegisteredServer) (valid : Bool) (r : Result LogFailure Bytes)
      (logs : Bytes)
      → (server >>= λ _. if not valid then err ServiceError.invalid_container_id else logs_reply r)
        ≡ ok logs
      → r ≡ ok logs
  client_logs (err e) valid r logs h = cc
  client_logs (ok server) true r logs h = logs_reply-ok r logs h
  client_logs (ok server) false r logs h = cc

  -- Logs are shown only of a container that is named by 64 hexadecimal digits, on a server that is
  -- registered for Docker, and with at most 100 newlines.
  pub view_service_logs-Shown :
      (found : Lookup) (container_id : Bytes) (inspection : Result EngineError Bool)
      (stream : Result EngineError Stream) (logs : Bytes)
      → view_service_logs demultiplex to_valid_utf8 found container_id inspection stream ≡ ok logs
      → Shown found container_id logs
  unfolding view_service_logs
  view_service_logs-Shown found container_id inspection stream logs h =
      let r = Client.view_logs demultiplex to_valid_utf8 inspection stream in
      registered_docker found container_id r logs h (
        view_logs-le inspection stream logs
          (client_logs (get_docker_server found) (container_id_pattern container_id) r logs h))
