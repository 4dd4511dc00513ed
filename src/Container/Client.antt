-- ===== src/Container/Client.antt =====
-- internal/container/client.go. The Docker engine's replies are arguments: what errors.Is says of an
-- error, and the bytes of a stream. `demultiplex` is stdcopy.StdCopy, and `to_valid_utf8` is
-- strings.ToValidUTF8.
pub mod Lines
use gopanel.Common.{
  ℕ, ◌-◌, ◌*◌, ◌+◌, Bool, true, false, ◌||◌, List, [], ◌∷◌, ◌++◌, Option, none, some, Bytes, codes,
  length, take, drop, ltb, ◌==◌, map, if◌then◌else◌, has_suffix,
}
use gopanel.Common.Split.{split, join}
use gopanel.Common.Result.{Result, ok, err}

abbrev pub log_tail_lines : ℕ
log_tail_lines = 100

abbrev pub max_log_bytes : ℕ
max_log_bytes = 1024 * 1024

pub data FailureKind : Type 0 where
  timed_out permission missing unavailable protocol : FailureKind

-- What the tests of `classifyClientFailure` say of an error.
pub record EngineError : Type 0 where
  pub deadline_exceeded : Bool
  pub permission_denied : Bool
  pub not_found : Bool
  pub unreachable : Bool

unfoldable pub classify_client_failure : EngineError → FailureKind
classify_client_failure e =
    if e.deadline_exceeded
    then timed_out
    else if e.permission_denied
    then permission
    else if e.not_found
    then missing
    else if e.unreachable
    then unavailable
    else protocol

pub data LogFailure : Type 0 where
  failed : FailureKind → LogFailure
  too_large : LogFailure

-- "\n"
abbrev pub newline : Bytes
newline = 10 ∷ []

abbrev pub log_lines : Bool → List Bytes → List Bytes
log_lines ends_with_newline lines =
    if ends_with_newline then take (length lines - 1) lines else lines

unfoldable pub bound_log_lines : Bytes → ℕ → Bytes
bound_log_lines bytes maximum =
    let ends_with_newline = has_suffix bytes newline in
    let lines = log_lines ends_with_newline (split 10 bytes) in
    let kept = if ltb maximum (length lines) then drop (length lines - maximum) lines else lines in
    if ends_with_newline then join 10 kept ++ newline else join 10 kept

-- The stream: all its bytes, `none` if a read fails before the limit.
pub record Stream : Type 0 where
  pub bytes : Option Bytes
  pub close_fails : Bool

module _ (demultiplex : Bytes → Option Bytes) (to_valid_utf8 : Bytes → Bytes) where
  abbrev pub log_text : Option Bytes → Result LogFailure Bytes
  log_text none = err (failed protocol)
  log_text (some output) = ok (bound_log_lines (to_valid_utf8 output) log_tail_lines)

  abbrev pub logs_of : Bool → Bool → Option Bytes → Result LogFailure Bytes
  logs_of close_fails tty none = err (failed protocol)
  logs_of close_fails tty (some all) =
      let bytes = take (max_log_bytes + 1) all in
      if close_fails
      then err (failed protocol)
      else if ltb max_log_bytes (length bytes)
      then err too_large
      else if tty
      then log_text (some bytes)
      else log_text (demultiplex bytes)

  unfoldable pub read_logs : Stream → Bool → Result LogFailure Bytes
  read_logs stream tty = logs_of stream.close_fails tty stream.bytes

pub record Container : Type 0 where
  pub id : Bytes
  pub name : Bytes
  pub image : Bytes
  pub state : Bytes
  pub status : Bytes

-- containertypes.Summary, the fields that the code reads.
pub record Summary : Type 0 where
  pub id : Bytes
  pub names : List Bytes
  pub image : Bytes
  pub state : Bytes
  pub status : Bytes

-- strings.TrimPrefix by "/"
abbrev without_slash : Bytes → Bytes
without_slash [] = []
without_slash (c ∷ s) = if c == b'/' then s else c ∷ s

abbrev container_name : Bytes → List Bytes → Bytes
container_name id [] = id
container_name id (name ∷ names) = without_slash name

unfoldable pub prepare_container : Summary → Container
prepare_container item = record {
  id = item.id;
  name = container_name item.id item.names;
  image = item.image;
  state = item.state;
  status = item.status;
}

-- The reply of the engine to a call, `some` is its error.
unfoldable pub ping : Option EngineError → Result FailureKind (Unit {0})
ping none = ok tt
ping (some e) = err (classify_client_failure e)

unfoldable pub list_containers :
    Result EngineError (List Summary) → Result FailureKind (List Container)
list_containers (ok items) = ok (map prepare_container items)
list_containers (err e) = err (classify_client_failure e)

module _ (demultiplex : Bytes → Option Bytes) (to_valid_utf8 : Bytes → Bytes) where
  abbrev pub stream_logs : Bool → Result EngineError Stream → Result LogFailure Bytes
  stream_logs tty (ok stream) = read_logs demultiplex to_valid_utf8 stream tty
  stream_logs tty (err e) = err (failed (classify_client_failure e))

  -- The inspection says whether the container has a terminal.
  unfoldable pub view_logs :
      Result EngineError Bool → Result EngineError Stream → Result LogFailure Bytes
  view_logs (ok tty) stream = stream_logs tty stream
  view_logs (err e) stream = err (failed (classify_client_failure e))
