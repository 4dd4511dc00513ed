-- ===== src/Diagnostic/Examples.antt =====
-- The theorems on the log of diagnostics at concrete inputs.
use gopanel.Diagnostic.Redact.{Json, object, field, text, Fields, redact_json_value}
use gopanel.Diagnostic.Redact.Clean.{IsClean, redact_json_value-IsClean}
use gopanel.Common.{arith, [], ◌∷◌, ◌≡◌, some, codes, trim_space}
use gopanel.Diagnostic.Record.{Record, Input, new_recorder, build_record, record_input, lookup}
use gopanel.Diagnostic.Record.History.{
  append_all, newest, append_all-eq-newest, lookup-record_input,
}
use gopanel.Diagnostic.Record.Bounds.{IsSmall, record_input-IsSmall}

abbrev input : Input
input = record {
  event = codes "check_docker_status";
  component = codes "docker";
  public_message = codes "Docker status could not be checked.";
  technical_detail = codes "connection refused";
  user_id = [];
  action = codes "check_docker_status";
  target = codes "5e";
  http_status = 503;
  audit_correlation_id = [];
}

abbrev first : Record
first = build_record trim_space (codes "d1") 5 input

append_all-eq-newest_example :
    (append_all new_recorder (first ∷ first ∷ [])).records ≡ newest (first ∷ first ∷ [])
append_all-eq-newest_example = append_all-eq-newest (first ∷ first ∷ [])

lookup-record_input_example :
    lookup
      (record_input trim_space (record { records = first ∷ [] }) (codes "d2") 6 input).0
      (codes "d2")
    ≡ some (record_input trim_space (record { records = first ∷ [] }) (codes "d2") 6 input).1
lookup-record_input_example =
    lookup-record_input trim_space (record { records = first ∷ [] }) (codes "d2") 6 input

empty-IsSmall : IsSmall new_recorder
unfolding new_recorder
empty-IsSmall = record { count = omega arith; texts = tt }

record_input-IsSmall_example : IsSmall (record_input trim_space new_recorder (codes "d2") 6 input).0
record_input-IsSmall_example =
    record_input-IsSmall trim_space new_recorder (codes "d2") 6 input empty-IsSmall

-- {"user": "alice", "api-key": "k1"}
abbrev detail : Json
detail = object (
    field (codes "user") (text (codes "alice"))
      (field (codes "api-key") (text (codes "k1")) Fields.end))

redact_json_value-IsClean_example : IsClean (λ s. s) (redact_json_value (λ s. s) detail)
redact_json_value-IsClean_example = redact_json_value-IsClean (λ s. s) detail
