-- ===== src/Diagnostic/Record/Bounds.antt =====
-- The log's memory is bounded: the number of records, and the length of each text in them.
use native.Mathlib.Decide.{ℕ_discrete}
use gopanel.Diagnostic.Record.History.{append_record_full, append_record_room}
use gopanel.Common.{
  ℕ, ◌+◌, ◌≤◌, [], ◌∷◌, Bytes, arith, length, length-append, length-drop, length-take-le, take,
  drop, All, All-append, All-drop, trim_space, trim_space-le,
}
use gopanel.Diagnostic.Record.{
  Record, Recorder, Input, max_records, max_public_message_bytes, max_technical_bytes,
  append_record, limit_text, build_record, record_input, ellipsis,
}

pub limit_text-le : (value : Bytes) (maximum : ℕ) → length (limit_text value maximum) ≤ maximum + 3
unfolding limit_text
limit_text-le value maximum = ground (
  arith,
  length-append (trim_space (take maximum value)) ellipsis,
  trim_space-le (take maximum value),
  length-take-le maximum value,
)

pub record IsBounded (x : Record) : Type 0 where
  pub event : length x.event ≤ max_public_message_bytes + 3
  pub component : length x.component ≤ max_public_message_bytes + 3
  pub public_message : length x.public_message ≤ max_public_message_bytes + 3
  pub technical_detail : length x.technical_detail ≤ max_technical_bytes + 3
  pub user_id : length x.user_id ≤ max_public_message_bytes + 3
  pub action : length x.action ≤ max_public_message_bytes + 3
  pub target : length x.target ≤ max_public_message_bytes + 3
  pub audit_correlation_id : length x.audit_correlation_id ≤ max_public_message_bytes + 3

pub record IsSmall (r : Recorder) : Type 0 where
  pub count : length r.records ≤ max_records
  pub texts : All IsBounded r.records

build_record-IsBounded :
    (sanitize_detail : Bytes → Bytes) (reference : Bytes) (now : ℕ) (input : Input)
    → IsBounded (build_record sanitize_detail reference now input)
unfolding build_record
build_record-IsBounded sanitize_detail reference now input = record {
  event = limit_text-le (sanitize_detail input.event) max_public_message_bytes;
  component = limit_text-le (sanitize_detail input.component) max_public_message_bytes;
  public_message = limit_text-le (sanitize_detail input.public_message) max_public_message_bytes;
  technical_detail = limit_text-le (sanitize_detail input.technical_detail) max_technical_bytes;
  user_id = limit_text-le (sanitize_detail input.user_id) max_public_message_bytes;
  action = limit_text-le (sanitize_detail input.action) max_public_message_bytes;
  target = limit_text-le (sanitize_detail input.target) max_public_message_bytes;
  audit_correlation_id =
      limit_text-le (sanitize_detail input.audit_correlation_id) max_public_message_bytes;
}

append_record-IsSmall :
    (r : Recorder) (x : Record) → IsSmall r → IsBounded x → IsSmall (append_record r x)
append_record-IsSmall r x h b = elim (ℕ_discrete (length r.records) max_records) [
  | yes full ↦ record {
    count =
        rw (append_record_full r x full)
          (omega (arith, length-append (drop 1 r.records) (x ∷ []), length-drop 1 r.records));
    texts = rw (append_record_full r x full) (
        All-append IsBounded (drop 1 r.records) (x ∷ []) (All-drop IsBounded 1 r.records h.texts)
          (b, tt));
  }
  | no room ↦ record {
    count =
        rw (append_record_room r x room) (omega (arith, h.count, length-append r.records (x ∷ [])));
    texts =
        rw (append_record_room r x room) (All-append IsBounded r.records (x ∷ []) h.texts (b, tt));
  }
]

-- Recording keeps the log within 200 records, each text within its limit and three bytes of "…".
pub record_input-IsSmall :
    (sanitize_detail : Bytes → Bytes) (r : Recorder) (reference : Bytes) (now : ℕ) (input : Input)
    → IsSmall r
    → IsSmall (record_input sanitize_detail r reference now input).0
unfolding record_input
record_input-IsSmall sanitize_detail r reference now input h =
    append_record-IsSmall r _ h (build_record-IsBounded sanitize_detail reference now input)
