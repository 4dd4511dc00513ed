-- ===== src/Diagnostic/Record.antt =====
-- internal/diagnostic/record.go: the bounded log of diagnostic records.
pub mod Bounds
pub mod History
use mathlib.Core.List.{reverse}
use gopanel.Common.{
  ℕ, ◌-◌, List, [], ◌∷◌, ◌++◌, Option, none, some, Bytes, eqb, length, take, drop, leb, ◌==◌,
  if◌then◌else◌, trim_space,
}

abbrev pub max_records : ℕ
max_records = 200

abbrev pub max_public_message_bytes : ℕ
max_public_message_bytes = 512

abbrev pub max_technical_bytes : ℕ
max_technical_bytes = 4096

pub record Input : Type 0 where
  pub event : Bytes
  pub component : Bytes
  pub public_message : Bytes
  pub technical_detail : Bytes
  pub user_id : Bytes
  pub action : Bytes
  pub target : Bytes
  pub http_status : ℕ
  pub audit_correlation_id : Bytes

-- `created_at` is in nanoseconds.
pub record Record : Type 0 where
  pub id : Bytes
  pub created_at : ℕ
  pub event : Bytes
  pub component : Bytes
  pub public_message : Bytes
  pub technical_detail : Bytes
  pub user_id : Bytes
  pub action : Bytes
  pub target : Bytes
  pub http_status : ℕ
  pub audit_correlation_id : Bytes

-- The records, oldest first. The mutex makes each method one step.
pub record Recorder : Type 0 where
  pub records : List Record

unfoldable pub new_recorder : Recorder
new_recorder = record { records = [] }

-- "…" in UTF-8
abbrev pub ellipsis : Bytes
ellipsis = 0xE2 ∷ 0x80 ∷ 0xA6 ∷ []

unfoldable pub limit_text : Bytes → ℕ → Bytes
limit_text value maximum =
    if leb (length value) maximum then value else trim_space (take maximum value) ++ ellipsis

-- The sanitizer, the reference and the time are the surroundings' part.
unfoldable pub build_record : (Bytes → Bytes) → Bytes → ℕ → Input → Record
build_record sanitize_detail new_reference now input = record {
  id = new_reference;
  created_at = now;
  event = limit_text (sanitize_detail input.event) max_public_message_bytes;
  component = limit_text (sanitize_detail input.component) max_public_message_bytes;
  public_message = limit_text (sanitize_detail input.public_message) max_public_message_bytes;
  technical_detail = limit_text (sanitize_detail input.technical_detail) max_technical_bytes;
  user_id = limit_text (sanitize_detail input.user_id) max_public_message_bytes;
  action = limit_text (sanitize_detail input.action) max_public_message_bytes;
  target = limit_text (sanitize_detail input.target) max_public_message_bytes;
  http_status = input.http_status;
  audit_correlation_id =
      limit_text (sanitize_detail input.audit_correlation_id) max_public_message_bytes;
}

-- The slice is copied one place down, and its last place is overwritten.
unfoldable pub append_record : Recorder → Record → Recorder
append_record r new =
    if length r.records == max_records
    then record { records = take (length r.records - 1) (drop 1 r.records) ++ new ∷ [] }
    else record { records = r.records ++ new ∷ [] }

-- The loop of `Lookup` over the records that it has yet to see.
unfoldable pub find_record : Bytes → List Record → Option Record
find_record reference [] = none
find_record reference (x ∷ xs) = if eqb x.id reference then some x else find_record reference xs

-- The loop runs from the newest record to the oldest.
unfoldable pub lookup : Recorder → Bytes → Option Record
unfolding find_record
lookup r reference = find_record reference (reverse r.records)

unfoldable pub snapshot : Recorder → List Record
snapshot r = r.records

module _ (sanitize_detail : Bytes → Bytes) where
  -- The new recorder, and the record that the caller gets.
  unfoldable pub record_input : Recorder → Bytes → ℕ → Input → Recorder × Record
  record_input r new_reference now input =
      let new = build_record sanitize_detail new_reference now input in (append_record r new, new)
