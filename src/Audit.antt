-- ===== src/Audit.antt =====
-- internal/audit/audit.go. The random bytes, the clock and the failures of statements are arguments.
mod Examples
pub mod Calls
pub mod States
pub mod Own
use gopanel.Common.{
  ℕ, suc, Bool, true, false, not, ◌&&◌, ◌||◌, List, [], ◌∷◌, ◌++◌, Option, none, some, Bytes, codes,
  eqb, ◌==◌, if◌then◌else◌,
}
use gopanel.Common.Split.{hex_encode}
use gopanel.Common.Result.{Result, ok, err}
use gopanel.Database.Rows.{any_row}
use gopanel.Database.{Db, UserRow, AuditRow}

abbrev pub result_attempted : Bytes
result_attempted = codes "attempted"

abbrev pub result_success : Bytes
result_success = codes "success"

abbrev pub result_failed : Bytes
result_failed = codes "failed"

pub data AuditError : Type 0 where
  random_failed insert_failed invalid_result update_failed rows_failed not_attempted : AuditError

-- `randomID`, from the bytes that rand.Read gives; `none` if it fails.
unfoldable pub random_id : Option Bytes → Option Bytes
random_id none = none
random_id (some value) = some (hex_encode value)

-- The key is taken, or the user does not exist.
abbrev insert_refused : Bool → AuditRow → Db → Bool
insert_refused fails row db =
    fails
    || any_row (λ (r : AuditRow). eqb r.id row.id) db.audit_log
    || not (any_row (λ (u : UserRow). eqb u.id row.user_id) db.users)

-- INSERT INTO audit_log
unfoldable pub insert_audit : Bool → AuditRow → Db → Result AuditError (Unit {0}) × Db
insert_audit fails row db =
    if insert_refused fails row db
    then (err insert_failed, db)
    else (ok tt, record db { audit_log = db.audit_log ++ row ∷ [] })

-- What the surroundings decide in a call of `RecordAttempt`.
pub record AttemptEnv : Type 0 where
  pub random : Option Bytes
  pub now : ℕ
  pub insert_fails : Bool

abbrev attempt_reply :
    AuditRow → Result AuditError (Unit {0}) × Db → Result AuditError AuditRow × Db
attempt_reply row (ok _, db) = (ok row, db)
attempt_reply row (err e, db) = (err e, db)

abbrev attempt_row : AttemptEnv → (user_id action target_type target_id id : Bytes) → AuditRow
attempt_row env user_id action target_type target_id id = record {
  id = id;
  user_id = user_id;
  action = action;
  target_type = target_type;
  target_id = target_id;
  result = result_attempted;
  created_at = env.now;
  updated_at = env.now;
}

-- `RecordAttempt` behind the new identifier.
abbrev attempt_with :
    AttemptEnv
    → (user_id action target_type target_id : Bytes) → Option Bytes
    → Db
    → Result AuditError AuditRow × Db
attempt_with env user_id action target_type target_id none db = (err random_failed, db)
attempt_with env user_id action target_type target_id (some id) db =
    let row = attempt_row env user_id action target_type target_id id in
    attempt_reply row (insert_audit env.insert_fails row db)

unfoldable pub record_attempt :
    AttemptEnv
    → (user_id action target_type target_id : Bytes) → Db
    → Result AuditError AuditRow × Db
unfolding insert_audit random_id
record_attempt env user_id action target_type target_id db =
    attempt_with env user_id action target_type target_id (random_id env.random) db

-- WHERE id=? AND result='attempted'
unfoldable pub is_open : Bytes → AuditRow → Bool
is_open id row = eqb row.id id && eqb row.result result_attempted

-- UPDATE audit_log SET result=?, updated_at=?
unfoldable pub close_rows : Bytes → Bytes → ℕ → List AuditRow → List AuditRow
unfolding is_open
close_rows id result now [] = []
close_rows id result now (row ∷ rows) =
    (if is_open id row then record row { result = result; updated_at = now } else row)
    ∷ close_rows id result now rows

-- The rows that the update affects.
unfoldable pub affected : Bytes → List AuditRow → ℕ
unfolding is_open
affected id [] = 0
affected id (row ∷ rows) = let n = affected id rows in if is_open id row then suc n else n

-- What the surroundings decide in a call of `RecordResult`: the update may fail, and so may the
-- reading of its count, when the update is done.
pub record ResultEnv : Type 0 where
  pub now : ℕ
  pub update_fails : Bool
  pub rows_fail : Bool

unfoldable pub record_result : ResultEnv → Bytes → Bytes → Db → Result AuditError (Unit {0}) × Db
unfolding close_rows affected
record_result env audit_id result db =
    if not (eqb result result_success) && not (eqb result result_failed)
    then (err invalid_result, db)
    else if env.update_fails
    then (err update_failed, db)
    else let db' = record db { audit_log = close_rows audit_id result env.now db.audit_log } in
      if env.rows_fail
      then (err rows_failed, db')
      else if affected audit_id db.audit_log == 0
      then (err not_attempted, db')
      else (ok tt, db')
