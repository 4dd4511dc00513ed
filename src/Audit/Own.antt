-- ===== src/Audit/Own.antt =====
-- One attempt and its result: the row that `RecordAttempt` adds, and what `RecordResult` makes of it.
use gopanel.Common.{
  ℕ, ◌≡◌, ◌⊎◌, inl, inr, refl, false, Bool-cases, not, ◌&&◌, List, [], ◌∷◌, ◌++◌, Option, none,
  some, Bytes, eqb, eqb_iff, eqb_self, arith,
}
use gopanel.Common.Result.{Result, ok, err}
use gopanel.Database.Rows.{any_row}
use gopanel.Database.{Db, AuditRow}
use gopanel.Audit.{
  AuditError, insert_failed, attempt_row, insert_audit, insert_refused, attempt_with, random_id,
  result_attempted, result_success, result_failed, close_rows, affected, AttemptEnv, record_attempt,
  ResultEnv, record_result,
}

-- No row has the identifier.
abbrev pub IsFresh : Bytes → List AuditRow → Type 0
IsFresh id rows = any_row (λ (r : AuditRow). eqb r.id id) rows ≡ false

-- The row names its operation.
pub record IsFor (user_id action target_type target_id : Bytes) (row : AuditRow) : Type 0 where
  pub user : row.user_id ≡ user_id
  pub act : row.action ≡ action
  pub kind : row.target_type ≡ target_type
  pub target : row.target_id ≡ target_id

module _ (env : AttemptEnv) (user_id action target_type target_id : Bytes) (db : Db) where
  -- A call of `RecordAttempt` fails and does nothing, or it adds a new attempted row and returns it.
  pub data Attempt (r : Result AuditError AuditRow × Db) : Type 0 where
    refused : (e : AuditError) → r ≡ (err e, db) → Attempt r
    added :
        (row : AuditRow)
        → r ≡ (ok row, record db { audit_log = db.audit_log ++ row ∷ [] })
        → IsFor user_id action target_type target_id row
        → row.result ≡ result_attempted
        → IsFresh row.id db.audit_log
        → Attempt r

  attempt_with-Attempt :
      (id : Option Bytes) → Attempt (attempt_with env user_id action target_type target_id id db)
  unfolding insert_audit
  attempt_with-Attempt none = refused _ refl
  attempt_with-Attempt (some id) =
      let row : AuditRow = attempt_row env user_id action target_type target_id id in
      elim (Bool-cases (insert_refused env.insert_fails row db)) [
        | inl refusal ↦ refused insert_failed (rw refusal)
        | inr free ↦
            added row (rw free) (record { user = refl; act = refl; kind = refl; target = refl })
              refl (ground arith)
      ]

  pub record_attempt-Attempt : Attempt (record_attempt env user_id action target_type target_id db)
  unfolding record_attempt
  record_attempt-Attempt = attempt_with-Attempt (random_id env.random)

abbrev closed : AuditRow → Bytes → ℕ → AuditRow
closed row result now = record row { result = result; updated_at = now }

close_rows-append_fresh :
    (row : AuditRow) (result : Bytes) (now : ℕ) (rows : List AuditRow)
    → IsFresh row.id rows
    → row.result ≡ result_attempted
    → close_rows row.id result now (rows ++ row ∷ []) ≡ rows ++ closed row result now ∷ []
unfolding close_rows any_row eqb
close_rows-append_fresh row result now [] fresh h = rw (h, eqb_self)
close_rows-append_fresh row result now (r ∷ rows) fresh h =
    ground (arith, eqb_iff r.id row.id, close_rows-append_fresh row result now rows)

affected-append_fresh :
    (row : AuditRow) (rows : List AuditRow)
    → IsFresh row.id rows
    → row.result ≡ result_attempted
    → affected row.id (rows ++ row ∷ []) ≡ 1
unfolding affected any_row eqb
affected-append_fresh row [] fresh h = rw (h, eqb_self)
affected-append_fresh row (r ∷ rows) fresh h = ground (arith, affected-append_fresh row rows)

-- What `RecordResult` makes of a row that was just added: closed or, on some failures, still open.
pub record Finished (row : AuditRow) (result : Bytes) (db db' : Db)
    (answer : Result AuditError (Unit {0})) : Type 0 where
  pub last : AuditRow
  pub state : db' ≡ record db { audit_log = db.audit_log ++ last ∷ [] }
  pub same_id : last.id ≡ row.id
  pub same_user : last.user_id ≡ row.user_id
  pub same_action : last.action ≡ row.action
  pub same_kind : last.target_type ≡ row.target_type
  pub same_target : last.target_id ≡ row.target_id
  pub closes : answer ≡ ok tt → last.result ≡ result

pub record_result-Finished :
    (env : ResultEnv) (row : AuditRow) (result : Bytes) (db : Db)
    → (result ≡ result_success) ⊎ (result ≡ result_failed)
    → IsFresh row.id db.audit_log
    → row.result ≡ result_attempted
    → let r =
        record_result env row.id result (record db { audit_log = db.audit_log ++ row ∷ [] }) in
      Finished row result db r.1 r.0
unfolding record_result
record_result-Finished env row result db final fresh h =
    let known : not (eqb result result_success) && not (eqb result result_failed) ≡ false =
      ground (arith, eqb_iff result result_success, eqb_iff result result_failed) in
    elim (Bool-cases env.update_fails) [
      | inl fails ↦
          rw (known, fails)
            (record {
              last = row;
              state = refl;
              same_id = refl;
              same_user = refl;
              same_action = refl;
              same_kind = refl;
              same_target = refl;
              closes = λ e. cc;
            })
      | inr works ↦
          rw
            (
              known,
              works,
              close_rows-append_fresh row result env.now db.audit_log fresh h,
              affected-append_fresh row db.audit_log fresh h,
            )
            (record {
              last = closed row result env.now;
              state = ground arith;
              same_id = refl;
              same_user = refl;
              same_action = refl;
              same_kind = refl;
              same_target = refl;
              closes = λ _. refl;
            })
    ]
