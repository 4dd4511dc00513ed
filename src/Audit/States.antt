-- ===== src/Audit/States.antt =====
-- The states of an audit row in internal/audit/audit.go: attempted, then success or failed.
use gopanel.Common.{
  ℕ, ◌≡◌, ◌≢◌, ◌⊎◌, inl, inr, refl, true, false, Bool-cases, not, ◌&&◌, List, [], ◌∷◌, Bytes, eqb,
  eqb_iff, ◌==◌, arith,
}
use gopanel.Common.Result.{Result, ok, err}
use gopanel.Database.{Db, AuditRow}
use gopanel.Audit.{
  AuditError, invalid_result, update_failed, rows_failed, not_attempted, result_attempted,
  result_success, result_failed, is_open, close_rows, affected, ResultEnv, record_result,
}

abbrev pub IsFinal : Bytes → Type 0
IsFinal result = (result ≡ result_success) ⊎ (result ≡ result_failed)

abbrev pub closed_row : AuditRow → Bytes → ℕ → AuditRow
closed_row row result now = record row { result = result; updated_at = now }

-- A row is closed if it has the identifier and is attempted; any other row stays.
pub data Becomes (id result : Bytes) (now : ℕ) (row next : AuditRow) : Type 0 where
  closes :
      row.id ≡ id
      → row.result ≡ result_attempted
      → next ≡ closed_row row result now
      → Becomes id result now row next
  other : row.id ≢ id → next ≡ row → Becomes id result now row next
  done_before : row.result ≢ result_attempted → next ≡ row → Becomes id result now row next

-- The rows become the next ones, one by one.
abbrev pub Each : (AuditRow → AuditRow → Type 0) → List AuditRow → List AuditRow → Type 0
Each P [] [] = Unit
Each P [] (_ ∷ _) = ⊥
Each P (_ ∷ _) [] = ⊥
Each P (row ∷ rows) (next ∷ nexts) = P row next × Each P rows nexts

-- Some row has the identifier and is attempted.
abbrev pub HasOpen : Bytes → List AuditRow → Type 0
HasOpen id [] = ⊥
HasOpen id (row ∷ rows) = ((row.id ≡ id) × (row.result ≡ result_attempted)) ⊎ HasOpen id rows

-- No row has the identifier and is attempted.
abbrev pub NoneOpen : Bytes → List AuditRow → Type 0
NoneOpen id [] = Unit
NoneOpen id (row ∷ rows) = ((row.id ≢ id) ⊎ (row.result ≢ result_attempted)) × NoneOpen id rows

module _ (id : Bytes) where
  Open-cases :
      (row : AuditRow)
      → ((is_open id row ≡ true) × (row.id ≡ id) × (row.result ≡ result_attempted))
        ⊎ ((is_open id row ≡ false) × ((row.id ≢ id) ⊎ (row.result ≢ result_attempted)))
  unfolding is_open
  Open-cases row = elim (Bool-cases (eqb row.id id)) [
    | inr differs ↦ inr (
      ground (arith, differs),
      inl (λ q. absurd (ground (arith, differs, (eqb_iff row.id id).1 q))),
    )
    | inl same ↦ elim (Bool-cases (eqb row.result result_attempted)) [
      | inl attempted ↦ inl (
        ground (arith, same, attempted),
        (eqb_iff row.id id).0 same,
        (eqb_iff row.result result_attempted).0 attempted,
      )
      | inr closed ↦ inr (
        ground (arith, same, closed),
        inr (λ q. absurd (ground (arith, closed, (eqb_iff row.result result_attempted).1 q))),
      )
    ]
  ]

  close_rows-Each :
      (result : Bytes) (now : ℕ) (rows : List AuditRow)
      → Each (Becomes id result now) rows (close_rows id result now rows)
  unfolding close_rows
  close_rows-Each result now [] = tt
  close_rows-Each result now (row ∷ rows) =
      let rest = close_rows-Each result now rows in
      elim (Open-cases row) [
        | inl (is, same, attempted) ↦ (closes same attempted (rw is refl), rest)
        | inr (not_open, inl differs) ↦ (other differs (rw not_open refl), rest)
        | inr (not_open, inr closed) ↦ (done_before closed (rw not_open refl), rest)
      ]

  affected-cases :
      (rows : List AuditRow)
      → ((affected id rows == 0 ≡ false) × HasOpen id rows)
        ⊎ ((affected id rows == 0 ≡ true) × NoneOpen id rows)
  unfolding affected
  affected-cases [] = inr (refl, tt)
  affected-cases (row ∷ rows) = elim (Open-cases row) [
    | inl (is, same, attempted) ↦ inl (ground (arith, is), inl (same, attempted))
    | inr (not_open, why) ↦ elim (affected-cases rows) [
      | inl (some_open, found) ↦ inl (rw not_open some_open, inr found)
      | inr (none_open, rest) ↦ inr (rw not_open none_open, (why, rest))
    ]
  ]

  close_rows-none :
      (result : Bytes) (now : ℕ) (rows : List AuditRow)
      → affected id rows == 0 ≡ true
      → close_rows id result now rows ≡ rows
  unfolding affected close_rows
  close_rows-none result now [] h = refl
  close_rows-none result now (row ∷ rows) h = elim (Open-cases row) [
    | inl (is, same, attempted) ↦ absurd (ground (arith, is, h))
    | inr (not_open, why) ↦ ground (arith, not_open, h, close_rows-none result now rows)
  ]

-- What a call of `RecordResult` is: the result is not a final one, the update fails, the rows are
-- updated, with or without their count, or there is no row to update.
pub data Closing (env : ResultEnv) (id result : Bytes) (db : Db)
    (r : Result AuditError (Unit {0}) × Db) : Type 0 where
  invalid :
      result ≢ result_success
      → result ≢ result_failed
      → r ≡ (err invalid_result, db)
      → Closing env id result db r
  unavailable :
      IsFinal result
      → env.update_fails ≡ true
      → r ≡ (err update_failed, db)
      → Closing env id result db r
  uncounted :
      (rows : List AuditRow)
      → IsFinal result
      → env.rows_fail ≡ true
      → Each (Becomes id result env.now) db.audit_log rows
      → r ≡ (err rows_failed, record db { audit_log = rows })
      → Closing env id result db r
  updated :
      (rows : List AuditRow)
      → IsFinal result
      → HasOpen id db.audit_log
      → Each (Becomes id result env.now) db.audit_log rows
      → r ≡ (ok tt, record db { audit_log = rows })
      → Closing env id result db r
  nothing_open :
      IsFinal result
      → NoneOpen id db.audit_log
      → r ≡ (err not_attempted, db)
      → Closing env id result db r

-- `RecordResult` closes exactly the attempted rows under the identifier and keeps every other row and
-- table as it is, if the result is final and the update works. It succeeds only if there is such a
-- row, reports that there is none only if there is none, and where it fails in any other way than by
-- the count of the rows, nothing changes.
pub record_result-Closing :
    (env : ResultEnv) (id result : Bytes) (db : Db)
    → Closing env id result db (record_result env id result db)
unfolding record_result
record_result-Closing env id result db =
    let success = eqb_iff result result_success in
    let failed = eqb_iff result result_failed in
    elim (Bool-cases (not (eqb result result_success) && not (eqb result result_failed))) [
      | inl refused ↦
          invalid (λ q. absurd (ground (arith, refused, success.1 q)))
            (λ q. absurd (ground (arith, refused, failed.1 q))) (rw refused refl)
      | inr known ↦
          let final : IsFinal result = ground (arith, success, failed, known) in
          let changed = close_rows-Each id result env.now db.audit_log in
          elim (Bool-cases env.update_fails) [
            | inl fails ↦ unavailable final fails (rw (known, fails) refl)
            | inr works ↦ elim (Bool-cases env.rows_fail) [
              | inl lost ↦ uncounted _ final lost changed (rw (known, works, lost) refl)
              | inr counted ↦ elim (affected-cases id db.audit_log) [
                | inl (some_open, found) ↦
                    updated _ final found changed (rw (known, works, counted, some_open) refl)
                | inr (none_open, missing) ↦
                    let same = close_rows-none id result env.now db.audit_log none_open in
                    nothing_open final missing (rw (known, works, counted, none_open, same) refl)
              ]
            ]
          ]
    ]
