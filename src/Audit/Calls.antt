-- ===== src/Audit/Calls.antt =====
-- Calls of both operations of internal/audit/audit.go, one after the other.
use gopanel.Common.{
  ℕ, ◌+◌, ◌≡◌, ◌≢◌, inl, inr, refl, sym, ap, ◌∙◌, List, [], ◌∷◌, ◌++◌, All, Bytes, eqb_iff, arith,
  length,
}
use gopanel.Common.Result.{Result, ok, err}
use gopanel.Database.{Db, AuditRow}
use gopanel.Database.Rows.{any_row}
use gopanel.Audit.{
  AuditError, result_attempted, AttemptEnv, record_attempt, ResultEnv, record_result,
}
use gopanel.Audit.Own.{IsFresh, Attempt, record_attempt-Attempt}
use gopanel.Audit.States.{
  IsFinal, closed_row, Becomes, closes, other, done_before, Each, Closing, record_result-Closing,
}

pub data Call : Type 0 where
  attempt : AttemptEnv → (user_id action target_type target_id : Bytes) → Call
  finish : ResultEnv → (audit_id result : Bytes) → Call

abbrev attempt_answer : Result AuditError AuditRow × Db → ℕ × Db
attempt_answer (ok row, db) = (1, db)
attempt_answer (err e, db) = (0, db)

-- A call, and whether it is an attempt that is granted.
abbrev pub call : Call → Db → ℕ × Db
call (attempt env user_id action target_type target_id) db =
    attempt_answer (record_attempt env user_id action target_type target_id db)
call (finish env audit_id result) db = (0, (record_result env audit_id result db).1)

-- The number of attempts that are granted, and the tables behind the calls.
abbrev pub run_calls : List Call → Db → ℕ × Db
run_calls [] db = (0, db)
run_calls (c ∷ calls) db =
    let (granted, db') = call c db in
    let (more, last) = run_calls calls db' in (granted + more, last)

-- A row stays as it is, or goes from attempted to a final result, with nothing else changed but the
-- time of its update.
pub data Moves (row next : AuditRow) : Type 0 where
  stays : next ≡ row → Moves row next
  ends :
      (now : ℕ) (result : Bytes)
      → row.result ≡ result_attempted
      → IsFinal result
      → next ≡ closed_row row result now
      → Moves row next

-- The rows, one by one, and so many new ones behind them.
abbrev pub Grows : ℕ → List AuditRow → List AuditRow → Type 0
Grows count [] nexts = length nexts ≡ count
Grows count (row ∷ rows) [] = ⊥
Grows count (row ∷ rows) (next ∷ nexts) = Moves row next × Grows count rows nexts

abbrev pub ids : List AuditRow → List Bytes
ids [] = []
ids (row ∷ rows) = row.id ∷ ids rows

abbrev pub AreUnique : List Bytes → Type 0
AreUnique [] = Unit
AreUnique (id ∷ rest) = All (λ (later : Bytes). later ≢ id) rest × AreUnique rest

Moves-trans : (a b c : AuditRow) → Moves a b → Moves b c → Moves a c
Moves-trans a b c (stays e) m = rw (← e) m
Moves-trans a b c (ends now result was final e) (stays f) = ends now result was final (f ∙ e)
Moves-trans a b c (ends now result was final e) (ends later again again_was _ f) =
    let same : result ≡ result_attempted = sym (ap (λ (r : AuditRow). r.result) e) ∙ again_was in
    elim final [
      | inl success ↦ absurd (omega (arith, ap length (sym success ∙ same)))
      | inr failed ↦ absurd (omega (arith, ap length (sym failed ∙ same)))
    ]

Grows-length :
    (n : ℕ) (rows nexts : List AuditRow) → Grows n rows nexts → length nexts ≡ length rows + n
Grows-length n [] nexts h = omega (arith, h)
Grows-length n (row ∷ rows) [] h = absurd h
Grows-length n (row ∷ rows) (next ∷ nexts) (_, h) =
    let rest = Grows-length n rows nexts h in omega (arith, rest)

Grows-trans : (m n : ℕ) (a b c : List AuditRow) → Grows m a b → Grows n b c → Grows (m + n) a c
Grows-trans m n [] b c h k = omega (arith, h, Grows-length n b c k)
Grows-trans m n (x ∷ a) [] c h k = absurd h
Grows-trans m n (x ∷ a) (y ∷ b) [] h k = absurd k
Grows-trans m n (x ∷ a) (y ∷ b) (z ∷ c) (first, h) (second, k) =
    (Moves-trans x y z first second, Grows-trans m n a b c h k)

Grows-refl : (rows : List AuditRow) → Grows 0 rows rows
Grows-refl [] = refl
Grows-refl (row ∷ rows) = (stays refl, Grows-refl rows)

Grows-append : (rows : List AuditRow) (new : AuditRow) → Grows 1 rows (rows ++ new ∷ [])
Grows-append [] new = refl
Grows-append (row ∷ rows) new = (stays refl, Grows-append rows new)

module _ (id result : Bytes) (now : ℕ) where
  Becomes-Moves :
      (row next : AuditRow) → IsFinal result → Becomes id result now row next → Moves row next
  Becomes-Moves row next final (closes _ was e) = ends now result was final e
  Becomes-Moves row next final (other _ e) = stays e
  Becomes-Moves row next final (done_before _ e) = stays e

  Becomes-id : (row next : AuditRow) → Becomes id result now row next → next.id ≡ row.id
  Becomes-id row next (closes _ _ e) = ap (λ (r : AuditRow). r.id) e
  Becomes-id row next (other _ e) = ap (λ (r : AuditRow). r.id) e
  Becomes-id row next (done_before _ e) = ap (λ (r : AuditRow). r.id) e

  Each-Grows :
      (rows nexts : List AuditRow)
      → IsFinal result
      → Each (Becomes id result now) rows nexts
      → Grows 0 rows nexts × (ids nexts ≡ ids rows)
  Each-Grows [] [] final h = (refl, refl)
  Each-Grows [] (next ∷ nexts) final h = absurd h
  Each-Grows (row ∷ rows) [] final h = absurd h
  Each-Grows (row ∷ rows) (next ∷ nexts) final (first, rest) =
      let (grows, same) = Each-Grows rows nexts final rest in
      let same_id = Becomes-id row next first in ((Becomes-Moves row next final first, grows), cc)

-- A new identifier behind unique ones.
fresh_unique :
    (id : Bytes) (rows : List AuditRow) (new : AuditRow)
    → new.id ≢ id
    → All (λ (later : Bytes). later ≢ id) (ids rows)
    → All (λ (later : Bytes). later ≢ id) (ids (rows ++ new ∷ []))
fresh_unique id [] new differs h = (differs, tt)
fresh_unique id (row ∷ rows) new differs (first, h) = (first, fresh_unique id rows new differs h)

AreUnique-append :
    (rows : List AuditRow) (new : AuditRow)
    → IsFresh new.id rows
    → AreUnique (ids rows)
    → AreUnique (ids (rows ++ new ∷ []))
unfolding any_row
AreUnique-append [] new fresh h = (tt, tt)
AreUnique-append (row ∷ rows) new fresh (first, h) =
    let differs : new.id ≢ row.id =
      λ q. absurd (ground (arith, fresh, (eqb_iff row.id new.id).1 (sym q))) in
    (fresh_unique row.id rows new differs first, AreUnique-append rows new (ground arith) h)

-- What calls make of the tables.
pub record History (db : Db) (r : ℕ × Db) : Type 0 where
  pub grows : Grows r.0 db.audit_log r.1.audit_log
  pub unique : AreUnique (ids r.1.audit_log)
  pub same_users : r.1.users ≡ db.users
  pub same_sessions : r.1.sessions ≡ db.sessions
  pub same_servers : r.1.servers ≡ db.servers

unchanged : (db : Db) → AreUnique (ids db.audit_log) → History db (0, db)
unchanged db h = record {
  grows = Grows-refl db.audit_log;
  unique = h;
  same_users = refl;
  same_sessions = refl;
  same_servers = refl;
}

updated_rows :
    (id result : Bytes) (now : ℕ) (db : Db) (rows : List AuditRow)
    → AreUnique (ids db.audit_log)
    → IsFinal result
    → Each (Becomes id result now) db.audit_log rows
    → History db (0, record db { audit_log = rows })
updated_rows id result now db rows h final each =
    let (grows, same) = Each-Grows id result now db.audit_log rows final each in
    record {
      grows = grows;
      unique = rw same h;
      same_users = refl;
      same_sessions = refl;
      same_servers = refl;
    }

Closing-History :
    (env : ResultEnv) (id result : Bytes) (db : Db) (r : Result AuditError (Unit {0}) × Db)
    → AreUnique (ids db.audit_log)
    → Closing env id result db r
    → History db (0, r.1)
Closing-History env id result db r h (Closing.invalid _ _ e) = rw e (unchanged db h)
Closing-History env id result db r h (Closing.unavailable _ _ e) = rw e (unchanged db h)
Closing-History env id result db r h (Closing.uncounted rows final _ each e) =
    rw e (updated_rows id result env.now db rows h final each)
Closing-History env id result db r h (Closing.updated rows final _ each e) =
    rw e (updated_rows id result env.now db rows h final each)
Closing-History env id result db r h (Closing.nothing_open _ _ e) = rw e (unchanged db h)

Attempt-History :
    (env : AttemptEnv) (user_id action target_type target_id : Bytes) (db : Db)
    (r : Result AuditError AuditRow × Db)
    → AreUnique (ids db.audit_log)
    → Attempt env user_id action target_type target_id db r
    → History db (attempt_answer r)
Attempt-History env user_id action target_type target_id db r h (Attempt.refused e same) =
    rw same (unchanged db h)
Attempt-History env user_id action target_type target_id db r h
      (Attempt.added row same for_it new fresh) =
    rw same (record {
      grows = Grows-append db.audit_log row;
      unique = AreUnique-append db.audit_log row fresh h;
      same_users = refl;
      same_sessions = refl;
      same_servers = refl;
    })

call-History : (c : Call) (db : Db) → AreUnique (ids db.audit_log) → History db (call c db)
call-History (attempt env user_id action target_type target_id) db h =
    Attempt-History env user_id action target_type target_id db _ h
      (record_attempt-Attempt env user_id action target_type target_id db)
call-History (finish env id result) db h =
    Closing-History env id result db _ h (record_result-Closing env id result db)

-- Where the identifiers of the log are unique, they stay unique through any calls of both operations,
-- whatever fails in them; the log has one new row for each attempt that is granted and no other, an
-- earlier row at most goes once from attempted to success or failed, with nothing but the result and
-- the time of its update changed, and no other table changes.
pub run_calls-History :
    (calls : List Call) (db : Db) → AreUnique (ids db.audit_log) → History db (run_calls calls db)
run_calls-History [] db h = unchanged db h
run_calls-History (c ∷ calls) db h =
    let first = call-History c db h in
    let rest = run_calls-History calls (call c db).1 first.unique in
    record {
      grows =
          Grows-trans (call c db).0 (run_calls calls (call c db).1).0 db.audit_log _ _ first.grows
            rest.grows;
      unique = rest.unique;
      same_users = rest.same_users ∙ first.same_users;
      same_sessions = rest.same_sessions ∙ first.same_sessions;
      same_servers = rest.same_servers ∙ first.same_servers;
    }
