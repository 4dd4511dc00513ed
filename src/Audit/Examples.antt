-- ===== src/Audit/Examples.antt =====
-- The theorems on the audit log at concrete inputs.
use gopanel.Common.{List, [], ◌∷◌, some, codes, false}
use gopanel.Database.{Db, AuditRow, UserRow}
use gopanel.Audit.{AttemptEnv, ResultEnv, record_result, result_attempted, result_success}
use gopanel.Audit.States.{Closing, record_result-Closing}
use gopanel.Audit.Calls.{Call, attempt, finish, run_calls, History, run_calls-History}

abbrev admin : UserRow
admin = record {
  id = codes "a1";
  email = codes "alice@example.org";
  name = codes "Alice";
  password_hash = codes "none";
  role = codes "admin";
  created_at = 1;
  updated_at = 1;
}

abbrev opened : AuditRow
opened = record {
  id = codes "ff";
  user_id = codes "a1";
  action = codes "create_server";
  target_type = codes "server";
  target_id = codes "5e";
  result = result_attempted;
  created_at = 5;
  updated_at = 5;
}

abbrev tables : Db
tables = record { users = admin ∷ []; sessions = []; servers = []; audit_log = opened ∷ [] }

abbrev attempt_env : AttemptEnv
attempt_env = record { random = some (0xAB ∷ []); now = 7; insert_fails = false }

abbrev result_env : ResultEnv
result_env = record { now = 8; update_fails = false; rows_fail = false }

-- An attempt, and the result of the one before.
abbrev calls : List Call
calls =
    attempt attempt_env (codes "a1") (codes "create_server") (codes "server") (codes "5f")
    ∷ finish result_env (codes "ff") result_success
    ∷ []

run_calls-History_example : History tables (run_calls calls tables)
run_calls-History_example = run_calls-History calls tables (tt, tt)

record_result-Closing_example :
    Closing result_env
      (codes "ff")
      result_success
      tables
      (record_result result_env (codes "ff") result_success tables)
record_result-Closing_example = record_result-Closing result_env (codes "ff") result_success tables
