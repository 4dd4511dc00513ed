-- ===== src/Server/Service.antt =====
-- internal/server/service.go, over the stores of internal/server and internal/audit.
pub mod Audited
use gopanel.Common.{ℕ, Bool, true, false, List, [], ◌∷◌, Option, none, some, Bytes, codes}
use gopanel.Common.Result.{Result, ok, err, failure}
use gopanel.Database.{Db, AuditRow}
use gopanel.Audit.{
  AuditError, AttemptEnv, ResultEnv, record_attempt, record_result, result_success, result_failed,
  random_id,
}
use gopanel.Server.Model.{Server, Input, ValidatedInput}
use gopanel.Server.Validate.{FieldErrors, validate_input}
use gopanel.Server.Store
use gopanel.Server.Store.{StoreError}

abbrev pub create_server_action : Bytes
create_server_action = codes "create_server"

abbrev pub server_target_type : Bytes
server_target_type = codes "server"

-- The error types of `Create`, with the fields that the code reads.
pub data CreateFailure : Type 0 where
  validation : FieldErrors → CreateFailure
  preparation : CreateFailure
  audit_unavailable : AuditError → CreateFailure
  creation :
      (audit_id : Bytes) (cause : StoreError) (finalization : Option AuditError) → CreateFailure
  audit_incomplete : Server → (audit_id : Bytes) (cause : AuditError) → CreateFailure

-- The three results of `Create`.
pub record Reply : Type 0 where
  pub server : Server
  pub audit_id : Bytes
  pub failure : Option CreateFailure

-- Server{}
abbrev pub empty_server : Server
empty_server = record {
  id = [];
  name = [];
  address = [];
  connection_type = [];
  credential_reference = none;
  created_at = 0;
  updated_at = 0;
}

abbrev pub refuse : CreateFailure → Reply
refuse f = record { server = empty_server; audit_id = []; failure = some f }

-- What the surroundings decide in a call of `Create`.
pub record CreateEnv : Type 0 where
  pub server_random : Option Bytes
  pub attempt : AttemptEnv
  pub insert_now : ℕ
  pub insert_fails : Bool
  pub result : ResultEnv

-- `generateServerID`
unfoldable pub generate_server_id : Option Bytes → Option Bytes
unfolding random_id
generate_server_id random = random_id random

abbrev pub success_reply : Server → Bytes → Result AuditError (Unit {0}) × Db → Reply × Db
success_reply server audit_id (ok _, db) =
    (record { server = server; audit_id = audit_id; failure = none }, db)
success_reply server audit_id (err e, db) = (
  record {
    server = server;
    audit_id = audit_id;
    failure = some (audit_incomplete server audit_id e);
  },
  db,
)

-- `creationFailure`
unfoldable pub creation_failure : ResultEnv → Bytes → StoreError → Db → CreateFailure × Db
creation_failure env audit_id cause db =
    let (finalized, db') = record_result env audit_id result_failed db in
    (creation audit_id cause (failure finalized), db')

abbrev pub after_insert : CreateEnv → Bytes → Result StoreError Server × Db → Reply × Db
after_insert env audit_id (ok server, db) =
    success_reply server audit_id (record_result env.result audit_id result_success db)
after_insert env audit_id (err e, db) =
    let (f, db') = creation_failure env.result audit_id e db in
    (record { server = empty_server; audit_id = audit_id; failure = some f }, db')

abbrev pub after_attempt :
    CreateEnv → ValidatedInput → Bytes → Result AuditError AuditRow × Db → Reply × Db
after_attempt env input server_id (ok row, db) =
    after_insert env row.id (Store.create env.insert_fails env.insert_now server_id input db)
after_attempt env input server_id (err e, db) = (refuse (audit_unavailable e), db)

abbrev pub after_id : CreateEnv → Bytes → ValidatedInput → Option Bytes → Db → Reply × Db
after_id env user_id input none db = (refuse preparation, db)
after_id env user_id input (some server_id) db =
    after_attempt env input server_id
      (record_attempt env.attempt user_id create_server_action server_target_type server_id db)

abbrev pub after_validation :
    CreateEnv → Bytes → Result FieldErrors ValidatedInput → Db → Reply × Db
after_validation env user_id (err fields) db = (refuse (validation fields), db)
after_validation env user_id (ok input) db =
    after_id env user_id input (generate_server_id env.server_random) db

-- `Create`; the steps above are its body behind each early return.
unfoldable pub create : (Bytes → Bool) → CreateEnv → Bytes → Input → Db → Reply × Db
unfolding creation_failure generate_server_id
create is_ip env user_id input db = after_validation env user_id (validate_input is_ip input) db

pub data ReadFailure : Type 0 where
  not_found : ReadFailure
  backend : (operation : Bytes) (cause : StoreError) → ReadFailure

abbrev list_reply : Result StoreError (List Server) → Result ReadFailure (List Server)
list_reply (ok servers) = ok servers
list_reply (err e) = err (backend (codes "list") e)

unfoldable pub list :
    (List Server → List Server)
    → (query_fails parse_fails : Bool) → Db
    → Result ReadFailure (List Server)
list sort query_fails parse_fails db = list_reply (Store.list sort query_fails parse_fails db)

abbrev get_reply : Result StoreError Server → Result ReadFailure Server
get_reply (ok server) = ok server
get_reply (err StoreError.not_found) = err not_found
get_reply (err e) = err (backend (codes "get") e)

unfoldable pub get : (query_fails parse_fails : Bool) → Bytes → Db → Result ReadFailure Server
get query_fails parse_fails id db = get_reply (Store.get query_fails parse_fails id db)
