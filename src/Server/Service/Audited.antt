-- ===== src/Server/Service/Audited.antt =====
-- What `Create` leaves in the tables, for every reply and whatever fails.
use gopanel.Common.{
  ℕ, ◌≡◌, inl, inr, refl, Bool, Bool-cases, List, [], ◌∷◌, ◌++◌, Option, none, some, Bytes, arith,
}
use gopanel.Common.Result.{Result, ok, err, failure}
use gopanel.Database.{Db, AuditRow}
use gopanel.Audit.{AuditError, result_success, result_failed, result_attempted}
use gopanel.Audit.Own.{
  IsFor, IsFresh, refused, added, record_attempt-Attempt, Finished, record_result-Finished,
}
use gopanel.Server.Model.{Server, Input, ValidatedInput}
use gopanel.Server.Validate.{FieldErrors, validate_input}
use gopanel.Server.Validate.Accepts.{IsValid, validate_input_iff, trimmed}
use gopanel.Server.Store
use gopanel.Server.Store.{StoreError, insert_failed, new_server, create_refused}
use gopanel.Server.Service.{
  validation, preparation, audit_unavailable, creation, audit_incomplete, Reply, CreateEnv,
  create_server_action, server_target_type, success_reply, creation_failure, after_insert, after_id,
  after_validation, generate_server_id, create, empty_server, refuse,
}

-- One row about the creation of the server, behind the log as it was.
pub record Logged (user_id server_id audit_id : Bytes) (db db' : Db) : Type 0 where
  pub row : AuditRow
  pub log : db'.audit_log ≡ db.audit_log ++ row ∷ []
  pub id : row.id ≡ audit_id
  pub for_user : row.user_id ≡ user_id
  pub act : row.action ≡ create_server_action
  pub kind : row.target_type ≡ server_target_type
  pub target : row.target_id ≡ server_id
  pub users : db'.users ≡ db.users
  pub sessions : db'.sessions ≡ db.sessions

-- The new server holds the trimmed and valid input, and no credential.
pub record Holds (is_ip : Bytes → Bool) (input : Input) (server : Server) : Type 0 where
  pub name : server.name ≡ (trimmed input).name
  pub address : server.address ≡ (trimmed input).address
  pub connection_type : server.connection_type ≡ (trimmed input).connection_type
  pub no_credential : server.credential_reference ≡ none
  pub valid : IsValid is_ip (trimmed input)

module _ (is_ip : Bytes → Bool) (user_id : Bytes) (input : Input) (db : Db) where
  -- What each reply says of the tables.
  pub data Explains : Reply × Db → Type 0 where
    rejected :
        (fields : FieldErrors) (r : Reply × Db)
        → validate_input is_ip input ≡ err fields
        → r ≡ (refuse (validation fields), db)
        → Explains r
    unprepared : (r : Reply × Db) → r ≡ (refuse preparation, db) → Explains r
    unaudited :
        (e : AuditError) (r : Reply × Db) → r ≡ (refuse (audit_unavailable e), db) → Explains r
    created :
        (server : Server) (audit_id : Bytes) (db' : Db) (r : Reply × Db)
        → r ≡ (record { server = server; audit_id = audit_id; failure = none }, db')
        → db'.servers ≡ db.servers ++ server ∷ []
        → Holds is_ip input server
        → (l : Logged user_id server.id audit_id db db') → l.row.result ≡ result_success
        → Explains r
    incomplete :
        (server : Server) (audit_id : Bytes) (cause : AuditError) (db' : Db) (r : Reply × Db)
        → r ≡ (
          record {
            server = server;
            audit_id = audit_id;
            failure = some (audit_incomplete server audit_id cause);
          },
          db',
        )
        → db'.servers ≡ db.servers ++ server ∷ []
        → Holds is_ip input server
        → Logged user_id server.id audit_id db db'
        → Explains r
    failed :
        (server_id audit_id : Bytes) (cause : StoreError) (finalization : Option AuditError)
        (db' : Db) (r : Reply × Db)
        → r ≡ (
          record {
            server = empty_server;
            audit_id = audit_id;
            failure = some (creation audit_id cause finalization);
          },
          db',
        )
        → db'.servers ≡ db.servers
        → (l : Logged user_id server_id audit_id db db')
        → (finalization ≡ none → l.row.result ≡ result_failed)
        → Explains r

  module _ (row : AuditRow) (v : ValidatedInput) (server_id : Bytes)
      (row_for : IsFor user_id create_server_action server_target_type server_id row)
      (opened : row.result ≡ result_attempted) (fresh : IsFresh row.id db.audit_log)
      (same : v ≡ trimmed input) (valid : IsValid is_ip (trimmed input)) where
    logged :
        (result : Bytes) (servers : List Server) (db' : Db) (answer : Result AuditError (Unit {0}))
        → Finished row result (record db { servers = servers }) db' answer
        → Logged user_id server_id row.id db db'
    logged result servers db' answer f = record {
      row = f.last;
      log = ground (arith, f.state);
      id = f.same_id;
      for_user = ground (arith, f.same_user, row_for.user);
      act = ground (arith, f.same_action, row_for.act);
      kind = ground (arith, f.same_kind, row_for.kind);
      target = ground (arith, f.same_target, row_for.target);
      users = ground (arith, f.state);
      sessions = ground (arith, f.state);
    }

    success_reply-Explains :
        (now : ℕ) (r : Result AuditError (Unit {0}) × Db)
        → Finished row result_success
            (record db { servers = db.servers ++ new_server server_id v now ∷ [] })
            r.1
            r.0
        → Explains (success_reply (new_server server_id v now) row.id r)
    unfolding new_server logged
    success_reply-Explains now (ok done, db') f =
        created (new_server server_id v now) row.id db' _ refl (ground (arith, f.state))
          (rw same (record {
            name = refl;
            address = refl;
            connection_type = refl;
            no_credential = refl;
            valid = valid;
          }))
          (logged result_success _ db' _ f) (f.closes refl)
    success_reply-Explains now (err e, db') f =
        incomplete (new_server server_id v now) row.id e db' _ refl (ground (arith, f.state))
          (rw same (record {
            name = refl;
            address = refl;
            connection_type = refl;
            no_credential = refl;
            valid = valid;
          }))
          (logged result_success _ db' _ f)

    failure_reply-Explains :
        (cause : StoreError) (r : Result AuditError (Unit {0}) × Db)
        → Finished row result_failed db r.1 r.0
        → Explains (
          record {
            server = empty_server;
            audit_id = row.id;
            failure = some (creation row.id cause (failure r.0));
          },
          r.1,
        )
    unfolding logged
    failure_reply-Explains cause (ok done, db') f =
        failed server_id row.id cause none db' _ refl (ground (arith, f.state))
          (logged result_failed db.servers db' _ f) (λ _. f.closes refl)
    failure_reply-Explains cause (err e, db') f =
        failed server_id row.id cause (some e) db' _ refl (ground (arith, f.state))
          (logged result_failed db.servers db' _ f) (λ h. cc)

    after_insert-Explains :
        (env : CreateEnv)
        → Explains (
            after_insert env row.id (
              Store.create env.insert_fails env.insert_now server_id v
                (record db { audit_log = db.audit_log ++ row ∷ [] })))
    unfolding Store.create creation_failure
    after_insert-Explains env =
        let server = new_server server_id v env.insert_now in
        let logging : Db = record db { audit_log = db.audit_log ++ row ∷ [] } in
        elim (Bool-cases (create_refused env.insert_fails server logging)) [
          | inl refusal ↦ rw refusal (
              failure_reply-Explains insert_failed _
                (record_result-Finished env.result row result_failed db (inr refl) fresh opened))
          | inr free ↦ rw free (
              success_reply-Explains env.insert_now _ (
                record_result-Finished env.result row result_success
                  (record db { servers = db.servers ++ server ∷ [] }) (inl refl) fresh opened))
        ]

  module _ (env : CreateEnv) where
    after_id-Explains :
        (v : ValidatedInput) (id : Option Bytes)
        → v ≡ trimmed input
        → IsValid is_ip (trimmed input)
        → Explains (after_id env user_id v id db)
    after_id-Explains v none same valid = unprepared _ refl
    after_id-Explains v (some server_id) same valid =
        elim (record_attempt-Attempt env.attempt user_id create_server_action server_target_type
          server_id db) [
            | refused e r ↦ rw r (unaudited e _ refl)
            | added row r row_for opened fresh ↦
                rw r (after_insert-Explains row v server_id row_for opened fresh same valid env)
          ]

    after_validation-Explains :
        (r : Result FieldErrors ValidatedInput)
        → validate_input is_ip input ≡ r
        → Explains (after_validation env user_id r db)
    after_validation-Explains (err fields) h = rejected fields _ h refl
    after_validation-Explains (ok v) h =
        let (same, valid) = (validate_input_iff is_ip input v).0 h in
        after_id-Explains v (generate_server_id env.server_random) same (rw same at valid)

    -- Whatever fails in the surroundings, `Create` leaves the tables as its reply says. A refused
    -- input, a missing identifier and a refused audit record change nothing. In every other case one
    -- row about the new server is added to the audit log, with the identifier that is returned. It
    -- is `success` if there is no error. The server's row is there exactly if there is no error or
    -- the audit is reported incomplete, and holds the trimmed input, which is valid, and no
    -- credential. If the creation failed, the audit row is `failed` unless an error of its own is
    -- reported.
    pub create-Explains : Explains (create is_ip env user_id input db)
    unfolding create
    create-Explains = after_validation-Explains (validate_input is_ip input) refl
