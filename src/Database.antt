-- ===== src/Database.antt =====
-- The tables that internal/store/migrations/*.sql makes, as lists of rows, the newest last. The
-- statements of the stores are read by SQL's meaning over these lists, with the keys, checks and
-- foreign keys of the schema; that a statement fails for another reason is up to the surroundings.
-- Times are in nanoseconds.
pub mod Rows
use gopanel.Common.{ℕ, Bool, false, ◌||◌, List, [], ◌∷◌, Bytes, codes, eqb}
use gopanel.Server.Model.{Server}

pub record UserRow : Type 0 where
  pub id : Bytes
  pub email : Bytes
  pub name : Bytes
  pub password_hash : Bytes
  pub role : Bytes
  pub created_at : ℕ
  pub updated_at : ℕ

pub record SessionRow : Type 0 where
  pub token_hash : Bytes
  pub user_id : Bytes
  pub expires_at : ℕ
  pub created_at : ℕ

-- The row of `audit_log`, which is also the struct `Record` of internal/audit.
pub record AuditRow : Type 0 where
  pub id : Bytes
  pub user_id : Bytes
  pub action : Bytes
  pub target_type : Bytes
  pub target_id : Bytes
  pub result : Bytes
  pub created_at : ℕ
  pub updated_at : ℕ

pub record Db : Type 0 where
  pub users : List UserRow
  pub sessions : List SessionRow
  pub servers : List Server
  pub audit_log : List AuditRow

-- CHECK (role IN ('admin', 'viewer'))
unfoldable pub is_role : Bytes → Bool
is_role role = eqb role (codes "admin") || eqb role (codes "viewer")

-- CHECK (connection_type IN ('docker', 'caddy', 'vault', 'kubernetes'))
unfoldable pub is_connection_type : Bytes → Bool
is_connection_type kind =
    eqb kind (codes "docker")
    || eqb kind (codes "caddy")
    || eqb kind (codes "vault")
    || eqb kind (codes "kubernetes")
