-- ===== src/Server/Examples.antt =====
-- The theorems on servers at concrete inputs.
use gopanel.Common.{[], ◌∷◌, ◌≡◌, ◌↔◌, some, Bytes, Bool, codes, eqb, false}
use gopanel.Common.Result.{ok}
use gopanel.Database.{Db, UserRow}
use gopanel.Server.Model.{Input}
use gopanel.Server.Validate.{validate_input}
use gopanel.Server.Validate.Accepts.{IsValid, trimmed, validate_input_iff}
use gopanel.Server.Service.{CreateEnv, create}
use gopanel.Server.Service.Audited.{Explains, create-Explains}

abbrev is_loopback : Bytes → Bool
is_loopback s = eqb s (codes "127.0.0.1")

abbrev input : Input
input = record {
  name = codes " Edge node ";
  address = codes "edge-1.example.org";
  connection_type = codes "docker ";
}

abbrev admin : UserRow
admin = record {
  id = codes "a1";
  email = codes "alice@example.org";
  name = codes "Alice";
  password_hash = codes "none";
  role = codes "admin";
  created_at = 1;
  updated_at = 1;
}

abbrev tables : Db
tables = record { users = admin ∷ []; sessions = []; servers = []; audit_log = [] }

abbrev env : CreateEnv
env = record {
  server_random = some (0x5E ∷ []);
  attempt = record { random = some (0xAB ∷ []); now = 7; insert_fails = false };
  insert_now = 8;
  insert_fails = false;
  result = record { now = 9; update_fails = false; rows_fail = false };
}

validate_input_iff_example :
    (validate_input is_loopback input ≡ ok (trimmed input))
    ↔ ((trimmed input ≡ trimmed input) × IsValid is_loopback (trimmed input))
validate_input_iff_example = validate_input_iff is_loopback input (trimmed input)

create-Explains_example :
    Explains is_loopback
      (codes "a1")
      input
      tables
      (create is_loopback env (codes "a1") input tables)
create-Explains_example = create-Explains is_loopback (codes "a1") input tables env
