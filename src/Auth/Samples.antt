-- ===== src/Auth/Samples.antt =====
-- Test data: accounts and sessions, and functions in place of the packages that the service calls.
use gopanel.Common.{ℕ, ◌*◌, ◌%◌, refl, false, [], ◌∷◌, some, Bytes, codes, length, arith}
use gopanel.Common.Split.{hex_encode}
use gopanel.Database.{Db, UserRow, SessionRow}
use gopanel.Auth.Password.{encode_password_hash}
use gopanel.Auth.Password.RoundTrip.{IsBlock}
use gopanel.Auth.RateLimit.{second}
use gopanel.Auth.Store.{UpdateEnv}
use gopanel.Auth.Service.{LoginEnv, Externals}

abbrev pub salt : Bytes
salt = 1 ∷ 2 ∷ 3 ∷ 4 ∷ 5 ∷ 6 ∷ 7 ∷ 8 ∷ 9 ∷ 10 ∷ 11 ∷ 12 ∷ 13 ∷ 14 ∷ 15 ∷ 16 ∷ []

-- A key that tells texts of different lengths apart.
abbrev pub toy_key : (password salt : Bytes) (iterations memory parallelism key_length : ℕ) → Bytes
toy_key password s iterations memory parallelism key_length =
    length password % 256 ∷ 2 ∷ 3 ∷ 4 ∷ 5 ∷ 6 ∷ 7 ∷ 8 ∷ 9 ∷ 10 ∷ 11 ∷ 12 ∷ 13 ∷ 14 ∷ 15 ∷ 16 ∷ s

abbrev pub toy : Externals
toy = record { to_lower = λ s. s; parse_address = λ s. some s; id_key = toy_key; sum = λ s. s }

abbrev pub old_password : Bytes
old_password = codes "correct horse"

abbrev pub new_password : Bytes
new_password = codes "battery staple"

abbrev pub alice : UserRow
alice = record {
  id = codes "a1";
  email = codes "alice@example.org";
  name = codes "Alice";
  password_hash = encode_password_hash salt (toy_key old_password salt 2 19456 1 32);
  role = codes "admin";
  created_at = 1;
  updated_at = 1;
}

abbrev pub bob : UserRow
bob = record {
  id = codes "b2";
  email = codes "bob@example.org";
  name = codes "Bob";
  password_hash = codes "none";
  role = codes "viewer";
  created_at = 2;
  updated_at = 2;
}

abbrev pub alice_token : Bytes
alice_token = codes "ta"

abbrev pub bob_token : Bytes
bob_token = codes "tb"

abbrev pub session_of : Bytes → UserRow → SessionRow
session_of token user = record {
  token_hash = hex_encode token;
  user_id = user.id;
  expires_at = 1000;
  created_at = 10;
}

abbrev pub tables : Db
tables = record {
  users = alice ∷ bob ∷ [];
  sessions = session_of alice_token alice ∷ session_of bob_token bob ∷ [];
  servers = [];
  audit_log = [];
}

abbrev pub smooth : UpdateEnv
smooth = record {
  now = 50;
  begin_fails = false;
  update_fails = false;
  delete_fails = false;
  commit_fails = false;
  rollback_fails = false;
}

abbrev pub login_env : LoginEnv
login_env = record {
  global_now = 20 * second;
  account_now = 20 * second;
  find_fails = false;
  session_now = 20 * second;
  session_random = some salt;
  insert_fails = false;
}

pub salt-IsBlock : IsBlock 16 salt
salt-IsBlock = record { count = refl; bytes = omega arith }

pub key-IsBlock : IsBlock 32 (toy_key old_password salt 2 19456 1 32)
key-IsBlock = record { count = refl; bytes = omega arith }

-- Bytes in place of a MAC, by the length of the message.
abbrev pub toy_hmac : (key message : Bytes) → Bytes
toy_hmac key message =
    length message % 256 ∷ 1 ∷ 2 ∷ 3 ∷ 4 ∷ 5 ∷ 6 ∷ 7 ∷ 8 ∷ 9 ∷ 10 ∷ 11 ∷ 12 ∷ 13 ∷ 14 ∷ 15 ∷ salt

pub toy_hmac-IsBlock : (key message : Bytes) → IsBlock 32 (toy_hmac key message)
toy_hmac-IsBlock key message = record { count = refl; bytes = omega arith }
