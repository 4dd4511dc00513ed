-- ===== src/Server/Store.antt =====
-- internal/server/store.go. A time is stored as RFC 3339 text of nanoseconds in UTC and read back as
-- it was; a text that does not parse is a failure of the surroundings. Rows come from `List` in the
-- order of that text, which is not the order of the times, so the sort is a parameter.
use gopanel.Common.{
  ℕ, Bool, not, ◌||◌, List, [], ◌∷◌, ◌++◌, Option, none, some, Bytes, eqb, if◌then◌else◌,
}
use gopanel.Common.Result.{Result, ok, err}
use gopanel.Database.Rows.{any_row}
use gopanel.Database.{Db, is_connection_type}
use gopanel.Server.Model.{Server, ValidatedInput}

pub data StoreError : Type 0 where
  not_found query_failed timestamp_failed insert_failed : StoreError

unfoldable pub new_server : Bytes → ValidatedInput → ℕ → Server
new_server id input now = record {
  id = id;
  name = input.name;
  address = input.address;
  connection_type = input.connection_type;
  credential_reference = none;
  created_at = now;
  updated_at = now;
}

-- The statement fails, the key is taken, or the connection type is refused by the check.
abbrev pub create_refused : Bool → Server → Db → Bool
create_refused fails server db =
    fails
    || any_row (λ (s : Server). eqb s.id server.id) db.servers
    || not (is_connection_type server.connection_type)

-- INSERT INTO servers
unfoldable pub create : Bool → ℕ → Bytes → ValidatedInput → Db → Result StoreError Server × Db
unfolding new_server
create fails now id input db =
    let server = new_server id input now in
    if create_refused fails server db
    then (err insert_failed, db)
    else (ok server, record db { servers = db.servers ++ server ∷ [] })

-- SELECT … WHERE id=?
unfoldable pub find_server : Bytes → List Server → Option Server
find_server id [] = none
find_server id (s ∷ servers) = if eqb s.id id then some s else find_server id servers

abbrev scan_row : Bool → Option Server → Result StoreError Server
scan_row parse_fails none = err not_found
scan_row parse_fails (some s) = if parse_fails then err timestamp_failed else ok s

unfoldable pub get : (query_fails parse_fails : Bool) → Bytes → Db → Result StoreError Server
unfolding find_server
get query_fails parse_fails id db =
    if query_fails then err query_failed else scan_row parse_fails (find_server id db.servers)

-- SELECT … ORDER BY created_at DESC; `sort` puts the rows in that order.
unfoldable pub list :
    (List Server → List Server)
    → (query_fails parse_fails : Bool) → Db
    → Result StoreError (List Server)
list sort query_fails parse_fails db =
    if query_fails
    then err query_failed
    else if parse_fails
    then err timestamp_failed
    else ok (sort db.servers)
