-- ===== src/Startup/Docker.antt =====
-- cmd/gopanel/main.go: how the Docker service finds the registered servers.
use gopanel.Common.{Bool, List, [], ◌∷◌, Option, none, some, Bytes}
use gopanel.Common.Result.{Result, ok, err}
use gopanel.Database.{Db}
use gopanel.Server.Model.{Server}
use gopanel.Server.Store
use gopanel.Server.Store.{StoreError, not_found}
use gopanel.Container.Service.{RegisteredServer, Lookup}

unfoldable pub to_registered_docker_server : Server → RegisteredServer
to_registered_docker_server registered = record {
  id = registered.id;
  name = registered.name;
  connection_type = registered.connection_type;
}

abbrev looked_up : Result StoreError Server → Lookup
looked_up (ok registered) = some (some (to_registered_docker_server registered))
looked_up (err not_found) = some none
looked_up (err e) = none

unfoldable pub docker_server_lookup : (query_fails parse_fails : Bool) → Bytes → Db → Lookup
unfolding to_registered_docker_server
docker_server_lookup query_fails parse_fails server_id db =
    looked_up (Store.get query_fails parse_fails server_id db)

abbrev pub registered_servers : List Server → List RegisteredServer
registered_servers [] = []
registered_servers (item ∷ servers) = to_registered_docker_server item ∷ registered_servers servers

abbrev listed : Result StoreError (List Server) → Option (List RegisteredServer)
listed (ok servers) = some (registered_servers servers)
listed (err e) = none

unfoldable pub docker_server_lister :
    (List Server → List Server)
    → (query_fails parse_fails : Bool) → Db
    → Option (List RegisteredServer)
unfolding to_registered_docker_server
docker_server_lister sort query_fails parse_fails db =
    listed (Store.list sort query_fails parse_fails db)
