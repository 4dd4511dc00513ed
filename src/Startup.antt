-- ===== src/Startup.antt =====
-- cmd/gopanel/main.go: how the process comes up and ends. Log lines are left out, and of an error the
-- code keeps its event, its message and the failed close beside it.
pub mod Balance
pub mod Docker
mod Examples
pub mod UserCommand
use gopanel.Common.{
  Bool, true, false, List, [], ◌∷◌, ◌++◌, Option, none, some, Bytes, codes, eqb, ◌||◌, not,
  if◌then◌else◌,
}
use gopanel.Common.Result.{Result, ok, err}
use gopanel.Resource.{Event, begin, end, recorded, Run, ◌>>=◌, database, docker}
use gopanel.Connection.{OpenEnv, open_store}
use gopanel.Config.{Config, System, ConfigError, load, validate}
use gopanel.App.Lifecycle.{LifeEnv, run}

-- A startupFailure, or the error of a close.
pub data StartupError : Type 0 where
  failure : (event message : Bytes) → StartupError
  close_failed : StartupError

pub record StartEnv : Type 0 where
  pub system : System
  -- what the system says when the application validates the configuration again
  pub system_again : System
  pub open_env : OpenEnv
  pub migrate_fails : Bool
  -- crypto/rand
  pub key_fails : Bool
  -- AddTrustedOrigin
  pub origin_fails : Bool
  -- the constructor of the Docker client
  pub client_fails : Bool
  -- webassets.StaticFiles
  pub static_fails : Bool
  pub life : LifeEnv

-- `ValidateConfig` of internal/container/config.go
unfoldable pub valid_socket : Bytes → Bool
valid_socket path = eqb path (codes "/var/run/docker.sock") || eqb path (codes "/run/docker.sock")

-- `recordFailure`
abbrev pub fail : {A : Type 0} → (event message : Bytes) → Run (List StartupError) A
fail event message = (err (failure event message ∷ []), recorded event ∷ [])

module _ (env : StartEnv) where
  -- `closeAfterFailure`
  unfoldable pub close_after_failure : (event message : Bytes) → Run (List StartupError) (Unit {0})
  close_after_failure event message = (
    err (
        if env.life.database_close_fails
        then failure event message ∷ close_failed ∷ []
        else failure event message ∷ []),
    recorded event ∷ end database ∷ [],
  )

  abbrev pub socket_checked : Result ConfigError Config → Run (List StartupError) Config
  socket_checked (err e) =
      fail (codes "configuration_rejected") (codes "Configuration is unusable.")
  socket_checked (ok config) =
      if not (valid_socket config.docker_socket)
      then fail (codes "docker_configuration_rejected") (codes "Docker configuration is unusable.")
      else (ok config, [])

  -- `loadConfig`
  unfoldable pub load_config : List Bytes → Run (List StartupError) Config
  unfolding valid_socket
  load_config arguments = socket_checked (load env.system arguments)

  abbrev pub opened : {E : Type 0} → Run E (Unit {0}) → Run (List StartupError) (Unit {0})
  opened (ok done, events) = (ok done, events)
  opened (err e, events) = (
    err (failure (codes "database_open_failed") (codes "SQLite could not be opened.") ∷ []),
    events ++ recorded (codes "database_open_failed") ∷ [],
  )

  -- `openDatabase`
  unfoldable pub open_database : Run (List StartupError) (Unit {0})
  open_database = opened (open_store env.open_env)

  -- `migrateDatabase`
  unfoldable pub migrate_database : Run (List StartupError) (Unit {0})
  unfolding close_after_failure
  migrate_database =
      if env.migrate_fails
      then close_after_failure (codes "migration_failed") (codes "SQLite migration failed.")
      else (ok tt, [])

  -- `openMigratedDatabase`
  unfoldable pub open_migrated_database : Run (List StartupError) (Unit {0})
  unfolding open_database migrate_database
  open_migrated_database = open_database >>= λ _. migrate_database

  -- `createCSRF`
  unfoldable pub create_csrf : Run (List StartupError) (Unit {0})
  unfolding close_after_failure
  create_csrf =
      if env.key_fails
      then close_after_failure (codes "csrf_key_failed")
          (codes "GoPanel could not create CSRF key.")
      else (ok tt, [])

  abbrev pub handler_built : Run (List StartupError) (Unit {0})
  handler_built =
      if env.origin_fails
      then close_after_failure (codes "auth_handler_failed")
          (codes "GoPanel could not create auth handler.")
      else (ok tt, [])

  -- `buildAuthentication`
  unfoldable pub build_authentication : Run (List StartupError) (Unit {0})
  unfolding create_csrf close_after_failure
  build_authentication = create_csrf >>= λ _. handler_built

  -- `buildDocker` with the step that follows where it fails.
  unfoldable pub build_docker : Config → Run (List StartupError) (Unit {0})
  unfolding close_after_failure valid_socket
  build_docker config =
      if not (valid_socket config.docker_socket) || env.client_fails
      then close_after_failure (codes "docker_client_failed")
          (codes "Docker client configuration is unusable.")
      else (ok tt, begin docker ∷ [])

  -- `New` of internal/app: the dependencies are given, so the configuration and the files decide.
  abbrev pub new_fails : Result ConfigError (Unit {0}) → Bool
  new_fails (err e) = true
  new_fails (ok done) = env.static_fails

  abbrev pub built : (fails : Bool) → Run (List StartupError) (Unit {0})
  built true =
      let (result, events) =
        close_after_failure (codes "application_construction_failed")
          (codes "GoPanel could not be constructed.") in
      (result, end docker ∷ events)
  built false = (ok tt, [])

  -- `buildApplication`
  unfoldable pub build_application : Config → Run (List StartupError) (Unit {0})
  unfolding build_authentication build_docker close_after_failure
  build_application config = build_authentication >>= λ _.
      build_docker config >>= λ _. built (new_fails (validate env.system_again config))

  -- `prepareApplication`
  unfoldable pub prepare_application : Config → Run (List StartupError) (Unit {0})
  unfolding open_migrated_database build_application
  prepare_application config = open_migrated_database >>= λ _. build_application config

  abbrev pub served : {E : Type 0} → List E × List Event → Run (List StartupError) (Unit {0})
  served ([], events) = (ok tt, events)
  served (e ∷ errors, events) = (
    err (failure (codes "application_stopped") (codes "GoPanel stopped unexpectedly.") ∷ []),
    events ++ recorded (codes "application_stopped") ∷ [],
  )

  -- `serveApplication`
  unfoldable pub serve_application : Run (List StartupError) (Unit {0})
  serve_application = served (run env.life)

  -- `runConfigured`
  unfoldable pub run_configured : Config → Run (List StartupError) (Unit {0})
  unfolding prepare_application serve_application
  run_configured config = prepare_application config >>= λ _. serve_application

  -- `run`: the process exits with 1 on an error.
  unfoldable pub run_process : List Bytes → Run (List StartupError) (Unit {0})
  unfolding load_config run_configured
  run_process arguments = load_config arguments >>= λ config. run_configured config
