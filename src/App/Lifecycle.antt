-- ===== src/App/Lifecycle.antt =====
-- internal/app/app.go: the life of the application behind its construction. Log lines are left out.
pub mod Reports
use gopanel.Common.{
  Bool, true, false, List, [], ◌∷◌, ◌++◌, Option, none, some, Bytes, codes, if◌then◌else◌,
}
use gopanel.Resource.{Event, begin, end, recorded, database, docker, cleanup, poller, server}

pub data AppError : Type 0 where
  listen_failed serve_failed shutdown_failed docker_close_failed database_close_failed : AppError

-- What http.Server.Serve returns.
pub data ServeResult : Type 0 where
  nil server_closed other_error : ServeResult

-- What http.Server.Shutdown returns.
pub data ShutdownResult : Type 0 where
  drained deadline_exceeded failed : ShutdownResult

-- The server returns by itself, or the context ends first and the server is shut down.
pub data Serving : Type 0 where
  returns : ServeResult → Serving
  cancelled : ShutdownResult → ServeResult → Serving

pub record LifeEnv : Type 0 where
  pub listen_fails : Bool
  pub serving : Serving
  pub docker_close_fails : Bool
  pub database_close_fails : Bool

-- `normalizeServeError`; an empty list is nil.
unfoldable pub normalize_serve_error : ServeResult → List AppError
normalize_serve_error nil = []
normalize_serve_error server_closed = []
normalize_serve_error other_error = serve_failed ∷ []

abbrev drain_error : ShutdownResult → List AppError
drain_error drained = []
drain_error _ = shutdown_failed ∷ []

-- `recordHTTPDrainFailure`
abbrev pub drain_records : ShutdownResult → List Event
drain_records drained = []
drain_records deadline_exceeded = recorded (codes "http_drain_deadline_reached") ∷ []
drain_records failed = recorded (codes "http_drain_failed") ∷ []

-- `shutdownHTTPServer`
unfoldable pub shutdown_http_server : ShutdownResult → ServeResult → List AppError × List Event
unfolding normalize_serve_error
shutdown_http_server drain served =
    (drain_error drain ++ normalize_serve_error served, drain_records drain ++ end server ∷ [])

-- `runHTTPServer`: the goroutine of `serveHTTP` has ended when its error has come.
unfoldable pub run_http_server : Serving → List AppError × List Event
unfolding shutdown_http_server normalize_serve_error
run_http_server (returns served) = (normalize_serve_error served, begin server ∷ end server ∷ [])
run_http_server (cancelled drain served) =
    let (errors, events) = shutdown_http_server drain served in (errors, begin server ∷ events)

abbrev pub close_error : Bool → AppError → List AppError
close_error fails e = if fails then e ∷ [] else []

abbrev pub close_record : Bool → Bytes → List Event
close_record fails event = if fails then recorded event ∷ [] else []

-- `finish`
unfoldable pub finish : LifeEnv → List AppError → List AppError × List Event
finish env run_errors = (
  run_errors
      ++ (close_error env.docker_close_fails docker_close_failed
          ++ close_error env.database_close_fails database_close_failed),
  end docker
      ∷ (close_record env.docker_close_fails (codes "docker_client_close_failed")
          ++ (end database
              ∷ close_record env.database_close_fails (codes "database_close_failed"))),
)

-- `runLifecycle`
unfoldable pub run_lifecycle : LifeEnv → List AppError × List Event
unfolding run_http_server finish
run_lifecycle env =
    let (serve_errors, serve_events) = run_http_server env.serving in
    let (errors, end_events) = finish env serve_errors in
    (
      errors,
      begin cleanup ∷ begin poller ∷ (serve_events ++ (end poller ∷ end cleanup ∷ end_events)),
    )

-- `Run`
unfoldable pub run : LifeEnv → List AppError × List Event
unfolding run_lifecycle finish
run env = if env.listen_fails then finish env (listen_failed ∷ []) else run_lifecycle env
