-- ===== src/App/Lifecycle/Reports.antt =====
-- What the end of the application says of its life.
use gopanel.Common.{
  ◌≡◌, refl, ap, ◌∙◌, Bool, true, false, not, ◌&&◌, List, [], ◌∷◌, ◌++◌, null, if◌then◌else◌,
}
use gopanel.App.Lifecycle.{
  AppError, listen_failed, ServeResult, nil, server_closed, other_error, drained, deadline_exceeded,
  failed, Serving, returns, cancelled, LifeEnv, normalize_serve_error, shutdown_http_server,
  run_http_server, close_error, finish, run_lifecycle, run,
}

abbrev ended_well : ServeResult → Bool
ended_well nil = true
ended_well server_closed = true
ended_well other_error = false

-- The server ended as it should, and after a signal the requests were drained in time.
abbrev pub served_well : Serving → Bool
served_well (returns result) = ended_well result
served_well (cancelled drained result) = ended_well result
served_well (cancelled deadline_exceeded result) = false
served_well (cancelled failed result) = false

null-append : {A : Type 0} (xs ys : List A) → null (xs ++ ys) ≡ (null xs && null ys)
null-append [] ys = refl
null-append (x ∷ xs) ys = refl

null-closed : (fails : Bool) (e : AppError) → null (close_error fails e) ≡ not fails
null-closed true e = refl
null-closed false e = refl

null-served : (serving : Serving) → null (run_http_server serving).0 ≡ served_well serving
unfolding run_http_server shutdown_http_server normalize_serve_error
null-served (returns nil) = refl
null-served (returns server_closed) = refl
null-served (returns other_error) = refl
null-served (cancelled drained nil) = refl
null-served (cancelled drained server_closed) = refl
null-served (cancelled drained other_error) = refl
null-served (cancelled deadline_exceeded result) = refl
null-served (cancelled failed result) = refl

null-finish :
    (env : LifeEnv) (errors : List AppError)
    → null (finish env errors).0
      ≡ (null errors && (not env.docker_close_fails && not env.database_close_fails))
unfolding finish
null-finish env errors =
    rw
      (
        null-append errors _,
        null-append (close_error env.docker_close_fails _) _,
        null-closed env.docker_close_fails _,
        null-closed env.database_close_fails _,
      )
      refl

-- The application ends without an error exactly if it listened, the server ended as it should and was
-- drained in time, and Docker's client and the database were closed without an error.
pub null-run :
    (env : LifeEnv)
    → null (run env).0 ≡ (
        not env.listen_fails
        && served_well env.serving
        && (not env.docker_close_fails && not env.database_close_fails))
unfolding run run_lifecycle finish
null-run env =
    let well = served_well env.serving in
    let closed = not env.docker_close_fails && not env.database_close_fails in
    elim env.listen_fails
      as (λ b.
        null (if b then finish env (listen_failed ∷ []) else run_lifecycle env).0
        ≡ (not b && well && closed)) [
          | true ↦ refl
          | false ↦
              null-finish env (run_http_server env.serving).0
              ∙ ap (λ b. b && closed) (null-served env.serving)
        ]
