-- ===== src/Startup/Balance.antt =====
-- cmd/gopanel/main.go and internal/app/app.go: what the process has open at its end.
use gopanel.Common.{
  ◌≡◌, refl, sym, ap, ◌∙◌, Bool, true, false, not, ◌||◌, List, [], ◌∷◌, ◌++◌, some, Option, none,
  Bytes, if◌then◌else◌,
}
use gopanel.Common.Result.{Result, ok, err}
use gopanel.Http.Reads.{if_intro}
use gopanel.Resource.{
  Resource, Event, Run, ◌>>=◌, database, docker, cleanup, poller, server, step, proceed, open_after,
}
use gopanel.Connection.{
  OpenEnv, OpenError, inspect_database_file, verify, close_after_open_failure, secured, begun,
  inspected, open_store,
}
use gopanel.Config.{Config, ConfigError, load, validate}
use gopanel.App.Lifecycle.{
  LifeEnv, AppError, listen_failed, Serving, returns, cancelled, ShutdownResult, drained,
  deadline_exceeded, failed, drain_records, close_record, run_http_server, shutdown_http_server,
  finish, run_lifecycle, run,
}
use gopanel.Startup.{
  StartEnv, StartupError, close_after_failure, valid_socket, socket_checked, load_config, opened,
  open_database, migrate_database, open_migrated_database, create_csrf, build_authentication,
  build_docker, new_fails, built, build_application, prepare_application, served, serve_application,
  run_configured, run_process,
}

proceed-none : (events : List Event) → proceed events none ≡ none
proceed-none [] = refl
proceed-none (e ∷ events) = refl

proceed-append :
    (xs ys : List Event) (held : Option (List Resource))
    → proceed (xs ++ ys) held ≡ proceed ys (proceed xs held)
proceed-append [] ys held = refl
proceed-append (e ∷ xs) ys none = sym (proceed-none ys)
proceed-append (e ∷ xs) ys (some held) = proceed-append xs ys (step e held)

-- The events lead from what was open to what is.
abbrev pub Leads : List Event → List Resource → List Resource → Type 0
Leads events held next = open_after events held ≡ some next

pub Leads-append :
    (xs ys : List Event) (held next last : List Resource)
    → Leads xs held next
    → Leads ys next last
    → Leads (xs ++ ys) held last
Leads-append xs ys held next last p q = proceed-append xs ys (some held) ∙ ap (proceed ys) p ∙ q

-- A part of the run that succeeds leaves this open, and one that fails leaves nothing open.
abbrev pub Leaves : {E A : Type 0} → Run E A → List Resource → List Resource → Type 0
Leaves (ok a, events) held next = Leads events held next
Leaves (err e, events) held next = Leads events held []

after-Leaves :
    {E A : Type 0} (xs : List Event) (m : Run E A) (held next last : List Resource)
    → Leads xs held next
    → Leaves m next last
    → Leaves (m.0, xs ++ m.1) held last
after-Leaves xs (ok a, ys) held next last p q = Leads-append xs ys held next last p q
after-Leaves xs (err e, ys) held next last p q = Leads-append xs ys held next [] p q

bind-Leaves :
    {E A B : Type 0} (m : Run E A) (f : A → Run E B) (held next last : List Resource)
    → Leaves m held next
    → ((a : A) → Leaves (f a) next last)
    → Leaves (m >>= f) held last
bind-Leaves (ok a, xs) f held next last p q = after-Leaves xs (f a) held next last p (q a)
bind-Leaves (err e, xs) f held next last p q = p

close_record-Leads :
    (fails : Bool) (event : Bytes) (held : List Resource)
    → Leads (close_record fails event) held held
close_record-Leads true event held = refl
close_record-Leads false event held = refl

finish-Leads :
    (env : LifeEnv) (errors : List AppError)
    → Leads (finish env errors).1 (docker ∷ database ∷ []) []
unfolding finish
finish-Leads env errors =
    Leads-append (close_record env.docker_close_fails _) _ (database ∷ []) (database ∷ []) []
      (close_record-Leads env.docker_close_fails _ (database ∷ []))
      (close_record-Leads env.database_close_fails _ [])

drain_records-Leads :
    (drain : ShutdownResult) (held : List Resource) → Leads (drain_records drain) held held
drain_records-Leads drained held = refl
drain_records-Leads deadline_exceeded held = refl
drain_records-Leads failed held = refl

run_http_server-Leads :
    (serving : Serving) (held : List Resource) → Leads (run_http_server serving).1 held held
unfolding run_http_server shutdown_http_server
run_http_server-Leads (returns result) held = refl
run_http_server-Leads (cancelled drain result) held =
    Leads-append (drain_records drain) _ (server ∷ held) (server ∷ held) held
      (drain_records-Leads drain (server ∷ held)) refl

begun-Leaves :
    (env : OpenEnv) (m : Run (List OpenError) (Unit {0}))
    → Leaves m (database ∷ []) (database ∷ [])
    → Leaves (begun env m) [] (database ∷ [])
begun-Leaves env (ok done, events) h = h
begun-Leaves env (err e, events) h = h

secured-Leaves :
    (env : OpenEnv) (existed : Bool) (reply : Result OpenError (Unit {0}))
    → Leaves (begun env (secured env existed reply)) [] (database ∷ [])
unfolding close_after_open_failure
secured-Leaves env existed (err e) = refl
secured-Leaves env true (ok done) = refl
secured-Leaves env false (ok done) = begun-Leaves env _ (
    if_intro (λ (m : Run (List OpenError) (Unit {0})). Leaves m (database ∷ []) (database ∷ []))
      env.chmod_fails refl refl)

inspected-Leaves :
    (env : OpenEnv) (reply : Result OpenError Bool)
    → Leaves (inspected env reply) [] (database ∷ [])
inspected-Leaves env (err e) = refl
inspected-Leaves env (ok existed) =
    if_intro (λ (m : Run (List OpenError) (Unit {0})). Leaves m [] (database ∷ [])) env.driver_fails
      refl (secured-Leaves env existed (verify env))

pub open_store-Leaves : (env : OpenEnv) → Leaves (open_store env) [] (database ∷ [])
unfolding open_store
open_store-Leaves env = inspected-Leaves env (inspect_database_file env)

run-Leads : (env : LifeEnv) → Leads (run env).1 (docker ∷ database ∷ []) []
unfolding run run_lifecycle
run-Leads env =
    let held = poller ∷ cleanup ∷ docker ∷ database ∷ [] in
    if_intro (λ (r : List AppError × List Event). Leads r.1 (docker ∷ database ∷ []) [])
      env.listen_fails (finish-Leads env (listen_failed ∷ []))
      (Leads-append (run_http_server env.serving).1 _ held held []
        (run_http_server-Leads env.serving held) (finish-Leads env (run_http_server env.serving).0))

module _ (env : StartEnv) where
  close_after_failure-Leaves :
      (event message : Bytes) (next : List Resource)
      → Leaves (close_after_failure env event message) (database ∷ []) next
  unfolding close_after_failure
  close_after_failure-Leaves event message next = refl

  -- A step behind the opening of the database.
  guarded-Leaves :
      (fails : Bool) (event message : Bytes) (m : Run (List StartupError) (Unit {0}))
      (next : List Resource)
      → Leaves m (database ∷ []) next
      → Leaves (if fails then close_after_failure env event message else m) (database ∷ []) next
  guarded-Leaves true event message m next h = close_after_failure-Leaves event message next
  guarded-Leaves false event message m next h = h

  opened-Leaves :
      {E : Type 0} (m : Run E (Unit {0}))
      → Leaves m [] (database ∷ [])
      → Leaves (opened env m) [] (database ∷ [])
  opened-Leaves (ok done, events) h = h
  opened-Leaves (err e, events) h = Leads-append events _ [] [] [] h refl

  open_migrated_database-Leaves : Leaves (open_migrated_database env) [] (database ∷ [])
  unfolding open_migrated_database open_database migrate_database
  open_migrated_database-Leaves =
      bind-Leaves (open_database env) _ [] (database ∷ []) (database ∷ [])
        (opened-Leaves (open_store env.open_env) (open_store-Leaves env.open_env))
        (λ _. guarded-Leaves env.migrate_fails _ _ _ (database ∷ []) refl)

  built-Leaves :
      (fails : Bool) → Leaves (built env fails) (docker ∷ database ∷ []) (docker ∷ database ∷ [])
  unfolding close_after_failure
  built-Leaves true = refl
  built-Leaves false = refl

  build_application-Leaves :
      (config : Config)
      → Leaves (build_application env config) (database ∷ []) (docker ∷ database ∷ [])
  unfolding build_application build_authentication build_docker create_csrf
  build_application-Leaves config =
      let one = database ∷ [] in
      let two = docker ∷ database ∷ [] in
      bind-Leaves (build_authentication env) _ one one two
        (bind-Leaves (create_csrf env) _ one one one (guarded-Leaves env.key_fails _ _ _ one refl)
          (λ _. guarded-Leaves env.origin_fails _ _ _ one refl))
        (λ _.
          bind-Leaves (build_docker env config) _ one two two
            (guarded-Leaves (not (valid_socket config.docker_socket) || env.client_fails) _ _ _ two
              refl)
            (λ _. built-Leaves (new_fails env (validate env.system_again config))))

  served-Leaves :
      {E : Type 0} (reply : List E × List Event) (held : List Resource)
      → Leads reply.1 held []
      → Leaves (served env reply) held []
  served-Leaves ([], events) held h = h
  served-Leaves (e ∷ errors, events) held h = Leads-append events _ held [] [] h refl

  run_configured-Leaves : (config : Config) → Leaves (run_configured env config) [] []
  unfolding run_configured prepare_application serve_application
  run_configured-Leaves config =
      bind-Leaves (prepare_application env config) _ [] (docker ∷ database ∷ []) []
        (bind-Leaves (open_migrated_database env) _ [] (database ∷ []) (docker ∷ database ∷ [])
          open_migrated_database-Leaves (λ _. build_application-Leaves config))
        (λ _. served-Leaves (run env.life) (docker ∷ database ∷ []) (run-Leads env.life))

  socket_checked-Leaves :
      (reply : Result ConfigError Config) → Leaves (socket_checked env reply) [] []
  socket_checked-Leaves (err e) = refl
  socket_checked-Leaves (ok config) =
      if_intro (λ (m : Run (List StartupError) Config). Leaves m [] [])
        (not (valid_socket config.docker_socket)) refl refl

  run_process-Leaves : (arguments : List Bytes) → Leaves (run_process env arguments) [] []
  unfolding run_process load_config
  run_process-Leaves arguments =
      bind-Leaves (load_config env arguments) _ [] [] []
        (socket_checked-Leaves (load env.system arguments)) run_configured-Leaves

  Leaves-nothing : {E A : Type 0} (m : Run E A) → Leaves m [] [] → open_after m.1 [] ≡ some []
  Leaves-nothing (ok a, events) h = h
  Leaves-nothing (err e, events) h = h

  -- However a run of the process goes, every resource that it opens is ended exactly once, in the
  -- reverse order: the poller, the cleanup, the Docker client, the database; nothing is open at the
  -- end.
  pub run_process-balanced :
      (arguments : List Bytes) → open_after (run_process env arguments).1 [] ≡ some []
  run_process-balanced arguments = Leaves-nothing _ (run_process-Leaves arguments)
