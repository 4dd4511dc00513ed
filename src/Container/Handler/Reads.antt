-- ===== src/Container/Handler/Reads.antt =====
-- internal/container/handler.go: what its handlers leave of the state beside the cache.
use gopanel.Common.{ℕ, ◌&&◌, Bool, true, false, List, Option, none, some, Bytes, eqb}
use gopanel.Common.Result.{Result, ok, err}
use gopanel.Http.{Request, World, record_diagnostic}
use gopanel.Http.Reads.{
  Kept, Kept-refl, Kept-recorded, Kept-cached, write_component-Kept, if_intro, Keeps,
}
use gopanel.Container.Client.{Container}
use gopanel.Container.Service.{RegisteredServer, ServiceError}
use gopanel.Container.Pages.{ContainerPage, operation_error_presentation}
use gopanel.Container.Handler.{
  ContainerEnv, record_failure, render, is_htmx_request, presented, render_operation_error, listed,
  list_for, handle_list, logs_answer, handle_logs, test_docker_action, summary_page, tested,
  handle_test_connection,
}

module _ (sanitize_detail : Bytes → Bytes) (issue_token : Request → Option Bytes)
    (env : ContainerEnv) where
  render-Kept :
      (r : Request) (status : ℕ) (component : ContainerPage) (w v : World)
      → Kept w v
      → Kept w (render sanitize_detail issue_token env r status component v).1
  unfolding render
  render-Kept r status component w v h =
      write_component-Kept sanitize_detail env.rendering _ _ _ w v h

  presented-Kept :
      (r : Request) (server_id action : Bytes) (e : ServiceError)
      (presentation : ℕ × Bytes × Bytes × Bool) (w v : World)
      → Kept w v
      → Kept w (presented sanitize_detail issue_token env r server_id action e presentation v).1
  unfolding record_failure record_diagnostic
  presented-Kept r server_id action e (status, title, message, true) w v h = render-Kept r _ _ w v h
  presented-Kept r server_id action e (status, title, message, false) w v h =
      if_intro (Keeps w)
        (eqb action test_docker_action && is_htmx_request sanitize_detail issue_token env r)
        (render-Kept r _ _ w _ (Kept-cached (Kept-recorded h)))
        (render-Kept r _ _ w _ (Kept-cached (Kept-recorded h)))

  render_operation_error-Kept :
      (r : Request) (server_id action : Bytes) (e : ServiceError) (w v : World)
      → Kept w v
      → Kept w (render_operation_error sanitize_detail issue_token env r server_id action e v).1
  unfolding render_operation_error
  render_operation_error-Kept r server_id action e w v h =
      presented-Kept r server_id action e (operation_error_presentation e) w v h

  listed-Kept :
      (r : Request) (server_id name : Bytes) (reply : Result ServiceError (List Container))
      (w : World)
      → Kept w (listed sanitize_detail issue_token env r server_id name reply w).1
  listed-Kept r server_id name (err e) w =
      render_operation_error-Kept r server_id _ e w w (Kept-refl w)
  listed-Kept r server_id name (ok containers) w = render-Kept r _ _ w _ (Kept-cached (Kept-refl w))

  list_for-Kept :
      (r : Request) (server_id : Bytes) (found : Result ServiceError RegisteredServer) (w : World)
      → Kept w (list_for sanitize_detail issue_token env r server_id found w).1
  list_for-Kept r server_id (err e) w =
      render_operation_error-Kept r server_id _ e w w (Kept-refl w)
  list_for-Kept r server_id (ok registered) w = listed-Kept r server_id _ _ w

  pub handle_list-Kept :
      (server_id : Bytes) (r : Request) (w : World)
      → Kept w (handle_list sanitize_detail issue_token env server_id r w).1
  unfolding handle_list
  handle_list-Kept server_id r w = list_for-Kept r server_id _ w

  logs_answer-Kept :
      (r : Request) (server_id container_id : Bytes) (reply : Result ServiceError Bytes) (w : World)
      → Kept w (logs_answer sanitize_detail issue_token env r server_id container_id reply w).1
  logs_answer-Kept r server_id container_id (err e) w =
      render_operation_error-Kept r server_id _ e w w (Kept-refl w)
  logs_answer-Kept r server_id container_id (ok logs) w = render-Kept r _ _ w w (Kept-refl w)

  pub handle_logs-Kept :
      (server_id container_id : Bytes) (r : Request) (w : World)
      → Kept w (handle_logs sanitize_detail issue_token env server_id container_id r w).1
  unfolding handle_logs
  handle_logs-Kept server_id container_id r w = logs_answer-Kept r server_id container_id _ w

  summary_page-Kept :
      (r : Request) (server_id : Bytes) (token : Option Bytes) (w v : World)
      → Kept w v
      → Kept w (summary_page sanitize_detail issue_token env r server_id token v).1
  summary_page-Kept r server_id none w v h = render_operation_error-Kept r server_id _ _ w v h
  summary_page-Kept r server_id (some token) w v h = render-Kept r _ _ w v h

  tested-Kept :
      (r : Request) (server_id : Bytes) (reply : Result ServiceError (Unit {0})) (w : World)
      → Kept w (tested sanitize_detail issue_token env r server_id reply w).1
  tested-Kept r server_id (err e) w = render_operation_error-Kept r server_id _ e w w (Kept-refl w)
  tested-Kept r server_id (ok done) w =
      if_intro (Keeps w) (is_htmx_request sanitize_detail issue_token env r)
        (summary_page-Kept r server_id _ w _ (Kept-cached (Kept-refl w)))
        (Kept-cached (Kept-refl w))

  pub handle_test_connection-Kept :
      (server_id : Bytes) (r : Request) (w : World)
      → Kept w (handle_test_connection sanitize_detail issue_token env server_id r w).1
  unfolding handle_test_connection
  handle_test_connection-Kept server_id r w = tested-Kept r server_id _ w
