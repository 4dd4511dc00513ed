-- ===== src/Server/Handler/Reads.antt =====
-- internal/server/handler.go: what its pages leave of the state.
use gopanel.Common.{List, Option, none, some, Bytes}
use gopanel.Common.Result.{Result, ok, err}
use gopanel.Http.{Request, World, record_diagnostic}
use gopanel.Http.Reads.{Kept, Kept-refl, Kept-recorded, write_component-Kept}
use gopanel.Server.Model.{Server}
use gopanel.Server.Model
use gopanel.Server.Validate.{FieldErrors}
use gopanel.Server.Service.{ReadFailure, not_found, backend}
use gopanel.Container.Summary.{DockerSummaryModel}
use gopanel.Server.Pages.{HandlerError}
use gopanel.Server.Handler.{
  ServerEnv, render, server_error_at, render_server_error, list_page, handle_list, detail_page,
  found_page, handle_detail, form_page, handle_new_form,
}

module _ (sanitize_detail : Bytes → Bytes) (issue_token : Request → Option Bytes)
    (env : ServerEnv) where
  pub server_error_at-Kept :
      (location : Option Bytes) (r : Request) (action : Bytes) (e : HandlerError) (w v : World)
      → Kept w v
      → Kept w (server_error_at sanitize_detail issue_token env location r action e v).1
  unfolding record_diagnostic
  server_error_at-Kept location r action e w v h =
      write_component-Kept sanitize_detail env.rendering _ _ _ w _ (Kept-recorded h)

  list_page-Kept :
      (r : Request) (reply : Result ReadFailure (List Server)) (w : World)
      → Kept w (list_page sanitize_detail issue_token env r reply w).1
  unfolding render_server_error render
  list_page-Kept r (err e) w = server_error_at-Kept none r _ _ w w (Kept-refl w)
  list_page-Kept r (ok servers) w =
      write_component-Kept sanitize_detail env.rendering _ _ _ w w (Kept-refl w)

  pub handle_list-Kept :
      (r : Request) (w : World) → Kept w (handle_list sanitize_detail issue_token env r w).1
  unfolding handle_list
  handle_list-Kept r w = list_page-Kept r _ w

  detail_page-Kept :
      (r : Request) (server : Server) (docker : Option (Option DockerSummaryModel)) (w : World)
      → Kept w (detail_page sanitize_detail issue_token env none 200 r server docker w).1
  detail_page-Kept r server none w = server_error_at-Kept none r _ _ w w (Kept-refl w)
  detail_page-Kept r server (some docker) w =
      write_component-Kept sanitize_detail env.rendering _ _ _ w w (Kept-refl w)

  found_page-Kept :
      (r : Request) (id : Bytes) (reply : Result ReadFailure Server) (w : World)
      → Kept w (found_page sanitize_detail issue_token env r id reply w).1
  unfolding render_server_error render
  found_page-Kept r id (err not_found) w =
      write_component-Kept sanitize_detail env.rendering _ _ _ w w (Kept-refl w)
  found_page-Kept r id (err (backend operation e)) w =
      server_error_at-Kept none r _ _ w w (Kept-refl w)
  found_page-Kept r id (ok server) w = detail_page-Kept r server _ w

  pub handle_detail-Kept :
      (id : Bytes) (r : Request) (w : World)
      → Kept w (handle_detail sanitize_detail issue_token env id r w).1
  unfolding handle_detail
  handle_detail-Kept id r w = found_page-Kept r id _ w

  form_page-Kept :
      (r : Request) (input : Model.Input) (errors : Option FieldErrors) (token : Option Bytes)
      (w : World)
      → Kept w (form_page sanitize_detail issue_token env r 200 input errors token w).1
  unfolding render_server_error render
  form_page-Kept r input errors none w = server_error_at-Kept none r _ _ w w (Kept-refl w)
  form_page-Kept r input errors (some token) w =
      write_component-Kept sanitize_detail env.rendering _ _ _ w w (Kept-refl w)

  pub handle_new_form-Kept :
      (r : Request) (w : World) → Kept w (handle_new_form sanitize_detail issue_token env r w).1
  unfolding handle_new_form
  handle_new_form-Kept r w = form_page-Kept r _ _ _ w
