-- ===== src/Diagnostic/Handler/Reads.antt =====
-- internal/diagnostic/handler.go: what its pages leave of the state.
use gopanel.Common.{Option, none, some, Bytes}
use gopanel.Diagnostic.Record.{Record}
use gopanel.Http.{Request, World}
use gopanel.Http.Reads.{Kept, Kept-refl, write_component-Kept}
use gopanel.Diagnostic.Handler.{DiagnosticEnv, detail_page, handle_list, handle_detail, render}

module _ (sanitize_detail : Bytes → Bytes) (env : DiagnosticEnv) where
  pub errors-Kept : (r : Request) (w : World) → Kept w (handle_list sanitize_detail env r w).1
  unfolding handle_list render
  errors-Kept r w = write_component-Kept sanitize_detail env.rendering _ _ _ w w (Kept-refl w)

  detail_page-Kept :
      (r : Request) (id : Bytes) (found : Option Record) (w : World)
      → Kept w (detail_page sanitize_detail env r id found w).1
  unfolding render
  detail_page-Kept r id none w =
      write_component-Kept sanitize_detail env.rendering _ _ _ w w (Kept-refl w)
  detail_page-Kept r id (some found) w =
      write_component-Kept sanitize_detail env.rendering _ _ _ w w (Kept-refl w)

  pub error-Kept :
      (id : Bytes) (r : Request) (w : World) → Kept w (handle_detail sanitize_detail env id r w).1
  unfolding handle_detail
  error-Kept id r w = detail_page-Kept r id _ w
