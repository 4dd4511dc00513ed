-- ===== src/App/Handler/Reads.antt =====
-- internal/app/handler.go: what its pages leave of the state.
use gopanel.Common.{ℕ, Bool, Option, none, some, Bytes, codes, if◌then◌else◌}
use gopanel.Http.{Request, World, Draw, record_diagnostic}
use gopanel.Http.Reads.{Kept, Keeps, Kept-refl, Kept-recorded, if_intro}
use gopanel.App.Handler.{
  AppPage, AppEnv, record_http_failure, write_safe_render_error, respond_html, home_for,
  handle_home, write_probe_response, handle_health, handle_readiness, handle_not_found,
}

module _ (sanitize_detail : Bytes → Bytes) (issue_token : Request → Option Bytes)
    (env : AppEnv) where
  written-Kept :
      (fails : Bool) (draw : Draw) (event : Bytes) (w v : World)
      → Kept w v
      → Kept w (
          if fails then (record_http_failure sanitize_detail issue_token env draw event v).0 else v)
  unfolding record_http_failure record_diagnostic
  written-Kept fails draw event w v h = if_intro (Kept w) fails (Kept-recorded h) h

  recorded-Kept :
      (draw : Draw) (event : Bytes) (w : World)
      → Kept w (record_http_failure sanitize_detail issue_token env draw event w).0
  unfolding record_http_failure record_diagnostic
  recorded-Kept draw event w = Kept-recorded (Kept-refl w)

  write_safe_render_error-Kept :
      (w : World) (failed : World × Bytes)
      → Kept w failed.0
      → Kept w (write_safe_render_error sanitize_detail issue_token env failed).1
  unfolding write_safe_render_error
  write_safe_render_error-Kept w (v, reference) h = written-Kept _ _ _ w v h

  respond_html-Kept :
      (status : ℕ) (component : AppPage) (w : World)
      → Kept w (respond_html sanitize_detail issue_token env status component w).1
  unfolding respond_html
  respond_html-Kept status component w =
      if_intro (Keeps w) env.rendering.render_fails
        (write_safe_render_error-Kept w
          (record_http_failure sanitize_detail issue_token env env.rendering.render_draw
            (codes "render_response_failed") w)
          (recorded-Kept _ _ w))
        (written-Kept _ _ _ w w (Kept-refl w))

  home_for-Kept :
      (r : Request) (token : Option Bytes) (w : World)
      → Kept w (home_for sanitize_detail issue_token env r token w).1
  home_for-Kept r none w =
      write_safe_render_error-Kept w
        (record_http_failure sanitize_detail issue_token env env.token_draw
          (codes "home_form_token_failed") w)
        (recorded-Kept _ _ w)
  home_for-Kept r (some token) w = respond_html-Kept _ _ w

  pub handle_home-Kept :
      (r : Request) (w : World) → Kept w (handle_home sanitize_detail issue_token env r w).1
  unfolding handle_home
  handle_home-Kept r w = home_for-Kept r _ w

  pub handle_health-Kept :
      (r : Request) (w : World) → Kept w (handle_health sanitize_detail issue_token env r w).1
  unfolding handle_health write_probe_response
  handle_health-Kept r w = written-Kept _ _ _ w w (Kept-refl w)

  pub handle_readiness-Kept :
      (r : Request) (w : World) → Kept w (handle_readiness sanitize_detail issue_token env r w).1
  unfolding handle_readiness write_probe_response
  handle_readiness-Kept r w =
      if_intro (Keeps w) env.shutting_down (written-Kept _ _ _ w w (Kept-refl w)) (
        if_intro (Keeps w) env.ready (written-Kept _ _ _ w w (Kept-refl w))
          (written-Kept _ _ _ w w (Kept-refl w)))

  pub handle_not_found-Kept :
      (r : Request) (w : World) → Kept w (handle_not_found sanitize_detail issue_token env r w).1
  unfolding handle_not_found
  handle_not_found-Kept r w = respond_html-Kept _ _ w
