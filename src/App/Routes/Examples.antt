-- ===== src/App/Routes/Examples.antt =====
-- The theorems on the routes at a concrete request.
use gopanel.Common.{refl, false, true, [], ◌∷◌, none, some, codes, eqb}
use gopanel.Common.Result.{ok}
use gopanel.Diagnostic.Record.{new_recorder}
use gopanel.Container.Status.{new_status_cache}
use gopanel.Container.Handler.{ContainerEnv}
use gopanel.Http.{Request, World, empty}
use gopanel.Http.Reads.{Kept}
use gopanel.Auth.RateLimit.{new_login_limiter}
use gopanel.Auth.Samples.{salt, alice_token, tables}
use gopanel.Auth.Handler.Samples.{config, draw, rendering, ambient}
use gopanel.Auth.Handler.Guards.Admission.{Answered}
use gopanel.Server.Handler.{ServerEnv}
use gopanel.App.Handler.{AppEnv}
use gopanel.App.Routes.{RequestEnv, server_list, server_post, handle}
use gopanel.App.Routes.Access.{access, behind, handle-Answered}
use gopanel.App.Routes.Reads.{handle-Kept}

abbrev app_env : AppEnv
app_env = record {
  shutting_down = false;
  ready = true;
  error_type = codes "*errors.errorString";
  token_draw = draw;
  rendering = rendering;
  error_write_fails = false;
  error_write_draw = draw;
}

abbrev server_env : ServerEnv
server_env = record {
  is_ip = λ s. false;
  sort = λ servers. servers;
  format = λ at. [];
  query_fails = false;
  parse_fails = false;
  create_env = record {
    server_random = some salt;
    attempt = record { random = some salt; now = 20; insert_fails = false };
    insert_now = 20;
    insert_fails = false;
    result = record { now = 20; update_fails = false; rows_fail = false };
  };
  failure_draw = draw;
  rendering = rendering;
}

abbrev container_env : ContainerEnv
container_env = record {
  equal_fold = eqb;
  format = λ at. [];
  demultiplex = λ s. some s;
  to_valid_utf8 = λ s. s;
  find_server = λ id db. some none;
  find_server_again = λ id db. some none;
  ping_reply = none;
  list_reply = ok [];
  inspection = ok true;
  stream = ok (record { bytes = some []; close_fails = false });
  now = 20;
  deadline = false;
  render_deadline = false;
  failure_draw = draw;
  rendering = rendering;
}

abbrev env : RequestEnv
env = record {
  app_env = app_env;
  auth_env = ambient;
  diagnostic_env = record { rendering = rendering; error_type = [] };
  server_env = server_env;
  container_env = container_env;
  static_file = λ r. record { status = 200; cookies = []; location = none; body = empty };
}

-- Of an administrator whose session is alive, without the token of the form.
abbrev request : Request
request = record {
  cookies = (codes "__Host-gopanel_session", alice_token) ∷ [];
  form = some ((codes "name", codes "web") ∷ []);
  cross_origin = false;
  hx_request = [];
  path = codes "/servers";
  user = none;
  session = none;
}

abbrev world : World
world = record {
  limiter = new_login_limiter 0;
  db = tables;
  recorder = new_recorder;
  cache = new_status_cache;
}

handle-Answered_example :
    Answered
      (access config env server_post request world)
      (behind config env server_post)
      world
      (handle config env server_post request world)
handle-Answered_example = handle-Answered config env server_post request world

handle-Kept_example : Kept world (handle config env server_list request world).1
handle-Kept_example = handle-Kept config env server_list request world refl
