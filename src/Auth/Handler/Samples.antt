-- ===== src/Auth/Handler/Samples.antt =====
-- Test data: a configuration of the handlers and what surrounds a request.
use gopanel.Common.{false, some, codes, trim_space}
use gopanel.Http.{Draw, Rendering}
use gopanel.Auth.Samples.{salt, toy, toy_hmac, smooth, login_env}
use gopanel.Auth.Handler.{Config, Ambient}

abbrev pub config : Config
config = record {
  development = false;
  ext = toy;
  hmac = toy_hmac;
  csrf_key = codes "key";
  sanitize_detail = trim_space;
}

abbrev pub draw : Draw
draw = record { reference = codes "err_1"; at = 5 }

abbrev pub rendering : Rendering
rendering = record {
  render_fails = false;
  write_fails = false;
  render_draw = draw;
  write_draw = draw;
}

abbrev pub ambient : Ambient
ambient = record {
  now = 20;
  context_random = some salt;
  token_random = some salt;
  login_env = login_env;
  salt_random = some salt;
  update_env = smooth;
  find_fails = false;
  delete_fails = false;
  failure_draw = draw;
  rendering = rendering;
}
