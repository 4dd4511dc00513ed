-- ===== src/Startup/Examples.antt =====
-- The theorems on the process and its commands at concrete inputs.
use gopanel.Common.{◌≡◌, refl, Bool, false, true, not, ◌&&◌, [], some, codes, eqb, null, has_prefix}
use gopanel.Common.Decimal
use gopanel.Common.Result.{ok}
use gopanel.Resource.{open_after}
use gopanel.Connection.{OpenEnv, FileInfo, missing, directory}
use gopanel.Config.{
  Config, Url, System, load, build_config, apply_development_defaults, validate, parse_options,
  validate_listen_address, validate_database_path, validate_database_parent,
  validate_existing_database_file, validate_public_url, is_supported_public_url, is_loopback_host,
  validate_development_mode, validate_mode_restrictions,
}
use gopanel.Config.Modes.{IsLoaded, load_iff}
use gopanel.App.Lifecycle.{LifeEnv, cancelled, deadline_exceeded, server_closed, run}
use gopanel.App.Lifecycle.Reports.{served_well, null-run}
use gopanel.Auth.Samples.{salt, toy, old_password, tables, salt-IsBlock, key-IsBlock}
use gopanel.Startup.{StartEnv, run_process}
use gopanel.Startup.Balance.{run_process-balanced}
use gopanel.Startup.UserCommand.{AdminCredentials, AdminEnv, create_admin, create_admin_events}
use gopanel.Startup.UserCommand.Created.{Outcome, create_admin-Outcome}

abbrev local_url : Url
local_url = record {
  scheme = codes "http";
  host = codes "127.0.0.1:8080";
  path = [];
  has_user = false;
  raw_query = [];
  fragment = [];
  hostname = codes "127.0.0.1";
}

abbrev given : Config
given = record {
  listen_address = [];
  database_path = [];
  public_url = [];
  docker_socket = [];
  development = true;
}

abbrev file_of : (is_dot : Bool) → FileInfo
file_of true = directory
file_of false = missing

abbrev system : System
system = record {
  split_host_port = λ s. some (codes "127.0.0.1", codes "8080");
  parse_url = λ s. some local_url;
  clean = λ s. codes "gopanel.db";
  dir = λ s. codes ".";
  stat = λ s. file_of (eqb s (codes "."));
  equal_fold = eqb;
  ip_is_loopback = λ s. some true;
  parse_flags = λ arguments. some (given, false);
}

abbrev development : Config
development = record {
  listen_address = codes "127.0.0.1:8080";
  database_path = codes "./gopanel.db";
  public_url = codes "http://127.0.0.1:8080";
  docker_socket = codes "/var/run/docker.sock";
  development = true;
}

development_loads : load system [] ≡ ok development
unfolding load build_config apply_development_defaults validate parse_options
    validate_listen_address validate_database_path validate_database_parent
    validate_existing_database_file validate_public_url is_supported_public_url is_loopback_host
    validate_development_mode validate_mode_restrictions eqb has_prefix Decimal.parse_int
    Decimal.digits
development_loads = refl

load_iff_example : IsLoaded system [] development
load_iff_example = (load_iff system [] development).0 development_loads

abbrev open_env : OpenEnv
open_env = record {
  file = missing;
  reopen_fails = false;
  inspection_close_fails = false;
  driver_fails = false;
  ping_fails = false;
  quick_check = some (codes "ok");
  foreign_keys = some 1;
  chmod_fails = false;
  close_fails = false;
}

-- A signal comes, the requests are not drained in time, and the database is not closed cleanly.
abbrev life : LifeEnv
life = record {
  listen_fails = false;
  serving = cancelled deadline_exceeded server_closed;
  docker_close_fails = false;
  database_close_fails = true;
}

abbrev start : StartEnv
start = record {
  system = system;
  system_again = system;
  open_env = open_env;
  migrate_fails = false;
  key_fails = false;
  origin_fails = false;
  client_fails = false;
  static_fails = false;
  life = life;
}

run_process-balanced_example : open_after (run_process start []).1 [] ≡ some []
run_process-balanced_example = run_process-balanced start []

null-run_example : null (run life).0 ≡ (
    not life.listen_fails
    && served_well life.serving
    && (not life.docker_close_fails && not life.database_close_fails))
null-run_example = null-run life

abbrev admin_env : AdminEnv
admin_env = record {
  open_env = open_env;
  migrate_fails = false;
  salt = some salt;
  create_env = record { random = some (codes "c3"); now = 60; insert_fails = false };
  close_fails = true;
}

abbrev carol : AdminCredentials
carol = record { email = codes "carol@example.org"; name = codes "Carol"; password = old_password }

create_admin-Outcome_example :
    Outcome toy admin_env carol salt salt-IsBlock refl key-IsBlock tables
      (create_admin toy admin_env carol tables)
    × (open_after (create_admin_events toy admin_env carol) [] ≡ some [])
create_admin-Outcome_example =
    create_admin-Outcome toy admin_env carol salt salt-IsBlock refl key-IsBlock tables
