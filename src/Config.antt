-- ===== src/Config.antt =====
-- internal/config/config.go. The packages net, net/url, path/filepath, os and flag are arguments.
pub mod Defaults
pub mod Listening
pub mod Modes
pub mod Parts
use gopanel.Common.{
  ℕ, Bool, true, false, not, ◌&&◌, ◌||◌, List, [], ◌∷◌, Option, none, some, Bytes, codes, eqb, null,
  leb, ◌==◌, has_prefix, if◌then◌else◌,
}
use gopanel.Common.Decimal.{parse_int}
use gopanel.Common.Int.{ℤ, pos, negsuc}
use gopanel.Common.Result.{Result, ok, err}
use gopanel.Connection.{FileInfo, missing, inaccessible, directory, regular, irregular}

pub record Config : Type 0 where
  pub listen_address : Bytes
  pub database_path : Bytes
  pub public_url : Bytes
  pub docker_socket : Bytes
  pub development : Bool

-- The fields of url.URL that the code reads.
pub record Url : Type 0 where
  pub scheme : Bytes
  pub host : Bytes
  pub path : Bytes
  pub has_user : Bool
  pub raw_query : Bytes
  pub fragment : Bytes
  pub hostname : Bytes

pub record System : Type 0 where
  -- net.SplitHostPort
  pub split_host_port : Bytes → Option (Bytes × Bytes)
  -- url.Parse
  pub parse_url : Bytes → Option Url
  -- filepath.Clean and filepath.Dir
  pub clean : Bytes → Bytes
  pub dir : Bytes → Bytes
  -- os.Stat
  pub stat : Bytes → FileInfo
  -- strings.EqualFold
  pub equal_fold : Bytes → Bytes → Bool
  -- net.ParseIP, and IsLoopback of what it finds
  pub ip_is_loopback : Bytes → Option Bool
  -- flag.FlagSet.Parse with the five options, and whether arguments are left over
  pub parse_flags : List Bytes → Option (Config × Bool)

pub data ConfigError : Type 0 where
  arguments_rejected positional_arguments : ConfigError
  address_missing address_malformed port_out_of_range host_missing : ConfigError
  path_missing path_not_a_file path_unnamed parent_unavailable parent_not_directory : ConfigError
  path_uninspected path_not_regular : ConfigError
  url_missing url_malformed url_unsupported : ConfigError
  production_not_https development_not_loopback development_url_refused : ConfigError

abbrev development_address : Bytes
development_address = codes "127.0.0.1:8080"

abbrev development_database_path : Bytes
development_database_path = codes "./gopanel.db"

abbrev development_public_url : Bytes
development_public_url = codes "http://127.0.0.1:8080"

abbrev development_docker_socket : Bytes
development_docker_socket = codes "/var/run/docker.sock"

abbrev or_default : Bytes → Bytes → Bytes
or_default value default_value = if null value then default_value else value

unfoldable pub apply_development_defaults : Config → Config
apply_development_defaults cfg = record cfg {
  listen_address = or_default cfg.listen_address development_address;
  database_path = or_default cfg.database_path development_database_path;
  public_url = or_default cfg.public_url development_public_url;
  docker_socket = or_default cfg.docker_socket development_docker_socket;
}

-- The options have the fields of the configuration.
unfoldable pub build_config : Config → Config
unfolding apply_development_defaults
build_config parsed = if parsed.development then apply_development_defaults parsed else parsed

abbrev pub in_range : Option ℤ → Bool
in_range none = false
in_range (some (pos port)) = leb 1 port && leb port 65535
in_range (some (negsuc n)) = false

abbrev contains_question_mark : Bytes → Bool
contains_question_mark [] = false
contains_question_mark (c ∷ s) = c == b'?' || contains_question_mark s

module _ (system : System) where
  abbrev pub address_host : Option (Bytes × Bytes) → Result ConfigError Bytes
  address_host none = err address_malformed
  address_host (some (host, port_text)) =
      if not (in_range (parse_int port_text))
      then err port_out_of_range
      else if null host
      then err host_missing
      else ok host

  unfoldable pub validate_listen_address : Bytes → Result ConfigError Bytes
  validate_listen_address address =
      if null address then err address_missing else address_host (system.split_host_port address)

  unfoldable pub validate_database_parent : FileInfo → Result ConfigError (Unit {0})
  validate_database_parent missing = err parent_unavailable
  validate_database_parent inaccessible = err parent_unavailable
  validate_database_parent directory = ok tt
  validate_database_parent _ = err parent_not_directory

  unfoldable pub validate_existing_database_file : FileInfo → Result ConfigError (Unit {0})
  validate_existing_database_file missing = ok tt
  validate_existing_database_file inaccessible = err path_uninspected
  validate_existing_database_file regular = ok tt
  validate_existing_database_file _ = err path_not_regular

  abbrev pub and_then :
      {A : Type 0} → Result ConfigError (Unit {0}) → Result ConfigError A → Result ConfigError A
  and_then (err e) next = err e
  and_then (ok done) next = next

  unfoldable pub validate_database_path : Bytes → Result ConfigError (Unit {0})
  unfolding validate_database_parent validate_existing_database_file
  validate_database_path path =
      let clean_path = system.clean path in
      if null path
      then err path_missing
      else if eqb path (codes ":memory:")
          || has_prefix path (codes "file:")
          || contains_question_mark path
      then err path_not_a_file
      else if eqb clean_path (codes ".")
      then err path_unnamed
      else and_then (validate_database_parent (system.stat (system.dir clean_path)))
          (validate_existing_database_file (system.stat clean_path))

  unfoldable pub is_supported_public_url : Url → Bool
  is_supported_public_url parsed =
      (eqb parsed.scheme (codes "http") || eqb parsed.scheme (codes "https"))
      && (not (null parsed.host) && (null parsed.path || eqb parsed.path (codes "/")))
      && (not parsed.has_user && null parsed.raw_query && null parsed.fragment)

  abbrev pub supported : Option Url → Result ConfigError Url
  supported none = err url_malformed
  supported (some parsed) =
      if not (is_supported_public_url parsed) then err url_unsupported else ok parsed

  unfoldable pub validate_public_url : Bytes → Result ConfigError Url
  unfolding is_supported_public_url
  validate_public_url raw_url =
      if null raw_url then err url_missing else supported (system.parse_url raw_url)

  abbrev pub or_false : Option Bool → Bool
  or_false none = false
  or_false (some b) = b

  unfoldable pub is_loopback_host : Bytes → Bool
  is_loopback_host host =
      if system.equal_fold host (codes "localhost")
      then true
      else or_false (system.ip_is_loopback host)

  unfoldable pub validate_development_mode :
      (listen_host : Bytes) → Url → Result ConfigError (Unit {0})
  validate_development_mode listen_host public_url =
      if not (is_loopback_host listen_host)
      then err development_not_loopback
      else if not (eqb public_url.scheme (codes "http"))
          || not (is_loopback_host public_url.hostname)
      then err development_url_refused
      else ok tt

  unfoldable pub validate_mode_restrictions :
      (development : Bool) (listen_host : Bytes) → Url → Result ConfigError (Unit {0})
  unfolding validate_development_mode
  validate_mode_restrictions development listen_host public_url =
      if development
      then validate_development_mode listen_host public_url
      else if not (eqb public_url.scheme (codes "https"))
      then err production_not_https
      else ok tt

  abbrev pub checked_url :
      Config → (listen_host : Bytes) → Result ConfigError Url → Result ConfigError (Unit {0})
  checked_url c listen_host (err e) = err e
  checked_url c listen_host (ok public_url) =
      validate_mode_restrictions c.development listen_host public_url

  abbrev pub checked_host : Config → Result ConfigError Bytes → Result ConfigError (Unit {0})
  checked_host c (err e) = err e
  checked_host c (ok listen_host) =
      and_then (validate_database_path c.database_path)
        (checked_url c listen_host (validate_public_url c.public_url))

  -- `Validate`
  unfoldable pub validate : Config → Result ConfigError (Unit {0})
  unfolding validate_listen_address validate_database_path validate_public_url
      validate_mode_restrictions
  validate c = checked_host c (validate_listen_address c.listen_address)

  abbrev pub parsed_options : Option (Config × Bool) → Result ConfigError Config
  parsed_options none = err arguments_rejected
  parsed_options (some (parsed, left_over)) =
      if left_over then err positional_arguments else ok parsed

  unfoldable pub parse_options : List Bytes → Result ConfigError Config
  parse_options arguments = parsed_options (system.parse_flags arguments)

  abbrev pub validated : Config → Result ConfigError (Unit {0}) → Result ConfigError Config
  validated cfg (err e) = err e
  validated cfg (ok done) = ok cfg

  abbrev pub loaded : Result ConfigError Config → Result ConfigError Config
  loaded (err e) = err e
  loaded (ok parsed) = validated (build_config parsed) (validate (build_config parsed))

  unfoldable pub load : List Bytes → Result ConfigError Config
  unfolding parse_options build_config validate
  load arguments = loaded (parse_options arguments)
