-- ===== src/Config/Modes.antt =====
-- Which configurations internal/config/config.go loads.
use mathlib.Core.Path.{subst}
use gopanel.Common.{
  ◌≡◌, ◌≢◌, ◌↔◌, refl, sym, ap, ◌∙◌, Bool, true, false, Option, none, some, List, [], Bytes, arith,
}
use gopanel.Common.Result.{Result, ok, err}
use gopanel.Config.{
  Config, Url, System, ConfigError, validate_listen_address, and_then, validate_database_path,
  is_supported_public_url, supported, validate_public_url, checked_url, checked_host, validate,
  build_config, parsed_options, parse_options, loaded, validated, load,
}
use gopanel.Config.Defaults.{IsBuilt, build_config-IsBuilt, build_config_only}
use gopanel.Config.Listening.{validate_listen_address_iff}
use gopanel.Config.Parts.{
  Listens, IsDatabasePath, IsOrigin, InMode, given_iff, validate_database_path_iff,
  is_supported_public_url_iff, validate_mode_restrictions_iff,
}

-- A configuration whose parts are as they have to be.
pub record Accepted (system : System) (c : Config) : Type 0 where
  pub host : Bytes
  pub url : Url
  pub listens : Listens system c.listen_address host
  pub is_path : IsDatabasePath system c.database_path
  pub has_url : c.public_url ≢ []
  pub is_url : system.parse_url c.public_url ≡ some url
  pub is_origin : IsOrigin url
  pub in_mode : InMode system c.development host url

ok_payload : {A : Type 0} → A → Result ConfigError A → A
ok_payload a (ok b) = b
ok_payload a (err e) = a

abbrev ok_of : {A : Type 0} → A → Result ConfigError A
ok_of a = ok a

ok-injective : {A : Type 0} (a b : A) → ok_of a ≡ ok_of b → a ≡ b
unfolding ok_payload
ok-injective a b h = ap (ok_payload a) h

module _ (system : System) where
  -- The URL is given and parsed, and is supported.
  parsed_url :
      (raw : Bytes) (url : Url) (parsed : Option Url)
      → system.parse_url raw ≡ parsed
      → supported system parsed ≡ ok url
      → (system.parse_url raw ≡ some url) × (is_supported_public_url system url ≡ true)
  parsed_url raw url none same h = absurd (ground (arith, h))
  parsed_url raw url (some parsed) same h =
      let fits : is_supported_public_url system parsed ≡ true = ground (arith, h) in
      let found : parsed ≡ url = ground (arith, h) in (same ∙ ap some found, rw (sym found) fits)

  validate_public_url_iff :
      (raw : Bytes) (url : Url)
      → (validate_public_url system raw ≡ ok url)
        ↔ ((raw ≢ []) × (system.parse_url raw ≡ some url) × IsOrigin url)
  unfolding validate_public_url
  validate_public_url_iff raw url =
      let given = given_iff raw in
      let origin = is_supported_public_url_iff system url in
      (
        λ h.
            let (parsed, fits) =
              parsed_url raw url (system.parse_url raw) refl (ground (arith, h)) in
            (given.0 (ground (arith, h)), parsed, origin.0 fits),
        λ (some_url, parsed, is_origin). rw (given.1 some_url, parsed, origin.1 is_origin) refl,
      )

  url-Accepted :
      (c : Config) (host : Bytes)
      → Listens system c.listen_address host
      → IsDatabasePath system c.database_path
      → (reply : Result ConfigError Url) → validate_public_url system c.public_url ≡ reply
      → checked_url system c host reply ≡ ok tt
      → Accepted system c
  url-Accepted c host listens path (err e) same h = absurd (ground (arith, h))
  url-Accepted c host listens path (ok url) same h =
      let (has_url, is_url, is_origin) = (validate_public_url_iff c.public_url url).0 same in
      record {
        host = host;
        url = url;
        listens = listens;
        is_path = path;
        has_url = has_url;
        is_url = is_url;
        is_origin = is_origin;
        in_mode = (validate_mode_restrictions_iff system c.development host url).0 h;
      }

  path-Accepted :
      (c : Config) (host : Bytes)
      → Listens system c.listen_address host
      → (reply : Result ConfigError (Unit {0}))
      → validate_database_path system c.database_path ≡ reply
      → and_then system reply (checked_url system c host (validate_public_url system c.public_url))
        ≡ ok tt
      → Accepted system c
  path-Accepted c host listens (err e) same h = absurd (ground (arith, h))
  path-Accepted c host listens (ok tt) same h =
      url-Accepted c host listens ((validate_database_path_iff system c.database_path).0 same) _
        refl h

  host-Accepted :
      (c : Config) (reply : Result ConfigError Bytes)
      → validate_listen_address system c.listen_address ≡ reply
      → checked_host system c reply ≡ ok tt
      → Accepted system c
  host-Accepted c (err e) same h = absurd (ground (arith, h))
  host-Accepted c (ok host) same h =
      path-Accepted c host ((validate_listen_address_iff system c.listen_address host).0 same) _
        refl h

  validate_iff : (c : Config) → (validate system c ≡ ok tt) ↔ Accepted system c
  unfolding validate
  validate_iff c = (
    λ h. host-Accepted c _ refl h,
    λ a.
        rw
          (
            (validate_listen_address_iff system c.listen_address a.host).1 a.listens,
            (validate_database_path_iff system c.database_path).1 a.is_path,
            (validate_public_url_iff c.public_url a.url).1 (a.has_url, a.is_url, a.is_origin),
            (validate_mode_restrictions_iff system c.development a.host a.url).1 a.in_mode,
          )
          refl,
  )

  -- What is loaded comes from options without further arguments, and is accepted.
  abbrev pub IsLoaded : List Bytes → Config → Type 0
  IsLoaded arguments c =
      (parsed : Config) × (system.parse_flags arguments ≡ some (parsed, false))
      × IsBuilt parsed.development parsed c
      × Accepted system c

  validated-IsLoaded :
      (arguments : List Bytes) (c parsed : Config) (reply : Result ConfigError (Unit {0}))
      → system.parse_flags arguments ≡ some (parsed, false)
      → validate system (build_config parsed) ≡ reply
      → validated system (build_config parsed) reply ≡ ok c
      → IsLoaded arguments c
  validated-IsLoaded arguments c parsed (err e) options same h = absurd (ground (arith, h))
  validated-IsLoaded arguments c parsed (ok tt) options same h =
      let built = ok-injective (build_config parsed) c h in
      (
        parsed,
        options,
        subst (IsBuilt parsed.development parsed) built
            (build_config-IsBuilt parsed parsed.development refl),
        subst (Accepted system) built ((validate_iff (build_config parsed)).0 same),
      )

  options-IsLoaded :
      (arguments : List Bytes) (c : Config) (options : Option (Config × Bool))
      → system.parse_flags arguments ≡ options
      → loaded system (parsed_options system options) ≡ ok c
      → IsLoaded arguments c
  options-IsLoaded arguments c none same h = absurd (ground (arith, h))
  options-IsLoaded arguments c (some (parsed, true)) same h = absurd (ground (arith, h))
  options-IsLoaded arguments c (some (parsed, false)) same h =
      validated-IsLoaded arguments c parsed _ same refl h

  -- A configuration is loaded exactly if the arguments are options only, the configuration is these,
  -- in development with the defaults for those not given, it listens on a host and a port from 1 to
  -- 65535, its database is a file that is there or is new in a directory that is, its public URL is an
  -- origin of http or https, and in development it listens on loopback with an http URL there, while
  -- otherwise the URL is https.
  pub load_iff :
      (arguments : List Bytes) (c : Config) → (load system arguments ≡ ok c) ↔ IsLoaded arguments c
  unfolding load parse_options
  load_iff arguments c = (
    λ h. options-IsLoaded arguments c (system.parse_flags arguments) refl h,
    λ (parsed, options, built, accepted).
        let same = build_config_only parsed c parsed.development refl built in
        rw (options, same, (validate_iff c).1 accepted) refl,
  )
