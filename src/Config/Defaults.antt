-- ===== src/Config/Defaults.antt =====
-- internal/config/config.go: the options, and what stands in for those that are not given.
use gopanel.Common.{
  ◌≡◌, ◌≢◌, ◌⊎◌, inl, inr, refl, sym, Bool, true, false, Bool-cases, [], Bytes, codes, null,
}
use gopanel.Config.{
  Config, or_default, build_config, apply_development_defaults, development_address,
  development_database_path, development_public_url, development_docker_socket,
}
use gopanel.Config.Parts.{given_iff, null_iff}

-- The option, or the default where it is not given.
abbrev IsGivenOr : (value default_value result : Bytes) → Type 0
IsGivenOr value default_value result =
    ((value ≢ []) × (result ≡ value)) ⊎ ((value ≡ []) × (result ≡ default_value))

-- The options as they are given, in development with the defaults of the local server.
abbrev pub IsBuilt : (development : Bool) (parsed c : Config) → Type 0
IsBuilt false parsed c = c ≡ parsed
IsBuilt true parsed c =
    IsGivenOr parsed.listen_address (codes "127.0.0.1:8080") c.listen_address
    × IsGivenOr parsed.database_path (codes "./gopanel.db") c.database_path
    × IsGivenOr parsed.public_url (codes "http://127.0.0.1:8080") c.public_url
    × IsGivenOr parsed.docker_socket (codes "/var/run/docker.sock") c.docker_socket
    × (c.development ≡ true)

or_default-IsGivenOr : (v d : Bytes) → IsGivenOr v d (or_default v d)
or_default-IsGivenOr v d = elim (Bool-cases (null v)) [
  | inl missing ↦ inr ((null_iff v).0 missing, rw missing refl)
  | inr given ↦ inl ((given_iff v).0 given, rw given refl)
]

or_default_only : (v d r : Bytes) → IsGivenOr v d r → r ≡ or_default v d
or_default_only v d r (inl (given, same)) = rw ((given_iff v).1 given) same
or_default_only v d r (inr (missing, same)) = rw ((null_iff v).1 missing) same

pub build_config-IsBuilt :
    (parsed : Config) (development : Bool)
    → parsed.development ≡ development
    → IsBuilt development parsed (build_config parsed)
unfolding build_config apply_development_defaults
build_config-IsBuilt parsed false e = rw e refl
build_config-IsBuilt parsed true e = rw e (
  or_default-IsGivenOr parsed.listen_address development_address,
  or_default-IsGivenOr parsed.database_path development_database_path,
  or_default-IsGivenOr parsed.public_url development_public_url,
  or_default-IsGivenOr parsed.docker_socket development_docker_socket,
  refl,
)

pub build_config_only :
    (parsed c : Config) (development : Bool)
    → parsed.development ≡ development
    → IsBuilt development parsed c
    → build_config parsed ≡ c
unfolding build_config apply_development_defaults
build_config_only parsed c false e same = simp e (sym same)
build_config_only parsed c true e (address, path, url, socket, development) =
    let a = or_default_only _ _ _ address in
    let p = or_default_only _ _ _ path in
    let u = or_default_only _ _ _ url in let s = or_default_only _ _ _ socket in rw e cc
