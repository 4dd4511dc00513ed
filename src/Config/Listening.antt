-- ===== src/Config/Listening.antt =====
-- internal/config/config.go: the address to listen on.
use gopanel.Common.{
  ◌≡◌, ◌≢◌, ◌↔◌, refl, sym, true, not, Option, none, some, [], Bytes, null, arith, leb, ◌&&◌,
  if◌then◌else◌,
}
use gopanel.Common.Decimal.{parse_int}
use gopanel.Common.Int.{ℤ, pos, negsuc}
use gopanel.Common.Result.{Result, ok, err}
use gopanel.Config.{System, ConfigError, in_range, address_host, validate_listen_address}
use gopanel.Config.Parts.{Listens, given_iff}

module _ (system : System) where
  -- The port is one, and the host is given.
  checked_port : (host : Bytes) (port : Option ℤ) → Result ConfigError Bytes
  checked_port host port =
      if not (in_range port)
      then err ConfigError.port_out_of_range
      else if null host
      then err ConfigError.host_missing
      else ok host

  port-Listens :
      (address host port_text result : Bytes) (port : Option ℤ)
      → address ≢ []
      → system.split_host_port address ≡ some (host, port_text)
      → parse_int port_text ≡ port
      → checked_port host port ≡ ok result
      → Listens system address result
  unfolding checked_port
  port-Listens address host port_text result none given split parsed h = absurd (ground (arith, h))
  port-Listens address host port_text result (some (negsuc n)) given split parsed h =
      absurd (ground (arith, h))
  port-Listens address host port_text result (some (pos port)) given split parsed h =
      let same : host ≡ result = ground (arith, h) in
      record {
        given = given;
        port_text = port_text;
        port = port;
        is_split = rw (sym same) split;
        is_port = parsed;
        port_from = ground (arith, h);
        port_to = ground (arith, h);
        is_host = (given_iff result).0 (ground (arith, h));
      }

  address-Listens :
      (address result : Bytes) (parts : Option (Bytes × Bytes))
      → address ≢ []
      → system.split_host_port address ≡ parts
      → address_host system parts ≡ ok result
      → Listens system address result
  unfolding checked_port
  address-Listens address result none given split h = absurd (ground (arith, h))
  address-Listens address result (some (host, port_text)) given split h =
      port-Listens address host port_text result (parse_int port_text) given split refl h

  pub validate_listen_address_iff :
      (address host : Bytes)
      → (validate_listen_address system address ≡ ok host) ↔ Listens system address host
  unfolding validate_listen_address
  validate_listen_address_iff address host =
      let given = given_iff address in
      (
        λ h.
            address-Listens address host (system.split_host_port address)
              (given.0 (ground (arith, h))) refl (ground (arith, h)),
        λ l.
            let range : leb 1 l.port && leb l.port 65535 ≡ true =
              ground (arith, l.port_from, l.port_to) in
            rw (given.1 l.given, l.is_split, l.is_port, range, (given_iff host).1 l.is_host) refl,
      )
