-- ===== src/Config/Parts.antt =====
-- The parts of a configuration of internal/config/config.go, each described without the code's tests.
use gopanel.Common.{
  ℕ, ◌≤◌, ◌≡◌, ◌≢◌, ◌↔◌, ◌⊎◌, inl, inr, refl, ap, Bool, true, false, Bool-cases, Option, none, some,
  [], ◌∷◌, ◌++◌, Bytes, codes, eqb, eqb_iff, null, has_prefix, ◌||◌, arith,
}
use gopanel.Common.Decimal.{parse_int}
use gopanel.Common.Int.{pos}
use gopanel.Common.Result.{Result, ok, err}
use gopanel.Common.Split.{Lacks}
use gopanel.Connection.{FileInfo, missing, inaccessible, directory, regular, irregular}
use gopanel.Config.{
  Url, System, ConfigError, validate_database_path, validate_database_parent,
  validate_existing_database_file, contains_question_mark, is_supported_public_url,
  is_loopback_host, or_false, and_then, validate_mode_restrictions, validate_development_mode,
}

-- The address has a host and a port in the range of ports.
pub record Listens (system : System) (address host : Bytes) : Type 0 where
  pub given : address ≢ []
  pub port_text : Bytes
  pub port : ℕ
  pub is_split : system.split_host_port address ≡ some (host, port_text)
  pub is_port : parse_int port_text ≡ some (pos port)
  pub port_from : 1 ≤ port
  pub port_to : port ≤ 65535
  pub is_host : host ≢ []

-- A file, or the place of a new one, in a directory that is there; not memory and no URI.
pub record IsDatabasePath (system : System) (path : Bytes) : Type 0 where
  pub given : path ≢ []
  pub not_memory : path ≢ codes ":memory:"
  pub no_uri : (rest : Bytes) → path ≢ codes "file:" ++ rest
  pub no_query : Lacks b'?' path
  pub named : system.clean path ≢ codes "."
  pub in_directory : system.stat (system.dir (system.clean path)) ≡ directory
  pub file_or_new :
      (system.stat (system.clean path) ≡ missing) ⊎ (system.stat (system.clean path) ≡ regular)

-- An origin of http or https: no path but "/", no user, no query and no fragment.
pub record IsOrigin (url : Url) : Type 0 where
  pub scheme : (url.scheme ≡ codes "http") ⊎ (url.scheme ≡ codes "https")
  pub host : url.host ≢ []
  pub path : (url.path ≡ []) ⊎ (url.path ≡ codes "/")
  pub no_user : url.has_user ≡ false
  pub no_query : url.raw_query ≡ []
  pub no_fragment : url.fragment ≡ []

-- The name localhost, or an address that is a loopback one.
abbrev pub IsLoopback : System → Bytes → Type 0
IsLoopback system host =
    (system.equal_fold host (codes "localhost") ≡ true) ⊎ (system.ip_is_loopback host ≡ some true)

-- The development server is reached on this machine only, and another one by https only.
abbrev pub InMode : System → (development : Bool) → (host : Bytes) → Url → Type 0
InMode system true host url =
    IsLoopback system host × IsLoopback system url.hostname × (url.scheme ≡ codes "http")
InMode system false host url = url.scheme ≡ codes "https"

pub null_iff : (s : Bytes) → (null s ≡ true) ↔ (s ≡ [])
null_iff [] = (λ _. refl, λ _. refl)
null_iff (c ∷ s) = (λ h. absurd (ground (arith, h)), λ h. absurd (ground (arith, h)))

pub given_iff : (s : Bytes) → (null s ≡ false) ↔ (s ≢ [])
given_iff [] = (λ h. absurd (ground (arith, h)), λ h. absurd (h refl))
given_iff (c ∷ s) = (λ h q. absurd (ground (arith, q)), λ h. refl)

differs_iff : (s t : Bytes) → (eqb s t ≡ false) ↔ (s ≢ t)
differs_iff s t = (
  λ h q. absurd (ground (arith, h, (eqb_iff s t).1 q)),
  λ h. elim (Bool-cases (eqb s t)) [
    | inl same ↦ absurd (h ((eqb_iff s t).0 same))
    | inr differs ↦ differs
  ],
)

has_prefix-append : (p rest : Bytes) → has_prefix (p ++ rest) p ≡ true
unfolding has_prefix
has_prefix-append [] rest = ground arith
has_prefix-append (c ∷ p) rest = ground (arith, has_prefix-append p rest)

has_prefix_rest : (s p : Bytes) → has_prefix s p ≡ true → (rest : Bytes) × (s ≡ p ++ rest)
unfolding has_prefix
has_prefix_rest s [] h = (s, refl)
has_prefix_rest [] (d ∷ p) h = absurd (ground (arith, h))
has_prefix_rest (c ∷ s) (d ∷ p) h =
    let first : c ≡ d = ground (arith, h) in
    let (rest, same) = has_prefix_rest s p (ground (arith, h)) in (rest, cc)

prefix_iff : (s p : Bytes) → (has_prefix s p ≡ false) ↔ ((rest : Bytes) → s ≢ p ++ rest)
prefix_iff s p = (
  λ h rest same.
      absurd (ground (arith, h, ap (λ t. has_prefix t p) same, has_prefix-append p rest)),
  λ h. elim (Bool-cases (has_prefix s p)) [
    | inl starts ↦ let (rest, same) = has_prefix_rest s p starts in absurd (h rest same)
    | inr differs ↦ differs
  ],
)

question_mark_iff : (s : Bytes) → (contains_question_mark s ≡ false) ↔ Lacks b'?' s
question_mark_iff [] = (λ _. tt, λ _. refl)
question_mark_iff (c ∷ s) = ground (arith, question_mark_iff s)

module _ (system : System) where
  parent_iff : (f : FileInfo) → (validate_database_parent system f ≡ ok tt) ↔ (f ≡ directory)
  unfolding validate_database_parent
  parent_iff missing = (λ h. cc, λ h. cc)
  parent_iff inaccessible = (λ h. cc, λ h. cc)
  parent_iff directory = (λ h. refl, λ h. refl)
  parent_iff regular = (λ h. cc, λ h. cc)
  parent_iff irregular = (λ h. cc, λ h. cc)

  file_iff :
      (f : FileInfo)
      → (validate_existing_database_file system f ≡ ok tt) ↔ ((f ≡ missing) ⊎ (f ≡ regular))
  unfolding validate_existing_database_file
  file_iff missing = (λ h. inl refl, λ h. refl)
  file_iff inaccessible = (λ h. cc, λ h. elim h [ inl e ↦ cc | inr e ↦ cc ])
  file_iff directory = (λ h. cc, λ h. elim h [ inl e ↦ cc | inr e ↦ cc ])
  file_iff regular = (λ h. inr refl, λ h. refl)
  file_iff irregular = (λ h. cc, λ h. elim h [ inl e ↦ cc | inr e ↦ cc ])

  then_iff :
      (first second : Result ConfigError (Unit {0}))
      → (and_then system first second ≡ ok tt) ↔ ((first ≡ ok tt) × (second ≡ ok tt))
  then_iff (ok _) second = (λ h. (refl, h), λ h. h.1)
  then_iff (err e) second = (λ h. cc, λ h. h.0)

  pub validate_database_path_iff :
      (path : Bytes) → (validate_database_path system path ≡ ok tt) ↔ IsDatabasePath system path
  unfolding validate_database_path
  validate_database_path_iff path =
      let clean = system.clean path in
      let parent = system.stat (system.dir clean) in
      let file = system.stat clean in
      let given = given_iff path in
      let memory = differs_iff path (codes ":memory:") in
      let uri = prefix_iff path (codes "file:") in
      let query = question_mark_iff path in
      let named = differs_iff clean (codes ".") in
      let files =
        then_iff (validate_database_parent system parent)
          (validate_existing_database_file system file) in
      (
        λ h.
            let (in_directory, place) = files.0 (ground (arith, h)) in
            record {
              given = given.0 (ground (arith, h));
              not_memory = memory.0 (ground (arith, h));
              no_uri = uri.0 (ground (arith, h));
              no_query = query.0 (ground (arith, h));
              named = named.0 (ground (arith, h));
              in_directory = (parent_iff parent).0 in_directory;
              file_or_new = (file_iff file).0 place;
            },
        λ d.
            rw
              (
                given.1 d.given,
                memory.1 d.not_memory,
                uri.1 d.no_uri,
                query.1 d.no_query,
                named.1 d.named,
              )
              (files.1 ((parent_iff parent).1 d.in_directory, (file_iff file).1 d.file_or_new)),
      )

  pub is_supported_public_url_iff :
      (url : Url) → (is_supported_public_url system url ≡ true) ↔ IsOrigin url
  unfolding is_supported_public_url
  is_supported_public_url_iff url =
      let http = eqb_iff url.scheme (codes "http") in
      let https = eqb_iff url.scheme (codes "https") in
      let host = given_iff url.host in
      let no_path = null_iff url.path in
      let root = eqb_iff url.path (codes "/") in
      let query = null_iff url.raw_query in
      let fragment = null_iff url.fragment in
      (
        λ h. record {
          scheme = ground (arith, h, http, https);
          host = host.0 (ground (arith, h));
          path = ground (arith, h, no_path, root);
          no_user = ground (arith, h);
          no_query = query.0 (ground (arith, h));
          no_fragment = fragment.0 (ground (arith, h));
        },
        λ o.
            let some_scheme : eqb url.scheme (codes "http") || eqb url.scheme (codes "https")
                ≡ true =
              ground (arith, http, https, o.scheme) in
            let some_path : null url.path || eqb url.path (codes "/") ≡ true =
              ground (arith, no_path, root, o.path) in
            rw
              (
                some_scheme,
                host.1 o.host,
                some_path,
                o.no_user,
                query.1 o.no_query,
                fragment.1 o.no_fragment,
              )
              refl,
      )

  or_false_iff : (b : Option Bool) → (or_false system b ≡ true) ↔ (b ≡ some true)
  or_false_iff none = (λ h. cc, λ h. cc)
  or_false_iff (some b) = (λ h. ap some h, λ h. ground (arith, h))

  is_loopback_host_iff :
      (host : Bytes) → (is_loopback_host system host ≡ true) ↔ IsLoopback system host
  unfolding is_loopback_host
  is_loopback_host_iff host = ground (arith, or_false_iff (system.ip_is_loopback host))

  pub validate_mode_restrictions_iff :
      (development : Bool) (host : Bytes) (url : Url)
      → (validate_mode_restrictions system development host url ≡ ok tt)
        ↔ InMode system development host url
  unfolding validate_mode_restrictions validate_development_mode
  validate_mode_restrictions_iff true host url =
      let listens = is_loopback_host_iff host in
      let reached = is_loopback_host_iff url.hostname in
      let http = eqb_iff url.scheme (codes "http") in
      (
        λ h. (
          listens.0 (ground (arith, h)),
          reached.0 (ground (arith, h)),
          http.0 (ground (arith, h)),
        ),
        λ (a, b, c). rw (listens.1 a, reached.1 b, http.1 c) refl,
      )
  validate_mode_restrictions_iff false host url =
      let https = eqb_iff url.scheme (codes "https") in
      (λ h. https.0 (ground (arith, h)), λ e. rw (https.1 e) refl)
