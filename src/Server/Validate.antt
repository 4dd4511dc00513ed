-- ===== src/Server/Validate.antt =====
-- internal/server/validate.go. Each error is a constructor in place of its message.
-- net.ParseIP is a parameter.
pub mod Accepts
pub mod Patterns
use gopanel.Common.{
  ℕ, suc, ◌-◌, ◌≡◌, Bool, true, false, not, ◌&&◌, ◌||◌, List, [], ◌∷◌, Option, none, some, Bytes,
  codes, eqb, contains, trim_space, length, leb, ltb, ◌==◌, if◌then◌else◌,
}
use gopanel.Common.Split.{split}
use gopanel.Common.Result.{Result, ok, err}
use gopanel.Server.Model.{Input, ValidatedInput}

pub data FieldError : Type 0 where
  name_required name_length name_pattern_failed : FieldError
  address_required address_length address_not_host address_invalid : FieldError
  type_required type_unknown : FieldError

-- The map of errors, a field for each key that the code uses.
pub record FieldErrors : Type 0 where
  pub name : Option FieldError
  pub address : Option FieldError
  pub connection_type : Option FieldError

abbrev pub is_nil {ℓ} : {A : Type ℓ} → Option A → Bool
is_nil none = true
is_nil (some _) = false

-- len(errs) != 0
abbrev pub any_error : FieldErrors → Bool
any_error errs = not (is_nil errs.name && is_nil errs.address && is_nil errs.connection_type)

-- [a-zA-Z0-9]
abbrev pub is_alnum : ℕ → Bool
is_alnum c = leb b'a' c && leb c b'z' || leb b'A' c && leb c b'Z' || leb b'0' c && leb c b'9'

-- [a-zA-Z0-9 _\-\.]
abbrev pub is_name_char : ℕ → Bool
is_name_char c = is_alnum c || c == b' ' || c == b'_' || c == b'-' || c == b'.'

-- [a-zA-Z0-9\-]
abbrev pub is_label_char : ℕ → Bool
is_label_char c = is_alnum c || c == b'-'

-- The rest of a text behind its first byte: bytes of a class, and at the end one of [a-zA-Z0-9].
unfoldable pub ends_alnum : (ℕ → Bool) → Bytes → Bool
ends_alnum class [] = false
ends_alnum class (c ∷ []) = is_alnum c
ends_alnum class (c ∷ d ∷ s) = class c && ends_alnum class (d ∷ s)

-- ^[a-zA-Z0-9][a-zA-Z0-9 _\-\.]{1,62}[a-zA-Z0-9]$
unfoldable pub name_pattern : Bytes → Bool
unfolding ends_alnum
name_pattern [] = false
name_pattern (c ∷ s) =
    is_alnum c && leb 2 (length s) && leb (length s) 63 && ends_alnum is_name_char s

-- ^[a-zA-Z0-9]([a-zA-Z0-9\-]*[a-zA-Z0-9])?$
unfoldable pub hostname_label_pattern : Bytes → Bool
unfolding ends_alnum
hostname_label_pattern [] = false
hostname_label_pattern (c ∷ []) = is_alnum c
hostname_label_pattern (c ∷ d ∷ s) = is_alnum c && ends_alnum is_label_char (d ∷ s)

unfoldable pub validate_name : Bytes → Option FieldError
validate_name name =
    let trimmed = trim_space name in
    if eqb trimmed []
    then some name_required
    else if ltb (length trimmed) 3 || ltb 64 (length trimmed)
    then some name_length
    else if not (name_pattern trimmed)
    then some name_pattern_failed
    else none

-- The loop over the labels.
unfoldable pub valid_labels : List Bytes → Bool
valid_labels [] = true
valid_labels (label ∷ labels) =
    if length label == 0 || ltb 63 (length label)
    then false
    else if not (hostname_label_pattern label)
    then false
    else valid_labels labels

unfoldable pub is_valid_hostname : Bytes → Bool
is_valid_hostname host = if ltb 253 (length host) then false else valid_labels (split b'.' host)

-- The map `allowedConnectionTypes`.
unfoldable pub allowed_connection_type : Bytes → Bool
allowed_connection_type kind =
    eqb kind (codes "docker")
    || eqb kind (codes "caddy")
    || eqb kind (codes "vault")
    || eqb kind (codes "kubernetes")

unfoldable pub validate_connection_type : Bytes → Option FieldError
validate_connection_type connection_type =
    let normalized = trim_space connection_type in
    if eqb normalized []
    then some type_required
    else if not (allowed_connection_type normalized)
    then some type_unknown
    else none

-- `is_ip` is whether net.ParseIP returns an address.
module _ (is_ip : Bytes → Bool) where
  unfoldable pub validate_address : Bytes → Option FieldError
  validate_address address =
      let trimmed = trim_space address in
      if eqb trimmed []
      then some address_required
      else if ltb 253 (length trimmed)
      then some address_length
      else if contains trimmed (codes "://")
          || contains trimmed (codes "@")
          || contains trimmed (codes "/")
      then some address_not_host
      else if is_ip trimmed
      then none
      else if not (is_valid_hostname trimmed)
      then some address_invalid
      else none

  -- The error map is filled field by field, and the input is trimmed where it stays empty.
  unfoldable pub validate_input : Input → Result FieldErrors ValidatedInput
  validate_input input =
      let errs : FieldErrors = record {
        name = validate_name input.name;
        address = validate_address input.address;
        connection_type = validate_connection_type input.connection_type;
      } in
      if any_error errs
      then err errs
      else ok (record {
        name = trim_space input.name;
        address = trim_space input.address;
        connection_type = trim_space input.connection_type;
      })
