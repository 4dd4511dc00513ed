-- ===== src/Server/Validate/Accepts.antt =====
-- The inputs that pass validation, described without the code's tests and patterns but for the classes
-- of the characters, which are the code's.
use gopanel.Common.{
  ℕ, ◌≤◌, ◌≡◌, ◌≢◌, ◌↔◌, ◌⊎◌, inl, inr, refl, Bool, true, false, Bool-cases, List, [], ◌∷◌, none,
  Bytes, codes, eqb_iff, contains, trim_space, length, All, arith,
}
use gopanel.Common.Split.{split, Lacks}
use gopanel.Common.Result.{ok}
use gopanel.Server.Model.{Input, ValidatedInput}
use gopanel.Server.Validate.{
  validate_name, valid_labels, is_valid_hostname, allowed_connection_type, validate_connection_type,
  validate_address, validate_input,
}
use gopanel.Server.Validate.Patterns.{
  IsName, IsLabel, name_pattern_sound, name_pattern_complete, part_sound, eqb_nil, label_nonempty,
  label_complete,
}

-- `validateName` accepts exactly the names.
validate_name_iff : (name : Bytes) → (validate_name name ≡ none) ↔ IsName (trim_space name)
unfolding validate_name
validate_name_iff name = (
  λ h. name_pattern_sound (trim_space name) (ground arith),
  λ h. ground (
    arith,
    name_pattern_complete (trim_space name) h,
    eqb_nil (trim_space name),
    h.at_least,
    h.at_most,
  ),
)

valid_labels_sound : (labels : List Bytes) → valid_labels labels ≡ true → All IsLabel labels
unfolding valid_labels
valid_labels_sound [] h = tt
valid_labels_sound (label ∷ labels) h =
    (part_sound label (ground arith) (ground arith), valid_labels_sound labels (ground arith))

valid_labels_complete : (labels : List Bytes) → All IsLabel labels → valid_labels labels ≡ true
unfolding valid_labels
valid_labels_complete [] h = refl
valid_labels_complete (label ∷ labels) (here, later) = ground (
  arith,
  label_complete label here,
  label_nonempty label here,
  here.at_most,
  valid_labels_complete labels later,
)

contains_byte : (b : ℕ) (s : Bytes) → (contains s (b ∷ []) ≡ false) ↔ Lacks b s
unfolding contains
contains_byte b [] = (λ _. tt, λ _. refl)
contains_byte b (c ∷ s) = ground (arith, contains_byte b s)

-- A text without "/" does not hold "://".
contains_scheme : (s : Bytes) → Lacks b'/' s → contains s (codes "://") ≡ false
unfolding contains
contains_scheme [] h = refl
contains_scheme (c ∷ []) h = ground arith
contains_scheme (c ∷ d ∷ s) (hc, (hd, hs)) = ground (arith, contains_scheme (d ∷ s) (hd, hs))

-- An address: 1 to 253 bytes, no "@" and no "/", an IP address or a host name.
pub record IsAddress (is_ip : Bytes → Bool) (s : Bytes) : Type 0 where
  pub nonempty : s ≢ []
  pub at_most : length s ≤ 253
  pub no_credentials : Lacks b'@' s
  pub no_path : Lacks b'/' s
  pub host : (is_ip s ≡ true) ⊎ All IsLabel (split b'.' s)

validate_address_sound :
    (is_ip : Bytes → Bool) (address : Bytes)
    → validate_address is_ip address ≡ none
    → IsAddress is_ip (trim_space address)
unfolding validate_address is_valid_hostname
validate_address_sound is_ip address h =
    let s = trim_space address in
    record {
      nonempty = ground (arith, eqb_nil s);
      at_most = ground arith;
      no_credentials = (contains_byte b'@' s).0 (ground arith);
      no_path = (contains_byte b'/' s).0 (ground arith);
      host = elim (Bool-cases (is_ip s)) [
        | inl ip ↦ inl ip
        | inr name ↦ inr (valid_labels_sound (split b'.' s) (ground arith))
      ];
    }

validate_address_complete :
    (is_ip : Bytes → Bool) (address : Bytes)
    → IsAddress is_ip (trim_space address)
    → validate_address is_ip address ≡ none
unfolding validate_address is_valid_hostname
validate_address_complete is_ip address h =
    let s = trim_space address in
    let plain = contains_scheme s h.no_path in
    let credentials = (contains_byte b'@' s).1 h.no_credentials in
    let path = (contains_byte b'/' s).1 h.no_path in
    elim h.host [
      | inl ip ↦ ground (arith, eqb_nil s, h.nonempty, h.at_most)
      | inr labels ↦
          ground
            (arith, eqb_nil s, h.nonempty, h.at_most, valid_labels_complete (split b'.' s) labels)
    ]

abbrev pub IsConnectionType : Bytes → Type 0
IsConnectionType s =
    (s ≡ codes "docker") ⊎ (s ≡ codes "caddy") ⊎ (s ≡ codes "vault") ⊎ (s ≡ codes "kubernetes")

allowed_iff : (s : Bytes) → (allowed_connection_type s ≡ true) ↔ IsConnectionType s
unfolding allowed_connection_type
allowed_iff s = ground (
  arith,
  eqb_iff s (codes "docker"),
  eqb_iff s (codes "caddy"),
  eqb_iff s (codes "vault"),
  eqb_iff s (codes "kubernetes"),
)

IsConnectionType-ne-nil : (s : Bytes) → IsConnectionType s → s ≢ []
IsConnectionType-ne-nil s h = ground arith

validate_connection_type_iff :
    (kind : Bytes) → (validate_connection_type kind ≡ none) ↔ IsConnectionType (trim_space kind)
unfolding validate_connection_type
validate_connection_type_iff kind =
    let s = trim_space kind in
    (
      λ h. (allowed_iff s).0 (ground arith),
      λ h. ground (arith, eqb_nil s, (allowed_iff s).1 h, IsConnectionType-ne-nil s h),
    )

-- What a validated input is worth.
pub record IsValid (is_ip : Bytes → Bool) (input : ValidatedInput) : Type 0 where
  pub name : IsName input.name
  pub address : IsAddress is_ip input.address
  pub connection_type : IsConnectionType input.connection_type

abbrev pub trimmed : Input → ValidatedInput
trimmed input = record {
  name = trim_space input.name;
  address = trim_space input.address;
  connection_type = trim_space input.connection_type;
}

-- Validation accepts exactly the inputs that are valid once trimmed, and returns them trimmed.
pub validate_input_iff :
    (is_ip : Bytes → Bool) (input : Input) (v : ValidatedInput)
    → (validate_input is_ip input ≡ ok v) ↔ ((v ≡ trimmed input) × IsValid is_ip v)
unfolding validate_input
validate_input_iff is_ip input v = (
  λ h.
      let same : v ≡ trimmed input = ground arith in
      (
        same,
        rw same (record {
          name = (validate_name_iff input.name).0 (ground arith);
          address = validate_address_sound is_ip input.address (ground arith);
          connection_type = (validate_connection_type_iff input.connection_type).0 (ground arith);
        }),
      ),
  λ (same, valid).
      let fits : IsValid is_ip (trimmed input) = rw same at valid in
      rw (
        (validate_name_iff input.name).1 fits.name,
        validate_address_complete is_ip input.address fits.address,
        (validate_connection_type_iff input.connection_type).1 fits.connection_type,
        same,
      ),
)
