-- ===== src/Diagnostic/Redact.antt =====
-- internal/diagnostic/redact.go: the redaction of a JSON value, as json.Unmarshal gives it.
-- `to_lower` is strings.ToLower. The regular expressions for other texts are not modelled.
pub mod Clean
use gopanel.Common.{
  ℕ, Bool, true, false, ◌||◌, List, [], ◌∷◌, map, Bytes, codes, eqb, ◌==◌, contains, has_prefix,
  has_suffix, if◌then◌else◌,
}

mutual
  -- A value of type `any`.
  pub data Json : Type 0 where
    null : Json
    boolean : Bool → Json
    number : Bytes → Json
    text : Bytes → Json
    array : Items → Json
    object : Fields → Json

  pub data Items : Type 0 where
    nil : Items
    cons : Json → Items → Items

  pub data Fields : Type 0 where
    end : Fields
    field : (key : Bytes) → Json → Fields → Fields

abbrev pub redacted : Json
redacted = text (codes "[REDACTED]")

-- strings.ReplaceAll of "-" by "_"
abbrev underscored : Bytes → Bytes
underscored = map (λ c. if c == b'-' then b'_' else c)

abbrev pub sensitive_markers : List Bytes
sensitive_markers =
    codes "password"
    ∷ codes "passwd"
    ∷ codes "pwd"
    ∷ codes "secret"
    ∷ codes "token"
    ∷ codes "credential"
    ∷ codes "authorization"
    ∷ codes "cookie"
    ∷ []

unfoldable pub contains_any : Bytes → List Bytes → Bool
contains_any s [] = false
contains_any s (marker ∷ markers) = contains s marker || contains_any s markers

module _ (to_lower : Bytes → Bytes) where
  unfoldable pub is_sensitive_key : Bytes → Bool
  is_sensitive_key key =
      let normalized = to_lower (underscored key) in
      contains_any normalized sensitive_markers
      || eqb normalized (codes "auth")
      || eqb normalized (codes "key")
      || has_prefix normalized (codes "auth_")
      || has_suffix normalized (codes "_auth")
      || has_suffix normalized (codes "_key")

  unfoldable mutual
    pub redact_json_value : Json → Json
    redact_json_value null = null
    redact_json_value (boolean b) = boolean b
    redact_json_value (number n) = number n
    redact_json_value (text s) = text s
    redact_json_value (array items) = array (redact_items items)
    redact_json_value (object fields) = object (redact_fields fields)

    pub redact_items : Items → Items
    redact_items nil = nil
    redact_items (cons child items) = cons (redact_json_value child) (redact_items items)

    pub redact_fields : Fields → Fields
    redact_fields end = end
    redact_fields (field key child fields) =
        let value = redact_json_value child in
        field key (if is_sensitive_key key then redacted else value) (redact_fields fields)
