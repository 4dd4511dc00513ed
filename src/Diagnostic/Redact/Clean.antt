-- ===== src/Diagnostic/Redact/Clean.antt =====
-- What a redacted JSON value shows.
use gopanel.Common.{◌≡◌, ◌⊎◌, inl, inr, refl, ap, true, false, Bool-cases, Bytes}
use gopanel.Diagnostic.Redact.{
  Json, null, boolean, number, text, array, object, Items, nil, cons, Fields, end, field, redacted,
  is_sensitive_key, redact_json_value, redact_items, redact_fields,
}

module _ (to_lower : Bytes → Bytes) where
  -- At any depth, the value under a sensitive key is the redacted one.
  unfoldable mutual
    pub IsClean : Json → Type 0
    IsClean null = Unit
    IsClean (boolean b) = Unit
    IsClean (number n) = Unit
    IsClean (text s) = Unit
    IsClean (array items) = AreClean items
    IsClean (object fields) = HaveClean fields

    pub AreClean : Items → Type 0
    AreClean nil = Unit
    AreClean (cons child items) = IsClean child × AreClean items

    pub HaveClean : Fields → Type 0
    HaveClean end = Unit
    HaveClean (field key child fields) =
        (((is_sensitive_key to_lower key ≡ true) × (child ≡ redacted))
          ⊎ ((is_sensitive_key to_lower key ≡ false) × IsClean child))
        × HaveClean fields

  mutual
    unfolding redact_json_value IsClean

    value-IsClean : (v : Json) → IsClean (redact_json_value to_lower v)
    value-IsClean null = tt
    value-IsClean (boolean b) = tt
    value-IsClean (number n) = tt
    value-IsClean (text s) = tt
    value-IsClean (array items) = items-AreClean items
    value-IsClean (object fields) = fields-HaveClean fields

    items-AreClean : (items : Items) → AreClean (redact_items to_lower items)
    items-AreClean nil = tt
    items-AreClean (cons child items) = (value-IsClean child, items-AreClean items)

    fields-HaveClean : (fields : Fields) → HaveClean (redact_fields to_lower fields)
    fields-HaveClean end = tt
    fields-HaveClean (field key child fields) = (
      elim (Bool-cases (is_sensitive_key to_lower key)) [
        | inl secret ↦ rw secret (inl (refl, refl))
        | inr plain ↦ rw plain (inr (refl, value-IsClean child))
      ],
      fields-HaveClean fields,
    )

  -- A redacted value has "[REDACTED]" under every sensitive key, at any depth.
  pub redact_json_value-IsClean : (v : Json) → IsClean (redact_json_value to_lower v)
  redact_json_value-IsClean v = value-IsClean v

  mutual
    unfolding redact_json_value

    value_again :
        (v : Json)
        → redact_json_value to_lower (redact_json_value to_lower v) ≡ redact_json_value to_lower v
    value_again null = refl
    value_again (boolean b) = refl
    value_again (number n) = refl
    value_again (text s) = refl
    value_again (array items) = ap array (items_again items)
    value_again (object fields) = ap object (fields_again fields)

    items_again :
        (items : Items)
        → redact_items to_lower (redact_items to_lower items) ≡ redact_items to_lower items
    items_again nil = refl
    items_again (cons child items) = rw (value_again child, items_again items) refl

    fields_again :
        (fields : Fields)
        → redact_fields to_lower (redact_fields to_lower fields) ≡ redact_fields to_lower fields
    fields_again end = refl
    fields_again (field key child fields) = elim (Bool-cases (is_sensitive_key to_lower key)) [
      | inl secret ↦ rw (secret, fields_again fields) refl
      | inr plain ↦ rw (plain, value_again child, fields_again fields) refl
    ]

  -- Redaction twice is redaction once.
  pub redact_json_value_twice :
      (v : Json)
      → redact_json_value to_lower (redact_json_value to_lower v) ≡ redact_json_value to_lower v
  redact_json_value_twice v = value_again v
