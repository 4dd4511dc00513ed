-- ===== src/Auth/Csrf/Tokens.antt =====
-- What tokens are accepted.
use gopanel.Common.{
  ◌≡◌, ◌≢◌, ◌⊎◌, inl, inr, refl, sym, ap, ◌∙◌, Bool, true, false, List, [], ◌∷◌, ◌++◌, some, Bytes,
  not, ◌&&◌, eqb, eqb_iff, eqb_self, arith, Bool-cases, All,
}
use gopanel.Common.Split.{split, split-append, split_single, Lacks}
use gopanel.Common.Base64.{
  ◌>>=◌, IsByte, IsAlphabet, url, decode-encode, encode-Lacks, length-encode-le,
}
use gopanel.Common.Decimal.{IsDigit}
use gopanel.Auth.Store.{raw_url_encode}
use gopanel.Auth.Password.{require}
use gopanel.Auth.Password.RoundTrip.{IsBlock}
use gopanel.Auth.Csrf.{
  auth_token_domain, version, write_frames, decode_block, mac, new_token, is_some, validate_token,
  auth_token, validate_auth,
}
use gopanel.Auth.Csrf.Frames.{IsFramable, write_frames-injective}

url-IsAlphabet : IsAlphabet b'-' b'_'
url-IsAlphabet = url refl refl

pub encoded-Lacks : (s : Bytes) → All IsByte s → Lacks b'.' (raw_url_encode s)
encoded-Lacks s h = encode-Lacks b'-' b'_' url-IsAlphabet b'.' s (inr refl) h

pub decode_block-encode : (s : Bytes) → IsBlock 32 s → decode_block (raw_url_encode s) ≡ some s
decode_block-encode s h = rw (decode-encode b'-' b'_' url-IsAlphabet s h.bytes, h.count) refl

pub digits-Lacks : (s : Bytes) → All IsDigit s → Lacks b'.' s
digits-Lacks [] h = tt
digits-Lacks (c ∷ s) (hc, h) = (omega arith, digits-Lacks s h)

pub version-Lacks : Lacks b'.' version
version-Lacks = omega arith

token_fields :
    (v d c t e d' c' e' : Bytes)
    → v ∷ d ∷ c ∷ t ∷ e ∷ [] ≡ v ∷ d' ∷ c' ∷ t ∷ e' ∷ []
    → (d ≡ d') × (c ≡ c') × (e ≡ e')
token_fields v d c t e d' c' e' h = (cc, cc, cc)

is_some-require : (b : Bool) → is_some (require b >>= λ _. some (tt {0})) ≡ b
is_some-require true = refl
is_some-require false = refl

-- The message that the MAC of a token is of.
abbrev pub message : (domain context_value expiration nonce : Bytes) → Bytes
message d c e nonce = write_frames (version ∷ d ∷ c ∷ raw_url_encode nonce ∷ e ∷ [])

encoded-IsFramable : (nonce : Bytes) → IsBlock 32 nonce → IsFramable (raw_url_encode nonce)
encoded-IsFramable nonce block = omega (arith, length-encode-le b'-' b'_' nonce, block.count)

-- The messages differ unless the token is for the same domain, context and expiration.
message-differs :
    (d c e d' c' e' nonce : Bytes)
    → IsBlock 32 nonce
    → All IsFramable (d ∷ c ∷ e ∷ [])
    → All IsFramable (d' ∷ c' ∷ e' ∷ [])
    → ((d ≡ d') × (c ≡ c') × (e ≡ e')) ⊎ (message d c e nonce ≢ message d' c' e' nonce)
message-differs d c e d' c' e' nonce block (hd, (hc, (he, _))) (hd', (hc', (he', _))) =
    let text = raw_url_encode nonce in
    let ht = encoded-IsFramable nonce block in
    let xs : List Bytes = version ∷ d ∷ c ∷ text ∷ e ∷ [] in
    let ys : List Bytes = version ∷ d' ∷ c' ∷ text ∷ e' ∷ [] in
    let decided = eqb_iff (write_frames xs) (write_frames ys) in
    elim (Bool-cases (eqb (write_frames xs) (write_frames ys))) [
      | inl same ↦
          let fields =
            write_frames-injective xs ys (omega arith, (hd, (hc, (ht, (he, tt)))))
              (omega arith, (hd', (hc', (ht, (he', tt))))) (decided.0 same) in
          inl (token_fields version d c text e d' c' e' fields)
      | inr other ↦ inr (λ q. absurd (ground (arith, decided.1 q)))
    ]

module _ (hmac : Bytes → Bytes → Bytes) (key : Bytes)
    (hmac_block : (message : Bytes) → IsBlock 32 (hmac key message)) where
  pub mac-IsBlock : (domain : Bytes) (fields : List Bytes) → IsBlock 32 (mac hmac key domain fields)
  unfolding mac
  mac-IsBlock domain fields = hmac_block _

  -- A new token is accepted exactly if both MACs are the same.
  validate-new_token :
      (d c e d' c' e' nonce token : Bytes)
      → IsBlock 32 nonce
      → new_token hmac key d c e (some nonce) ≡ some token
      → validate_token hmac key d' c' e' token
        ≡ eqb
            (mac hmac key d (c ∷ raw_url_encode nonce ∷ e ∷ []))
            (mac hmac key d' (c' ∷ raw_url_encode nonce ∷ e' ∷ []))
  unfolding new_token validate_token
  validate-new_token d c e d' c' e' nonce token block made =
      let text = raw_url_encode nonce in
      let m = mac hmac key d (c ∷ text ∷ e ∷ []) in
      let hm = mac-IsBlock d (c ∷ text ∷ e ∷ []) in
      let same : version ++ b'.' ∷ (text ++ b'.' ∷ raw_url_encode m) ≡ token =
        ground (arith, made) in
      let parts : split b'.' token ≡ version ∷ text ∷ raw_url_encode m ∷ [] =
        ap (split b'.') (sym same)
        ∙ split-append b'.' version _ version-Lacks
        ∙ ap (λ r. version ∷ r)
            (split-append b'.' text _ (encoded-Lacks nonce block.bytes)
              ∙ ap (λ r. text ∷ r)
                  (split_single b'.' (raw_url_encode m) (encoded-Lacks m hm.bytes))) in
      rw (parts, decode_block-encode nonce block, decode_block-encode m hm, eqb_self version)
        (is_some-require _)

  -- A token that is made for a domain, a context and an expiration is accepted for others exactly if
  -- the MACs of the message of the one and of the other are equal, and these two messages are
  -- different unless domain, context and expiration are the same. The texts are shorter than 2 ^ 64
  -- bytes, and the nonce and each MAC have 32 bytes.
  pub validate-new_token_only :
      (d c e d' c' e' nonce token : Bytes)
      → IsBlock 32 nonce
      → All IsFramable (d ∷ c ∷ e ∷ [])
      → All IsFramable (d' ∷ c' ∷ e' ∷ [])
      → new_token hmac key d c e (some nonce) ≡ some token
      → (validate_token hmac key d' c' e' token
          ≡ eqb (hmac key (message d c e nonce)) (hmac key (message d' c' e' nonce)))
        × (((d ≡ d') × (c ≡ c') × (e ≡ e')) ⊎ (message d c e nonce ≢ message d' c' e' nonce))
  unfolding mac
  validate-new_token_only d c e d' c' e' nonce token block h h' made = (
    validate-new_token d c e d' c' e' nonce token block made,
    message-differs d c e d' c' e' nonce block h h',
  )

  -- A new token is accepted for what it was made for.
  pub validate-new_token_same :
      (d c e nonce token : Bytes)
      → IsBlock 32 nonce
      → new_token hmac key d c e (some nonce) ≡ some token
      → validate_token hmac key d c e token ≡ true
  validate-new_token_same d c e nonce token block made =
      validate-new_token d c e d c e nonce token block made ∙ eqb_self _

  -- A token for a session is accepted with that session. With another one, that is not empty, it is
  -- accepted exactly if the MACs of the message for the one and of the message for the other are
  -- equal, and these are different messages. The first session is not empty, both are shorter than
  -- 2 ^ 64 bytes, and the nonce and each MAC have 32 bytes.
  pub validate-auth_token :
      (session other nonce token : Bytes)
      → session ≢ []
      → IsFramable session
      → IsFramable other
      → IsBlock 32 nonce
      → auth_token hmac key session (some nonce) ≡ some token
      → let made_for = message auth_token_domain session [] nonce in
        let shown_with = message auth_token_domain other [] nonce in
        (validate_auth hmac key session token ≡ true)
        × (validate_auth hmac key other token
            ≡ not (eqb other []) && eqb (hmac key made_for) (hmac key shown_with))
        × ((session ≡ other) ⊎ (made_for ≢ shown_with))
  unfolding auth_token validate_auth
  validate-auth_token session other nonce token given hs ho block made =
      let domain = auth_token_domain in
      let (accepted, differ) =
        validate-new_token_only domain session [] domain other [] nonce token block
          (omega arith, (hs, (omega arith, tt))) (omega arith, (ho, (omega arith, tt))) made in
      (
        ground (
          arith,
          eqb_iff session [],
          validate-new_token_same domain session [] nonce token block made,
          given,
        ),
        ap (λ b. not (eqb other []) && b) accepted,
        elim differ [ inl (d, c, e) ↦ inl c | inr different ↦ inr different ],
      )
