-- ===== src/Auth/Csrf/Login.antt =====
-- The context and the token of the sign-in form.
use gopanel.Common.{
  ℕ, ◌+◌, ◌*◌, ◌/◌, ◌^◌, ◌≤◌, ◌<◌, ◌≡◌, refl, ap, ◌∙◌, true, ◌&&◌, [], ◌∷◌, ◌++◌, some, Bytes,
  eqb_self, arith, ltb,
}
use gopanel.Common.Split.{split, split-append, split_single}
use gopanel.Common.Decimal
use gopanel.Common.Decimal.{IsDigit, format-IsDigit, parse_int-format}
use gopanel.Common.Int.{pos}
use gopanel.Auth.RateLimit.{second}
use gopanel.Auth.Store.{raw_url_encode}
use gopanel.Auth.Password.RoundTrip.{IsBlock}
use gopanel.Auth.Csrf.{
  login_context_lifetime, login_context_domain, login_token_domain, version, expires_after,
  LoginContext, mac, new_token, validate_login_context, new_login_context, login_token,
  validate_login,
}
use gopanel.Auth.Csrf.Tokens.{
  version-Lacks, encoded-Lacks, digits-Lacks, decode_block-encode, mac-IsBlock,
  validate-new_token_same,
}

-- The time is one whose seconds Go's time holds.
abbrev pub IsNear : ℕ → Type 0
IsNear time = time / second + 62_135_596_800 < 2 ^ 63

module _ (hmac : Bytes → Bytes → Bytes) (key : Bytes)
    (hmac_block : (message : Bytes) → IsBlock 32 (hmac key message)) where
  -- The cookie of a context that ends with these seconds.
  abbrev cookie_of : Bytes → ℕ → Bytes
  cookie_of context_value seconds =
      let text = raw_url_encode context_value in
      let exp = Decimal.format seconds in
      version
      ++ (b'.'
          ∷ (text
              ++ (b'.'
                  ∷ (exp
                      ++ (b'.'
                          ∷ raw_url_encode
                              (mac hmac key login_context_domain (text ∷ exp ∷ [])))))))

  split-cookie :
      (context_value : Bytes) (seconds : ℕ)
      → IsBlock 32 context_value
      → let text = raw_url_encode context_value in
        let exp = Decimal.format seconds in
        split b'.' (cookie_of context_value seconds)
        ≡ version
          ∷ text
          ∷ exp
          ∷ raw_url_encode (mac hmac key login_context_domain (text ∷ exp ∷ []))
          ∷ []
  split-cookie context_value seconds block =
      let text = raw_url_encode context_value in
      let exp = Decimal.format seconds in
      let m = mac hmac key login_context_domain (text ∷ exp ∷ []) in
      let hm = mac-IsBlock hmac key hmac_block login_context_domain (text ∷ exp ∷ []) in
      split-append b'.' version _ version-Lacks
      ∙ ap (λ r. version ∷ r)
          (split-append b'.' text _ (encoded-Lacks context_value block.bytes)
            ∙ ap (λ r. text ∷ r)
                (split-append b'.' exp _ (digits-Lacks exp (format-IsDigit seconds))
                  ∙ ap (λ r. exp ∷ r)
                      (split_single b'.' (raw_url_encode m) (encoded-Lacks m hm.bytes))))

  validate-cookie :
      (context_value : Bytes) (seconds at : ℕ)
      → IsBlock 32 context_value
      → seconds + 62_135_596_800 < 2 ^ 63
      → at < seconds * second
      → validate_login_context hmac key (cookie_of context_value seconds) at ≡ some (pos seconds)
  unfolding validate_login_context expires_after
  validate-cookie context_value seconds at block near before =
      let text = raw_url_encode context_value in
      let exp = Decimal.format seconds in
      let m = mac hmac key login_context_domain (text ∷ exp ∷ []) in
      let hm = mac-IsBlock hmac key hmac_block login_context_domain (text ∷ exp ∷ []) in
      let early : ltb (seconds + 62_135_596_800) (2 ^ 63) && ltb at (seconds * second) ≡ true =
        ground arith in
      rw
        (
          split-cookie context_value seconds block,
          eqb_self version,
          decode_block-encode context_value block,
          parse_int-format seconds (omega arith),
          early,
          decode_block-encode m hm,
          eqb_self m,
        )
        refl

  context_parts :
      (now : ℕ) (context_value nonce : Bytes) (l : LoginContext)
      → new_login_context hmac key now (some context_value) (some nonce) ≡ some l
      → let seconds = (now + login_context_lifetime) / second in
        (l.cookie ≡ cookie_of context_value seconds)
        × (new_token hmac key login_token_domain
              (cookie_of context_value seconds)
              (Decimal.format seconds)
              (some nonce)
            ≡ some l.token)
        × (l.expires ≡ now + login_context_lifetime)
  unfolding new_login_context new_token
  context_parts now context_value nonce l made = ground (arith, made)

  -- The cookie and the token of a new sign-in form are accepted together until a second before they
  -- expire, and so is any token that is made for the cookie by then.
  pub validate-new_login_context :
      (now at later : ℕ) (context_value nonce again renewed : Bytes) (l : LoginContext)
      → IsBlock 32 context_value
      → IsBlock 32 nonce
      → IsBlock 32 again
      → IsNear (now + login_context_lifetime)
      → new_login_context hmac key now (some context_value) (some nonce) ≡ some l
      → at + second ≤ l.expires
      → later + second ≤ l.expires
      → login_token hmac key l.cookie at (some again) ≡ some renewed
      → (validate_login hmac key l.cookie l.token at ≡ true)
        × (validate_login hmac key l.cookie renewed later ≡ true)
  unfolding validate_login login_token
  validate-new_login_context now at later context_value nonce again renewed l hc hn ha near made
        before before_later remade =
      let seconds = (now + login_context_lifetime) / second in
      let (cookie, token, expires) = context_parts now context_value nonce l made in
      let valid =
        validate-cookie context_value seconds at hc near (omega (arith, expires, before)) in
      let valid_later =
        validate-cookie context_value seconds later hc near
          (omega (arith, expires, before_later)) in
      let exp = Decimal.format seconds in
      let same = validate-new_token_same hmac key hmac_block login_token_domain in
      (
        rw (cookie, valid) (same (cookie_of context_value seconds) exp nonce l.token hn token),
        rw (cookie, valid_later)
            (same (cookie_of context_value seconds) exp again renewed ha
              (rw (cookie, valid) at remade)),
      )
