-- ===== src/Auth/Csrf.antt =====
-- internal/auth/csrf.go. `hmac` is crypto/hmac with SHA-256, of a key and a message. The random bytes
-- are what rand.Read gives, and a time is in nanoseconds since the Unix epoch.
mod Examples
pub mod Frames
pub mod Login
pub mod Tokens
use gopanel.Common.{
  ℕ, zero, suc, ◌+◌, ◌-◌, ◌*◌, ◌/◌, ◌%◌, ◌^◌, Bool, true, false, not, ◌&&◌, ◌||◌, List, [], ◌∷◌,
  ◌++◌, Option, none, some, Bytes, codes, eqb, length, leb, ltb, ◌==◌, if◌then◌else◌,
}
use gopanel.Common.Base64
use gopanel.Common.Base64.{◌>>=◌}
use gopanel.Common.Decimal
use gopanel.Common.Int.{ℤ, pos, negsuc}
use gopanel.Common.Split.{split}
use gopanel.Auth.RateLimit.{second}
use gopanel.Auth.Password.{require}
use gopanel.Auth.Store.{raw_url_encode}

-- 15 * time.Minute
abbrev pub login_context_lifetime : ℕ
login_context_lifetime = 15 * 60 * second

abbrev pub login_context_domain : Bytes
login_context_domain = codes "gopanel-login-context-v1"

abbrev pub login_token_domain : Bytes
login_token_domain = codes "gopanel-csrf-v1-login"

abbrev pub auth_token_domain : Bytes
auth_token_domain = codes "gopanel-csrf-v1-authenticated"

abbrev pub version : Bytes
version = codes "v1"

-- The last bytes of a number, the first of them first.
unfoldable pub big_endian : (count n : ℕ) → Bytes
big_endian zero n = []
big_endian (suc count) n = big_endian count (n / 256) ++ n % 256 ∷ []

-- `writeFrame`: what it writes. The length is converted to uint64.
unfoldable pub write_frame : Bytes → Bytes
unfolding big_endian
write_frame value = big_endian 8 (length value % 2 ^ 64) ++ value

unfoldable pub write_frames : List Bytes → Bytes
unfolding write_frame
write_frames [] = []
write_frames (field ∷ fields) = write_frame field ++ write_frames fields

-- base64.RawURLEncoding.Strict()
abbrev pub raw_url_decode : Bytes → Option Bytes
raw_url_decode = Base64.decode b'-' b'_'

-- A text that decodes to 32 bytes, which is also sha256.Size.
abbrev pub decode_block : Bytes → Option Bytes
decode_block text = do value ← raw_url_decode text; if length value == 32 then some value else none

-- time.Unix(seconds, 0).After(now): the seconds are counted from the year 1 in an int64, which wraps.
unfoldable pub expires_after : ℤ → ℕ → Bool
expires_after (negsuc seconds) now = false
expires_after (pos seconds) now =
    ltb (seconds + 62_135_596_800) (2 ^ 63) && ltb now (seconds * second)

-- The seconds of a time that is not before the epoch.
abbrev pub unix_seconds : ℤ → ℕ
unix_seconds (pos seconds) = seconds
unix_seconds (negsuc seconds) = 0

abbrev pub is_some : {A : Type 0} → Option A → Bool
is_some none = false
is_some (some _) = true

pub record LoginContext : Type 0 where
  pub cookie : Bytes
  pub token : Bytes
  pub expires : ℕ

module _ (hmac : Bytes → Bytes → Bytes) (key : Bytes) where
  unfoldable pub mac : Bytes → List Bytes → Bytes
  unfolding write_frames
  mac domain fields = hmac key (write_frames (version ∷ domain ∷ fields))

  -- "v1." and the parts behind it.
  unfoldable pub new_token :
      (domain context_value expiration : Bytes) (random : Option Bytes) → Option Bytes
  new_token domain context_value expiration none = none
  new_token domain context_value expiration (some nonce) =
      let encoded = raw_url_encode nonce in
      some (
        version
        ++ (b'.'
            ∷ (encoded
                ++ (b'.'
                    ∷ raw_url_encode (mac domain (context_value ∷ encoded ∷ expiration ∷ []))))))

  -- `validateToken` behind the split.
  unfoldable pub validate_token_parts :
      (domain context_value expiration : Bytes) → List Bytes → Option (Unit {0})
  unfolding mac
  validate_token_parts domain context_value expiration (first ∷ nonce_text ∷ mac_text ∷ []) = do
    _ ← require (eqb first version)
    nonce ← decode_block nonce_text
    provided ← decode_block mac_text
    _ ← require (eqb provided (mac domain (context_value ∷ nonce_text ∷ expiration ∷ [])))
    some tt
  validate_token_parts domain context_value expiration _ = none

  unfoldable pub validate_token : (domain context_value expiration token : Bytes) → Bool
  unfolding validate_token_parts
  validate_token domain context_value expiration token =
      is_some (validate_token_parts domain context_value expiration (split b'.' token))

  -- The seconds of the expiry; the value of the context is not used further.
  unfoldable pub validate_login_parts : ℕ → List Bytes → Option ℤ
  unfolding mac
  validate_login_parts now (first ∷ context_text ∷ exp_text ∷ mac_text ∷ []) = do
    _ ← require (eqb first version)
    context_value ← decode_block context_text
    seconds ← Decimal.parse_int exp_text
    _ ← require (expires_after seconds now)
    provided ← decode_block mac_text
    _ ← require (eqb provided (mac login_context_domain (context_text ∷ exp_text ∷ [])))
    some seconds
  validate_login_parts now _ = none

  unfoldable pub validate_login_context : Bytes → ℕ → Option ℤ
  unfolding validate_login_parts
  validate_login_context value now = validate_login_parts now (split b'.' value)

  -- The two draws of random bytes: for the context, and for the token.
  unfoldable pub new_login_context : ℕ → (random drawn : Option Bytes) → Option LoginContext
  new_login_context now none drawn = none
  new_login_context now (some context_value) drawn =
      let expires = now + login_context_lifetime in
      let encoded_context = raw_url_encode context_value in
      let exp = Decimal.format (expires / second) in
      let cookie =
        version
        ++ (b'.'
            ∷ (encoded_context
                ++ (b'.'
                    ∷ (exp
                        ++ (b'.'
                            ∷ raw_url_encode
                                (mac login_context_domain (encoded_context ∷ exp ∷ []))))))) in
      do
        token ← new_token login_token_domain cookie exp drawn
        some (record { cookie = cookie; token = token; expires = expires })

  unfoldable pub login_token : Bytes → ℕ → (drawn : Option Bytes) → Option Bytes
  login_token cookie now drawn = do
    seconds ← validate_login_context cookie now
    new_token login_token_domain cookie (Decimal.format (unix_seconds seconds)) drawn

  abbrev pub validate_login_at : Bytes → Bytes → Option ℤ → Bool
  validate_login_at cookie token none = false
  validate_login_at cookie token (some seconds) =
      validate_token login_token_domain cookie (Decimal.format (unix_seconds seconds)) token

  unfoldable pub validate_login : (cookie token : Bytes) (now : ℕ) → Bool
  validate_login cookie token now =
      validate_login_at cookie token (validate_login_context cookie now)

  unfoldable pub auth_token : Bytes → (drawn : Option Bytes) → Option Bytes
  unfolding new_token
  auth_token session drawn = new_token auth_token_domain session [] drawn

  unfoldable pub validate_auth : (session token : Bytes) → Bool
  unfolding validate_token
  validate_auth session token =
      not (eqb session []) && validate_token auth_token_domain session [] token
