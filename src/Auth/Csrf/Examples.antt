-- ===== src/Auth/Csrf/Examples.antt =====
-- The theorems on the tokens of forms at concrete inputs.
use gopanel.Common.{
  ℕ, ◌+◌, ◌*◌, ◌≤◌, ◌≡◌, ◌≢◌, ◌⊎◌, refl, true, not, ◌&&◌, [], ◌∷◌, ◌++◌, Option, none, some, Bytes,
  codes, arith, eqb,
}
use gopanel.Common.Split.{split}
use gopanel.Common.Base64
use gopanel.Common.Decimal
use gopanel.Auth.RateLimit.{second}
use gopanel.Auth.Password.RoundTrip.{IsBlock}
use gopanel.Auth.Store.{raw_url_encode}
use gopanel.Auth.Samples.{salt, toy_hmac, toy_hmac-IsBlock}
use gopanel.Auth.Csrf.{
  login_context_lifetime, auth_token_domain, version, write_frames, write_frame, big_endian,
  LoginContext, expires_after, mac, new_token, validate_token, validate_login_parts,
  validate_login_context, new_login_context, login_token, validate_login, auth_token, validate_auth,
}
use gopanel.Auth.Csrf.Frames.{write_frames-injective}
use gopanel.Auth.Csrf.Tokens.{message, validate-new_token_only, validate-auth_token}
use gopanel.Auth.Csrf.Login.{IsNear, validate-new_login_context}

abbrev key : Bytes
key = codes "key"

abbrev nonce : Bytes
nonce = salt ++ salt

nonce-IsBlock : IsBlock 32 nonce
nonce-IsBlock = record { count = refl; bytes = omega arith }

abbrev session : Bytes
session = codes "session"

abbrev token : Bytes
token =
    version
    ++ (b'.'
        ∷ (raw_url_encode nonce
            ++ (b'.'
                ∷ raw_url_encode (
                    toy_hmac key (
                      write_frames (
                        version ∷ auth_token_domain ∷ session ∷ raw_url_encode nonce ∷ [] ∷ []))))))

made : new_token toy_hmac key auth_token_domain session [] (some nonce) ≡ some token
unfolding new_token mac
made = refl

write_frames-injective_example : codes "a" ∷ codes "bc" ∷ [] ≡ codes "a" ∷ codes "bc" ∷ []
write_frames-injective_example =
    write_frames-injective (codes "a" ∷ codes "bc" ∷ []) (codes "a" ∷ codes "bc" ∷ [])
      (omega arith, (omega arith, tt)) (omega arith, (omega arith, tt)) refl

abbrev no_context : Bytes
no_context = []

abbrev other_session : Bytes
other_session = codes "other session"

validate-new_token_only_example :
    (validate_token toy_hmac key auth_token_domain other_session no_context token
      ≡ eqb
          (toy_hmac key (message auth_token_domain session no_context nonce))
          (toy_hmac key (message auth_token_domain other_session no_context nonce)))
    × (((auth_token_domain ≡ auth_token_domain)
          × (session ≡ other_session)
          × (no_context ≡ no_context))
        ⊎ (message auth_token_domain session no_context nonce
            ≢ message auth_token_domain other_session no_context nonce))
validate-new_token_only_example =
    validate-new_token_only toy_hmac key (toy_hmac-IsBlock key) auth_token_domain session []
      auth_token_domain other_session [] nonce token nonce-IsBlock
      (omega arith, (omega arith, (omega arith, tt)))
      (omega arith, (omega arith, (omega arith, tt))) made

auth_made : auth_token toy_hmac key session (some nonce) ≡ some token
unfolding auth_token
auth_made = made

validate-auth_token_example :
    (validate_auth toy_hmac key session token ≡ true)
    × (validate_auth toy_hmac key other_session token
        ≡ not (eqb other_session [])
          && eqb
              (toy_hmac key (message auth_token_domain session no_context nonce))
              (toy_hmac key (message auth_token_domain other_session no_context nonce)))
    × ((session ≡ other_session)
        ⊎ (message auth_token_domain session no_context nonce
            ≢ message auth_token_domain other_session no_context nonce))
validate-auth_token_example =
    validate-auth_token toy_hmac key (toy_hmac-IsBlock key) session other_session nonce token
      (λ q. absurd (ground (arith, q))) (omega arith) (omega arith) nonce-IsBlock auth_made

abbrev start : ℕ
start = 1000 * second

abbrev or_context : Option LoginContext → LoginContext
or_context none = record { cookie = []; token = []; expires = 0 }
or_context (some l) = l

abbrev context : LoginContext
context = or_context (new_login_context toy_hmac key start (some nonce) (some nonce))

abbrev or_nothing : Option Bytes → Bytes
or_nothing none = []
or_nothing (some value) = value

abbrev renewed : Bytes
renewed = or_nothing (login_token toy_hmac key context.cookie (start + second) (some nonce))

context_made : new_login_context toy_hmac key start (some nonce) (some nonce) ≡ some context
unfolding new_login_context new_token
context_made = refl

renewed_made : login_token toy_hmac key context.cookie (start + second) (some nonce) ≡ some renewed
unfolding login_token new_login_context new_token validate_login_context validate_login_parts mac
    split Base64.encode Base64.decode eqb write_frames write_frame big_endian Decimal.format
    Decimal.digits Decimal.parse_int expires_after
renewed_made = refl

context-IsNear : IsNear (start + login_context_lifetime)
context-IsNear = omega arith

abbrev later : ℕ
later = start + 60 * second

before_end : ((start + second) + second ≤ context.expires) × (later + second ≤ context.expires)
unfolding new_login_context new_token
before_end = omega arith

validate-new_login_context_example :
    (validate_login toy_hmac key context.cookie context.token (start + second) ≡ true)
    × (validate_login toy_hmac key context.cookie renewed later ≡ true)
validate-new_login_context_example =
    validate-new_login_context toy_hmac key (toy_hmac-IsBlock key) start (start + second) later
      nonce nonce nonce renewed context nonce-IsBlock nonce-IsBlock nonce-IsBlock context-IsNear
      context_made before_end.0 before_end.1 renewed_made
