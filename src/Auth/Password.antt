-- ===== src/Auth/Password.antt =====
-- internal/auth/password.go. `id_key` stands for argon2.IDKey of golang.org/x/crypto, given the
-- password, salt, iterations, memory, parallelism and the length of the key.
pub mod RoundTrip
use gopanel.Common.{
  ℕ, zero, suc, ◌+◌, ◌-◌, ◌*◌, ◌^◌, Bool, true, false, not, ◌&&◌, ◌||◌, List, [], ◌∷◌, ◌++◌, Option,
  none, some, Bytes, codes, eqb, has_prefix, length, drop, leb, ltb, ◌==◌, if◌then◌else◌,
}
use gopanel.Common.Split.{split}
use gopanel.Common.Result.{Result, ok, err}
use gopanel.Common.Base64
use gopanel.Common.Base64.{◌>>=◌}

abbrev pub argon_memory : ℕ
argon_memory = 19 * 1024

abbrev pub argon_iterations : ℕ
argon_iterations = 2

abbrev pub argon_parallelism : ℕ
argon_parallelism = 1

abbrev pub argon_salt_bytes : ℕ
argon_salt_bytes = 16

abbrev pub argon_output_bytes : ℕ
argon_output_bytes = 32

abbrev pub minimum_password : ℕ
minimum_password = 12

abbrev pub maximum_password : ℕ
maximum_password = 1024

pub data PasswordError : Type 0 where
  too_short too_long salt_failed : PasswordError

pub record PasswordParameters : Type 0 where
  pub memory : ℕ
  pub iterations : ℕ
  pub parallelism : ℕ

abbrev pub configured_password_parameters : PasswordParameters
configured_password_parameters = record {
  memory = argon_memory;
  iterations = argon_iterations;
  parallelism = argon_parallelism;
}

unfoldable pub validate_password : Bytes → Option PasswordError
validate_password password =
    if ltb (length password) minimum_password
    then some too_short
    else if ltb maximum_password (length password)
    then some too_long
    else none

-- base64.RawStdEncoding
abbrev pub raw_std_encode : Bytes → Bytes
raw_std_encode = Base64.encode b'+' b'/'

abbrev pub raw_std_decode : Bytes → Option Bytes
raw_std_decode = Base64.decode b'+' b'/'

-- "$argon2id$v=%d$m=%d,t=%d,p=%d$%s$%s" with argon2.Version, which is 19, and the parameters.
unfoldable pub encode_password_hash : Bytes → Bytes → Bytes
encode_password_hash salt hash =
    codes "$argon2id$v=19$m=19456,t=2,p=1$"
    ++ (raw_std_encode salt ++ (codes "$" ++ raw_std_encode hash))

-- make([]byte, n)
abbrev zeros : ℕ → Bytes
zeros zero = []
zeros (suc n) = 0 ∷ zeros n

-- strings.TrimPrefix
abbrev trim_prefix : Bytes → Bytes → Bytes
trim_prefix s p = if has_prefix s p then drop (length p) s else s

parse_digits : (limit n : ℕ) → Bytes → Option ℕ
parse_digits limit n [] = if ltb n limit then some n else none
parse_digits limit n (c ∷ s) =
    if leb b'0' c && leb c b'9' then parse_digits limit (n * 10 + (c - b'0')) s else none

-- strconv.ParseUint in base 10 at a size of `bits`.
unfoldable pub parse_uint : ℕ → Bytes → Option ℕ
unfolding parse_digits
parse_uint bits [] = none
parse_uint bits (c ∷ s) = parse_digits (2 ^ bits) 0 (c ∷ s)

unfoldable pub parse_parts : List Bytes → Option PasswordParameters
unfolding parse_uint
parse_parts (m ∷ t ∷ p ∷ []) = do
  memory ← parse_uint 32 (trim_prefix m (codes "m="))
  iterations ← parse_uint 32 (trim_prefix t (codes "t="))
  parallelism ← parse_uint 8 (trim_prefix p (codes "p="))
  some (record { memory = memory; iterations = iterations; parallelism = parallelism })
parse_parts _ = none

unfoldable pub parse_parameters : Bytes → Option PasswordParameters
unfolding parse_parts
parse_parameters value = parse_parts (split b',' value)

abbrev pub same_parameters : PasswordParameters → PasswordParameters → Bool
same_parameters p q =
    p.memory == q.memory && p.iterations == q.iterations && p.parallelism == q.parallelism

pub record Decoded : Type 0 where
  pub parameters : PasswordParameters
  pub salt : Bytes
  pub hash : Bytes

abbrev pub require : Bool → Option (Unit {0})
require true = some tt
require false = none

-- `decodePasswordHash` behind the split; `none` stands for the errors.
unfoldable pub decode_parts : List Bytes → Option Decoded
unfolding parse_parameters
decode_parts (_ ∷ kind ∷ version ∷ costs ∷ salt_text ∷ hash_text ∷ []) = do
  _ ← require (eqb kind (codes "argon2id") && eqb version (codes "v=19"))
  parameters ← parse_parameters costs
  _ ← require (same_parameters parameters configured_password_parameters)
  salt ← raw_std_decode salt_text
  _ ← require (length salt == argon_salt_bytes)
  hash ← raw_std_decode hash_text
  _ ← require (length hash == argon_output_bytes)
  some (record { parameters = parameters; salt = salt; hash = hash })
decode_parts _ = none

unfoldable pub decode_password_hash : Bytes → Option Decoded
unfolding decode_parts
decode_password_hash encoded = decode_parts (split b'$' encoded)

module _
    (id_key : (password salt : Bytes) (iterations memory parallelism key_length : ℕ) → Bytes) where
  -- The salt is what rand.Read gives; `none` if it fails.
  unfoldable pub hash_password : Option Bytes → Bytes → Result PasswordError Bytes
  hash_password random password = elim (validate_password password) [
    | some e ↦ err e
    | none ↦ elim random [
      | none ↦ err salt_failed
      | some salt ↦ ok (
          encode_password_hash salt (
            id_key password salt argon_iterations argon_memory argon_parallelism
              argon_output_bytes))
    ]
  ]

  matches_key : Bytes → Option Decoded → Bool
  matches_key password none = false
  matches_key password (some d) =
      eqb
        (id_key password d.salt d.parameters.iterations d.parameters.memory d.parameters.parallelism
          (length d.hash))
        d.hash

  -- subtle.ConstantTimeCompare is 1 exactly for equal contents.
  unfoldable pub verify_password : Bytes → Bytes → Bool
  unfolding matches_key
  verify_password encoded password =
      if ltb maximum_password (length password)
      then false
      else matches_key password (decode_password_hash encoded)

  -- `mustDummyPasswordHash`: a fixed password under a salt of zeros.
  unfoldable pub dummy_password_hash : Bytes
  dummy_password_hash =
      let salt : Bytes = zeros argon_salt_bytes in
      encode_password_hash salt (
        id_key (codes "not-a-user-password") salt argon_iterations argon_memory argon_parallelism
          argon_output_bytes)

  unfoldable pub verify_unknown_password : Bytes → Bool
  verify_unknown_password password = verify_password dummy_password_hash password
