-- ===== src/Auth/Password/RoundTrip.antt =====
-- A stored hash is read back, and a password is accepted exactly if its key is the stored one.
use gopanel.Common.{
  ℕ, ◌≤◌, ◌≡◌, ◌↔◌, inl, refl, true, [], ◌∷◌, ◌++◌, some, Bytes, codes, has_prefix, ap, ◌∙◌, eqb,
  eqb_iff, arith, length, All,
}
use gopanel.Common.Split.{split, split-append, split_single}
use gopanel.Common.Result.{ok}
use gopanel.Common.Base64.{IsByte, IsAlphabet, std, decode-encode, encode-Lacks}
use gopanel.Auth.Password.{
  raw_std_encode, configured_password_parameters, encode_password_hash, parse_parameters,
  decode_parts, decode_password_hash, validate_password, hash_password, verify_password,
  matches_key, argon_iterations, argon_memory, argon_parallelism, argon_output_bytes,
  argon_salt_bytes, minimum_password, maximum_password,
}

standard : IsAlphabet b'+' b'/'
standard = std refl refl

-- Bytes of the given number.
pub record IsBlock (n : ℕ) (s : Bytes) : Type 0 where
  pub count : length s ≡ n
  pub bytes : All IsByte s

parse_configured : parse_parameters (codes "m=19456,t=2,p=1") ≡ some configured_password_parameters
unfolding parse_parameters split has_prefix
parse_configured = refl

split_encoded :
    (salt hash : Bytes)
    → All IsByte salt
    → All IsByte hash
    → split b'$' (encode_password_hash salt hash)
      ≡ []
        ∷ codes "argon2id"
        ∷ codes "v=19"
        ∷ codes "m=19456,t=2,p=1"
        ∷ raw_std_encode salt
        ∷ raw_std_encode hash
        ∷ []
unfolding encode_password_hash
split_encoded salt hash hs hh =
    let keys : Bytes = raw_std_encode salt ++ b'$' ∷ raw_std_encode hash in
    split-append b'$' [] (codes "argon2id$v=19$m=19456,t=2,p=1$" ++ keys) tt
    ∙ ap (λ r. [] ∷ r)
        (split-append b'$' (codes "argon2id") (codes "v=19$m=19456,t=2,p=1$" ++ keys) (omega arith)
          ∙ ap (λ r. codes "argon2id" ∷ r)
              (split-append b'$' (codes "v=19") (codes "m=19456,t=2,p=1$" ++ keys) (omega arith)
                ∙ ap (λ r. codes "v=19" ∷ r)
                    (split-append b'$' (codes "m=19456,t=2,p=1") keys (omega arith)
                      ∙ ap (λ r. codes "m=19456,t=2,p=1" ∷ r)
                          (split-append b'$' (raw_std_encode salt) (raw_std_encode hash)
                              (encode-Lacks b'+' b'/' standard b'$' salt (inl refl) hs)
                            ∙ ap (λ r. raw_std_encode salt ∷ r)
                                (split_single b'$' (raw_std_encode hash)
                                  (encode-Lacks b'+' b'/' standard b'$' hash (inl refl) hh))))))

decode_encoded_parts :
    (salt hash : Bytes)
    → IsBlock argon_salt_bytes salt
    → IsBlock argon_output_bytes hash
    → decode_parts (
        []
        ∷ codes "argon2id"
        ∷ codes "v=19"
        ∷ codes "m=19456,t=2,p=1"
        ∷ raw_std_encode salt
        ∷ raw_std_encode hash
        ∷ [])
      ≡ some (record { parameters = configured_password_parameters; salt = salt; hash = hash })
unfolding decode_parts eqb
decode_encoded_parts salt hash hs hh = rw (
  parse_configured,
  decode-encode b'+' b'/' standard salt hs.bytes,
  hs.count,
  decode-encode b'+' b'/' standard hash hh.bytes,
  hh.count,
)

-- A hash that is stored with a salt of 16 bytes and a key of 32 is read back whole.
pub decode-encode_password_hash :
    (salt hash : Bytes)
    → IsBlock argon_salt_bytes salt
    → IsBlock argon_output_bytes hash
    → decode_password_hash (encode_password_hash salt hash)
      ≡ some (record { parameters = configured_password_parameters; salt = salt; hash = hash })
unfolding decode_password_hash
decode-encode_password_hash salt hash hs hh =
    rw (split_encoded salt hash hs.bytes hh.bytes) (decode_encoded_parts salt hash hs hh)

module _ (id_key : (password salt : Bytes) (iterations memory parallelism key_length : ℕ) → Bytes)
    (salt : Bytes) (salt_ok : IsBlock argon_salt_bytes salt) where
  -- The key of a password under the salt and the configured parameters.
  abbrev pub key_of : Bytes → Bytes
  key_of password =
      id_key password salt argon_iterations argon_memory argon_parallelism argon_output_bytes

  matches_stored :
      (password attempt : Bytes)
      → IsBlock argon_output_bytes (key_of password)
      → matches_key id_key attempt
          (decode_password_hash (encode_password_hash salt (key_of password)))
        ≡ eqb (key_of attempt) (key_of password)
  unfolding matches_key
  matches_stored password attempt key_ok =
      rw (decode-encode_password_hash salt (key_of password) salt_ok key_ok, key_ok.count)

  -- Under a salt of 16 bytes, a password of 12 to 1024 bytes with a key of 32 bytes is hashed, and the
  -- hash then accepts exactly the passwords of at most 1024 bytes that have the same key.
  pub verify-hash_password :
      (password attempt : Bytes)
      → IsBlock argon_output_bytes (key_of password)
      → minimum_password ≤ length password
      → length password ≤ maximum_password
      → (hash_password id_key (some salt) password
          ≡ ok (encode_password_hash salt (key_of password)))
        × ((verify_password id_key (encode_password_hash salt (key_of password)) attempt ≡ true)
            ↔ ((length attempt ≤ maximum_password) × (key_of attempt ≡ key_of password)))
  unfolding hash_password verify_password validate_password
  verify-hash_password password attempt key_ok least most = (
    ground arith,
    ground
        (arith, matches_stored password attempt key_ok, eqb_iff (key_of attempt) (key_of password)),
  )
