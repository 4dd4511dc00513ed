-- ===== src/Common/Base64.antt =====
-- encoding/base64 without padding: RawStdEncoding and RawURLEncoding, decoded by Strict(). The last
-- two digits of the alphabet are the parameters. As in Go, the decoder passes over "\r" and "\n",
-- and Strict() refuses trailing bits that are not 0.
use mathlib.Core.Path.{◌≡◌, refl}
use mathlib.Core.Logic.{◌⊎◌, inl, inr}
use mathlib.Core.Bool.{◌||◌, ◌&&◌}
use mathlib.Core.Option.{Option, none, some}
use mathlib.Core.List.{List, [], ◌∷◌, map}
use Prim.Native.Nat.{ℕ, ◌+◌, ◌-◌, ◌*◌, ◌/◌, ◌%◌, ◌<◌, ◌≤◌}
use native.Mathlib.Omega.{arith}
use gopanel.Common.Tests.{◌==◌, ltb, leb, if◌then◌else◌}
use gopanel.Common.Lists.{All, length, length-map}
use gopanel.Common.Text.{Bytes}
use gopanel.Common.Split.{Lacks}

infixl 5 ◌>>=◌
abbrev pub ◌>>=◌ {ℓ κ} : {A : Type ℓ} {B : Type κ} → Option A → (A → Option B) → Option B
none >>= f = none
some a >>= f = f a

-- Groups of six bits.
sextets : Bytes → List ℕ
sextets [] = []
sextets (a ∷ []) = (a / 4) ∷ (a % 4 * 16) ∷ []
sextets (a ∷ b ∷ []) = (a / 4) ∷ (a % 4 * 16 + b / 16) ∷ (b % 16 * 4) ∷ []
sextets (a ∷ b ∷ c ∷ s) =
    (a / 4) ∷ (a % 4 * 16 + b / 16) ∷ (b % 16 * 4 + c / 64) ∷ (c % 64) ∷ sextets s

octets : List ℕ → Option Bytes
octets [] = some []
octets (x ∷ []) = none
octets (x ∷ y ∷ []) = if y % 16 == 0 then some ((x * 4 + y / 16) ∷ []) else none
octets (x ∷ y ∷ z ∷ []) =
    if z % 4 == 0 then some ((x * 4 + y / 16) ∷ (y % 16 * 16 + z / 4) ∷ []) else none
octets (x ∷ y ∷ z ∷ w ∷ s) = do
  rest ← octets s
  some ((x * 4 + y / 16) ∷ (y % 16 * 16 + z / 4) ∷ (z % 4 * 64 + w) ∷ rest)

-- A byte.
abbrev pub IsByte : ℕ → Type 0
IsByte c = c < 256

octets-sextets : (s : Bytes) → All IsByte s → octets (sextets s) ≡ some s
unfolding octets sextets
octets-sextets [] h = refl
octets-sextets (a ∷ []) h = ground arith
octets-sextets (a ∷ b ∷ []) h = ground arith
octets-sextets (a ∷ b ∷ c ∷ s) (ha, (hb, (hc, h))) = rw (octets-sextets s h) (ground arith)

sextets-lt : (s : Bytes) → All IsByte s → All (λ v. v < 64) (sextets s)
unfolding sextets
sextets-lt [] h = tt
sextets-lt (a ∷ []) h = omega arith
sextets-lt (a ∷ b ∷ []) h = omega arith
sextets-lt (a ∷ b ∷ c ∷ s) (ha, (hb, (hc, h))) =
    (omega arith, (omega arith, (omega arith, (omega arith, sextets-lt s h))))

length-sextets-le : (s : Bytes) → length (sextets s) ≤ 2 * length s
unfolding sextets
length-sextets-le [] = omega arith
length-sextets-le (a ∷ []) = omega arith
length-sextets-le (a ∷ b ∷ []) = omega arith
length-sextets-le (a ∷ b ∷ c ∷ s) = omega (arith, length-sextets-le s)

module _ (plus slash : ℕ) where
  digit : ℕ → ℕ
  digit v =
      if ltb v 26
      then b'A' + v
      else if ltb v 52
      then b'a' + (v - 26)
      else if ltb v 62
      then b'0' + (v - 52)
      else if v == 62
      then plus
      else slash

  value : ℕ → Option ℕ
  value c =
      if leb b'A' c && leb c b'Z'
      then some (c - b'A')
      else if leb b'a' c && leb c b'z'
      then some (c - b'a' + 26)
      else if leb b'0' c && leb c b'9'
      then some (c - b'0' + 52)
      else if c == plus
      then some 62
      else if c == slash
      then some 63
      else none

  -- The digits' values, past line ends.
  values : Bytes → Option (List ℕ)
  unfolding value
  values [] = some []
  values (c ∷ s) =
      let rest = values s in
      if c == 10 || c == 13 then rest else (do v ← value c; vs ← rest; some (v ∷ vs))

  unfoldable pub encode : Bytes → Bytes
  unfolding digit sextets
  encode s = map digit (sextets s)

  unfoldable pub decode : Bytes → Option Bytes
  unfolding values octets
  decode s = do vs ← values s; octets vs

  pub length-encode-le : (s : Bytes) → length (encode s) ≤ 2 * length s
  unfolding encode
  length-encode-le s = omega (arith, length-map digit (sextets s), length-sextets-le s)

-- The two alphabets' last digits.
pub data IsAlphabet : ℕ → ℕ → Type 0 where
  std : {plus slash : ℕ} → plus ≡ b'+' → slash ≡ b'/' → IsAlphabet plus slash
  url : {plus slash : ℕ} → plus ≡ b'-' → slash ≡ b'_' → IsAlphabet plus slash

module _ (plus slash : ℕ) (alphabet : IsAlphabet plus slash) where
  apart : (plus ≡ b'+') × (slash ≡ b'/') ⊎ (plus ≡ b'-') × (slash ≡ b'_')
  apart = go alphabet
    where
      go : IsAlphabet plus slash → (plus ≡ b'+') × (slash ≡ b'/') ⊎ (plus ≡ b'-') × (slash ≡ b'_')
      go (std p q) = inl (p, q)
      go (url p q) = inr (p, q)

  values-digits :
      (vs : List ℕ) → All (λ v. v < 64) vs → values plus slash (map (digit plus slash) vs) ≡ some vs
  unfolding values digit
  values-digits [] h = refl
  values-digits (v ∷ vs) (hv, h) = rw (values-digits vs h) (ground (arith, apart))

  -- Decoding undoes encoding.
  pub decode-encode : (s : Bytes) → All IsByte s → decode plus slash (encode plus slash s) ≡ some s
  unfolding decode encode
  decode-encode s h = rw (values-digits (sextets s) (sextets-lt s h)) (octets-sextets s h)

  digits-Lacks :
      (sep : ℕ) (vs : List ℕ)
      → (sep ≡ b'$') ⊎ (sep ≡ b'.')
      → All (λ v. v < 64) vs
      → Lacks sep (map (digit plus slash) vs)
  unfolding digit
  digits-Lacks sep [] e h = tt
  digits-Lacks sep (v ∷ vs) e (hv, h) = (ground (arith, apart), digits-Lacks sep vs e h)

  -- An encoded text holds no "$" and no ".".
  pub encode-Lacks :
      (sep : ℕ) (s : Bytes)
      → (sep ≡ b'$') ⊎ (sep ≡ b'.')
      → All IsByte s
      → Lacks sep (encode plus slash s)
  unfolding encode
  encode-Lacks sep s e h = digits-Lacks sep (sextets s) e (sextets-lt s h)
