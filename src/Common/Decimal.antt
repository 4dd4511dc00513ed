-- ===== src/Common/Decimal.antt =====
-- strconv.FormatInt of a number that is not negative, strconv.ParseInt in 64 bits and strconv.Atoi,
-- in base 10.
use mathlib.Core.Path.{◌≡◌, refl}
use mathlib.Core.Logic.{◌≢◌, inl, inr}
use mathlib.Core.Bool.{Bool, true, false, ◌||◌, ◌&&◌}
use mathlib.Core.Option.{Option, none, some}
use mathlib.Core.List.{[], ◌∷◌}
use Prim.Native.Nat.{ℕ, zero, suc, ◌+◌, ◌-◌, ◌*◌, ◌/◌, ◌%◌, ◌^◌, ◌≤◌, ◌<◌}
use native.Mathlib.Omega.{arith}
use gopanel.Common.Tests.{Bool-cases, ◌==◌, ltb, leb, if◌then◌else◌}
use gopanel.Common.Lists.{All, null}
use gopanel.Common.Text.{Bytes}
use gopanel.Common.Int.{ℤ, pos, negsuc}

-- The loop over the digits, for at most `rounds` of them.
emit : (rounds n : ℕ) → Bytes → Bytes
emit zero n out = out
emit (suc rounds) n out = elim (n == 0) [
  | true ↦ out
  | false ↦ emit rounds (n / 10) ((b'0' + n % 10) ∷ out)
]

-- There are no more digits than the number.
unfoldable pub format : ℕ → Bytes
unfolding emit
format n = if n == 0 then b'0' ∷ [] else emit n n []

unfoldable pub digits : ℕ → Bytes → Option ℕ
digits n [] = some n
digits n (c ∷ s) = if leb b'0' c && leb c b'9' then digits (n * 10 + (c - b'0')) s else none

-- The value behind a sign, in 64 bits.
abbrev signed : Bool → Option ℕ → Option ℤ
signed negative none = none
signed true (some zero) = some (pos 0)
signed true (some (suc n)) = if ltb n (2 ^ 63) then some (negsuc n) else none
signed false (some n) = if ltb n (2 ^ 63) then some (pos n) else none

unfoldable pub parse_int : Bytes → Option ℤ
unfolding digits
parse_int [] = none
parse_int (c ∷ s) =
    if c == b'-' || c == b'+'
    then if null s then none else signed (c == b'-') (digits 0 s)
    else signed false (digits 0 (c ∷ s))

abbrev pub IsDigit : ℕ → Type 0
IsDigit c = (b'0' ≤ c) × (c ≤ b'9')

digits-emit :
    (rounds n : ℕ) (out : Bytes) → n ≤ rounds → digits 0 (emit rounds n out) ≡ digits n out
unfolding emit digits
digits-emit zero n out h = let same : n ≡ 0 = omega arith in rw same refl
digits-emit (suc rounds) zero out h = refl
digits-emit (suc rounds) (suc n) out h =
    let rest = digits-emit rounds (suc n / 10) ((b'0' + suc n % 10) ∷ out) (omega arith) in
    ground (arith, rest)

emit-IsDigit : (rounds n : ℕ) (out : Bytes) → All IsDigit out → All IsDigit (emit rounds n out)
unfolding emit
emit-IsDigit zero n out h = h
emit-IsDigit (suc rounds) n out h =
    elim (n == 0)
      as (λ b.
        All IsDigit
          (elim b [ true ↦ out | false ↦ emit rounds (n / 10) ((b'0' + n % 10) ∷ out) ])) [
            | true ↦ h
            | false ↦ emit-IsDigit rounds (n / 10) _ (omega arith, h)
          ]

-- A number is printed in digits.
pub format-IsDigit : (n : ℕ) → All IsDigit (format n)
unfolding format
format-IsDigit n = elim (Bool-cases (n == 0)) [
  | inl nil ↦ rw nil (omega arith)
  | inr positive ↦ rw positive (emit-IsDigit n n [] tt)
]

digits-format : (n : ℕ) → digits 0 (format n) ≡ some n
unfolding format digits
digits-format n = ground (arith, digits-emit n n [])

parse_int-unsigned :
    (s : Bytes) (n : ℕ)
    → All IsDigit s
    → digits 0 s ≡ some n
    → s ≢ []
    → n < 2 ^ 63
    → parse_int s ≡ some (pos n)
unfolding parse_int
parse_int-unsigned [] n h e given fits = absurd (given refl)
parse_int-unsigned (c ∷ s) n (hc, h) e given fits =
    let plain : (c == b'-' || c == b'+') ≡ false = ground arith in rw (plain, e) (ground arith)

format_zero : format 0 ≢ []
unfolding format
format_zero e = cc

format-ne-nil : (n : ℕ) → format n ≢ []
format-ne-nil zero e = format_zero e
format-ne-nil (suc n) e =
    let read : digits 0 [] ≡ some (suc n) = rw (← e) (digits-format (suc n)) in
    absurd (unfold digits in (ground (arith, read)))

-- What is printed is read back.
pub parse_int-format : (n : ℕ) → n < 2 ^ 63 → parse_int (format n) ≡ some (pos n)
parse_int-format n fits =
    parse_int-unsigned (format n) n (format-IsDigit n) (digits-format n) (format-ne-nil n) fits
