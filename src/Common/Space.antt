-- ===== src/Common/Space.antt =====
-- strings.TrimSpace on bytes of UTF-8: the white space of Unicode is six bytes of ASCII and the
-- encodings of U+0085, U+00A0, U+1680, U+2000 to U+200A, U+2028, U+2029, U+202F, U+205F, U+3000.
use Prim.Native.Nat.{ℕ, zero, suc, ◌-◌, ◌≤◌}
use mathlib.Core.Bool.{Bool, ◌&&◌, ◌||◌}
use mathlib.Core.Path.{◌≡◌, refl}
use mathlib.Core.List.{[], ◌∷◌, reverse}
use native.Mathlib.Omega.{arith}
use gopanel.Common.Tests.{◌==◌, leb, if◌then◌else◌}
use gopanel.Common.Lists.{length, length-reverse}
use gopanel.Common.Text.{Bytes, codes}

-- unicode.IsSpace below 128
is_ascii_space : ℕ → Bool
is_ascii_space c = leb 9 c && leb c 13 || c == 32

is_space2 : ℕ → ℕ → Bool
is_space2 a b = a == 0xC2 && (b == 0x85 || b == 0xA0)

is_space3 : ℕ → ℕ → ℕ → Bool
is_space3 a b c =
    a == 0xE1 && b == 0x9A && c == 0x80
    || a == 0xE2 && b == 0x80 && (leb 0x80 c && leb c 0x8A || c == 0xA8 || c == 0xA9 || c == 0xAF)
    || a == 0xE2 && b == 0x81 && c == 0x9F
    || a == 0xE3 && b == 0x80 && c == 0x80

-- The bytes of the white space that the text begins with; 0 if it begins with none.
width : Bytes → ℕ
unfolding is_ascii_space is_space2 is_space3
width [] = 0
width (a ∷ []) = if is_ascii_space a then 1 else 0
width (a ∷ b ∷ []) = if is_ascii_space a then 1 else if is_space2 a b then 2 else 0
width (a ∷ b ∷ c ∷ _) =
    if is_ascii_space a then 1 else if is_space2 a b then 2 else if is_space3 a b c then 3 else 0

-- The same for a reversed text.
width_back : Bytes → ℕ
unfolding is_ascii_space is_space2 is_space3
width_back [] = 0
width_back (a ∷ []) = if is_ascii_space a then 1 else 0
width_back (b ∷ a ∷ []) = if is_ascii_space b then 1 else if is_space2 a b then 2 else 0
width_back (c ∷ b ∷ a ∷ _) =
    if is_ascii_space c then 1 else if is_space2 b c then 2 else if is_space3 a b c then 3 else 0

-- Drops white space, the first argument being the bytes left of a space that is being dropped.
skip : (Bytes → ℕ) → ℕ → Bytes → Bytes
skip w n [] = []
skip w (suc n) (c ∷ s) = skip w n s
skip w zero (c ∷ s) = let n = w (c ∷ s) in if n == 0 then c ∷ s else skip w (n - 1) s

unfoldable pub trim_space : Bytes → Bytes
unfolding skip width width_back
trim_space s = reverse (skip width_back 0 (reverse (skip width 0 s)))

skip-le : (w : Bytes → ℕ) (n : ℕ) (s : Bytes) → length (skip w n s) ≤ length s
unfolding skip
skip-le w n [] = omega arith
skip-le w (suc n) (c ∷ s) = omega (arith, skip-le w n s)
skip-le w zero (c ∷ s) = ground (arith, skip-le w (w (c ∷ s) - 1) s)

-- Trimming never makes a text longer.
pub trim_space-le : (s : Bytes) → length (trim_space s) ≤ length s
unfolding trim_space
trim_space-le s = omega (
  arith,
  length-reverse (skip width_back 0 (reverse (skip width 0 s))),
  skip-le width_back 0 (reverse (skip width 0 s)),
  length-reverse (skip width 0 s),
  skip-le width 0 s,
)

trim_tests :
    (trim_space (codes "  a b\t\n") ≡ codes "a b")
    × (trim_space (codes " \r\n ") ≡ [])
    × (trim_space (0xC2 ∷ 0xA0 ∷ codes "x") ≡ codes "x")
unfolding trim_space
trim_tests = (refl, refl, refl)
