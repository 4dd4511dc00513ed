-- ===== src/Auth/Csrf/Frames.antt =====
-- internal/auth/csrf.go: the bytes that a MAC is of.
use gopanel.Common.{
  ℕ, zero, suc, ◌+◌, ◌/◌, ◌%◌, ◌^◌, ◌<◌, ◌≡◌, refl, sym, ap, ◌∙◌, List, [], ◌∷◌, ◌++◌, append_assoc,
  Bytes, arith, length, length-append, All,
}
use gopanel.Auth.Csrf.{big_endian, write_frame, write_frames}

-- Texts of equal lengths at the front of equal texts are equal, and so are the rests.
append-cancel : (s t u v : Bytes) → length s ≡ length t → s ++ u ≡ t ++ v → (s ≡ t) × (u ≡ v)
append-cancel [] [] u v len e = (refl, e)
append-cancel [] (d ∷ t) u v len e = absurd (omega arith)
append-cancel (c ∷ s) [] u v len e = absurd (omega arith)
append-cancel (c ∷ s) (d ∷ t) u v len e =
    let rest : s ++ u ≡ t ++ v = cc in
    let first : c ≡ d = cc in let (a, b) = append-cancel s t u v (omega arith) rest in (cc, b)

length-big_endian : (count n : ℕ) → length (big_endian count n) ≡ count
unfolding big_endian
length-big_endian zero n = refl
length-big_endian (suc count) n = omega (
  arith,
  length-append (big_endian count (n / 256)) (n % 256 ∷ []),
  length-big_endian count (n / 256),
)

-- The number fits into so many bytes.
abbrev Fits : ℕ → ℕ → Type 0
Fits zero n = n ≡ 0
Fits (suc count) n = Fits count (n / 256)

big_endian-injective :
    (count m n : ℕ) → Fits count m → Fits count n → big_endian count m ≡ big_endian count n → m ≡ n
unfolding big_endian
big_endian-injective zero m n hm hn e = omega arith
big_endian-injective (suc count) m n hm hn e =
    let (front, last) =
      append-cancel (big_endian count (m / 256)) (big_endian count (n / 256)) _ _
        (length-big_endian count (m / 256) ∙ sym (length-big_endian count (n / 256))) e in
    let high = big_endian-injective count (m / 256) (n / 256) hm hn front in
    let low : m % 256 ≡ n % 256 = cc in omega arith

-- The length is one that a uint64 holds.
abbrev pub IsFramable : Bytes → Type 0
IsFramable s = length s < 2 ^ 64

Fits-uint64 : (n : ℕ) → n < 2 ^ 64 → Fits 8 (n % 2 ^ 64)
Fits-uint64 n h = omega arith

write_frame-cancel :
    (s t u v : Bytes)
    → IsFramable s
    → IsFramable t
    → write_frame s ++ u ≡ write_frame t ++ v
    → (s ≡ t) × (u ≡ v)
unfolding write_frame
write_frame-cancel s t u v hs ht e =
    let ns = length s % 2 ^ 64 in
    let nt = length t % 2 ^ 64 in
    let (lengths, rest) =
      append-cancel (big_endian 8 ns) (big_endian 8 nt) (s ++ u) (t ++ v)
        (length-big_endian 8 ns ∙ sym (length-big_endian 8 nt))
        (sym (append_assoc (big_endian 8 ns) s u) ∙ e ∙ append_assoc (big_endian 8 nt) t v) in
    let same =
      big_endian-injective 8 ns nt (Fits-uint64 (length s) hs) (Fits-uint64 (length t) ht)
        lengths in
    append-cancel s t u v (omega arith) rest

length-write_frame : (s u : Bytes) → 8 + length (s ++ u) ≡ length (write_frame s ++ u)
unfolding write_frame
length-write_frame s u =
    let n = length s % 2 ^ 64 in
    omega (
      arith,
      length-append (big_endian 8 n ++ s) u,
      length-append (big_endian 8 n) s,
      length-append s u,
      length-big_endian 8 n,
    )

-- Equal bytes of frames come from equal fields.
pub write_frames-injective :
    (xs ys : List Bytes)
    → All IsFramable xs
    → All IsFramable ys
    → write_frames xs ≡ write_frames ys
    → xs ≡ ys
unfolding write_frames
write_frames-injective [] [] hx hy e = refl
write_frames-injective [] (y ∷ ys) hx hy e =
    let n = length-write_frame y (write_frames ys) in let m = ap length e in absurd (omega arith)
write_frames-injective (x ∷ xs) [] hx hy e =
    let n = length-write_frame x (write_frames xs) in let m = ap length e in absurd (omega arith)
write_frames-injective (x ∷ xs) (y ∷ ys) (hx, hxs) (hy, hys) e =
    let (first, rest) = write_frame-cancel x y (write_frames xs) (write_frames ys) hx hy e in
    let tail = write_frames-injective xs ys hxs hys rest in cc
