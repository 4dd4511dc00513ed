-- ===== src/Container/Client/Lines.antt =====
-- What `boundLogLines` keeps of a log.
use mathlib.Core.List.{reverse, reverse-cons, reverse-reverse}
use gopanel.Common.{
  ℕ, suc, ◌+◌, ◌-◌, ◌≤◌, ◌<◌, ◌≡◌, inl, inr, refl, sym, ap, ◌∙◌, true, Bool-cases, List, [], ◌∷◌,
  ◌++◌, append_assoc, Bytes, arith, length, length-append, length-drop, take, drop, ltb, ◌==◌,
  if◌then◌else◌, has_suffix, has_prefix, All, All-drop,
}
use gopanel.Common.Split.{split, join, Lacks}
use gopanel.Container.Client.{newline, bound_log_lines}

-- The text is the end of another.
abbrev pub Ends : Bytes → Bytes → Type 0
Ends part whole = (front : Bytes) × (front ++ part ≡ whole)

-- The newlines in a text.
unfoldable pub newlines : Bytes → ℕ
newlines [] = 0
newlines (c ∷ s) = let n = newlines s in if c == 10 then suc n else n

split_cons : (sep : ℕ) (s : Bytes) → (p : Bytes) × (ps : List Bytes) × (split sep s ≡ p ∷ ps)
unfolding split
split_cons sep [] = ([], [], refl)
split_cons sep (c ∷ s) =
    let (p, ps, e) = split_cons sep s in
    elim (Bool-cases (c == sep)) [
      | inl cut ↦ ([], split sep s, rw cut refl)
      | inr on ↦ (c ∷ p, ps, rw (on, e) refl)
    ]

join-push_head :
    (sep c : ℕ) (p : Bytes) (ps : List Bytes) → join sep ((c ∷ p) ∷ ps) ≡ c ∷ join sep (p ∷ ps)
unfolding join
join-push_head sep c p [] = refl
join-push_head sep c p (q ∷ ps) = refl

join-split : (sep : ℕ) (s : Bytes) → join sep (split sep s) ≡ s
unfolding split join
join-split sep [] = refl
join-split sep (c ∷ s) =
    let (p, ps, e) = split_cons sep s in
    let rest : join sep (p ∷ ps) ≡ s = ap (join sep) (sym e) ∙ join-split sep s in
    elim (Bool-cases (c == sep)) [
      | inl cut ↦
          let same : sep ≡ c = ground arith in
          rw (cut, e) (ap (λ t. sep ∷ t) rest ∙ ap (λ x. x ∷ s) same)
      | inr on ↦ rw (on, e) (join-push_head sep c p ps ∙ ap (λ t. c ∷ t) rest)
    ]

split-newline : (sep : ℕ) (s : Bytes) → split sep (s ++ sep ∷ []) ≡ split sep s ++ [] ∷ []
unfolding split
split-newline sep [] = ground arith
split-newline sep (c ∷ s) =
    let (p, ps, e) = split_cons sep s in
    elim (Bool-cases (c == sep)) [
      | inl cut ↦ rw (cut, split-newline sep s) refl
      | inr on ↦ rw (on, split-newline sep s, e) refl
    ]

take-last :
    {A : Type 0} (xs : List A) (y : A) → take (length (xs ++ y ∷ []) - 1) (xs ++ y ∷ []) ≡ xs
take-last [] y = refl
take-last (x ∷ xs) y =
    let n : length (x ∷ xs ++ y ∷ []) - 1 ≡ suc (length (xs ++ y ∷ []) - 1) =
      omega (arith, length-append xs (y ∷ [])) in
    rw n (ap (λ r. x ∷ r) (take-last xs y))

-- Joining the lines but the first gives the end of the text.
join-drop :
    (sep k : ℕ) (lines : List Bytes)
    → k < length lines
    → Ends (join sep (drop k lines)) (join sep lines)
unfolding join
join-drop sep ℕ.zero lines h = ([], refl)
join-drop sep (suc k) [] h = absurd (omega arith)
join-drop sep (suc k) (p ∷ []) h = absurd (omega arith)
join-drop sep (suc k) (p ∷ q ∷ ps) h =
    let (front, e) = join-drop sep k (q ∷ ps) (omega arith) in
    (p ++ sep ∷ front, append_assoc p (sep ∷ front) _ ∙ ap (λ t. p ++ sep ∷ t) e)

newlines-append : (s t : Bytes) → newlines (s ++ t) ≡ newlines s + newlines t
unfolding newlines
newlines-append [] t = omega arith
newlines-append (c ∷ s) t = ground (arith, newlines-append s t)

newlines-Lacks : (s : Bytes) → Lacks 10 s → newlines s ≡ 0
unfolding newlines
newlines-Lacks [] h = refl
newlines-Lacks (c ∷ s) (d, h) = ground (arith, newlines-Lacks s h)

newlines-join :
    (lines : List Bytes) → All (Lacks 10) lines → newlines (join 10 lines) ≡ length lines - 1
unfolding join newlines
newlines-join [] h = refl
newlines-join (p ∷ []) (h, _) = newlines-Lacks p h
newlines-join (p ∷ q ∷ ps) (h, hs) =
    let rest = newlines-join (q ∷ ps) hs in
    let first = newlines-Lacks p h in
    let sum = newlines-append p (10 ∷ join 10 (q ∷ ps)) in omega (arith, rest, first, sum)

split-Lacks : (sep : ℕ) (s : Bytes) → All (Lacks sep) (split sep s)
unfolding split
split-Lacks sep [] = (tt, tt)
split-Lacks sep (c ∷ s) =
    let (p, ps, e) = split_cons sep s in
    let rest = split-Lacks sep s in
    elim (Bool-cases (c == sep)) [
      | inl cut ↦ rw cut (tt, rest)
      | inr on ↦ let (hp, hs) = rw e at rest in rw (on, e) ((ground arith, hp), hs)
    ]

ends_reversed :
    (s r : Bytes) → reverse s ≡ r → has_prefix r newline ≡ true → (d : Bytes) × (s ≡ d ++ newline)
unfolding has_prefix
ends_reversed s [] e q = cc
ends_reversed s (c ∷ r) e q =
    let same : c ≡ 10 = ground arith in
    (
      reverse r,
      sym (reverse-reverse s)
          ∙ ap reverse e
          ∙ reverse-cons c r
          ∙ ap (λ x. reverse r ++ x ∷ []) same,
    )

ends_newline : (s : Bytes) → has_suffix s newline ≡ true → (d : Bytes) × (s ≡ d ++ newline)
unfolding has_suffix
ends_newline s h = ends_reversed s (reverse s) refl h

-- The last lines of a text, as many as asked for.
abbrev last_lines : ℕ → List Bytes → List Bytes
last_lines maximum lines =
    if ltb maximum (length lines) then drop (length lines - maximum) lines else lines

last_lines-Ends :
    (maximum : ℕ) (lines : List Bytes)
    → 1 ≤ maximum
    → All (Lacks 10) lines
    → Ends (join 10 (last_lines maximum lines)) (join 10 lines)
      × (suc (newlines (join 10 (last_lines maximum lines))) ≤ maximum)
last_lines-Ends maximum lines some_line h = elim (Bool-cases (ltb maximum (length lines))) [
  | inl more ↦ rw more (
    join-drop 10 (length lines - maximum) lines (ground arith),
    ground (
      arith,
      newlines-join (drop (length lines - maximum) lines)
          (All-drop (Lacks 10) (length lines - maximum) lines h),
      length-drop (length lines - maximum) lines,
    ),
  )
  | inr fits ↦ rw fits (([], refl), ground (arith, newlines-join lines h))
]

-- A log that is cut is the end of the log, and has at most the number of newlines that is asked for,
-- if that is not 0.
pub bound_log_lines-Ends :
    (bytes : Bytes) (maximum : ℕ)
    → 1 ≤ maximum
    → Ends (bound_log_lines bytes maximum) bytes
      × (newlines (bound_log_lines bytes maximum) ≤ maximum)
unfolding bound_log_lines
bound_log_lines-Ends bytes maximum some_line = elim (Bool-cases (has_suffix bytes newline)) [
  | inl ends ↦
      let (d, e) = ends_newline bytes ends in
      let lines : take (length (split 10 bytes) - 1) (split 10 bytes) ≡ split 10 d =
        rw (e, split-newline 10 d) (take-last (split 10 d) []) in
      let ((front, same), few) =
        last_lines-Ends maximum (split 10 d) some_line (split-Lacks 10 d) in
      rw (ends, lines)
        (
          (
            front,
            sym (append_assoc front _ newline)
                ∙ ap (λ t. t ++ newline) (same ∙ join-split 10 d)
                ∙ sym e,
          ),
          rw newlines-append (unfold newlines in omega (arith, few)),
        )
  | inr open_end ↦
      let ((front, same), few) =
        last_lines-Ends maximum (split 10 bytes) some_line (split-Lacks 10 bytes) in
      rw open_end ((front, same ∙ join-split 10 bytes), omega (arith, few))
]
