-- ===== src/Server/Validate/Patterns.antt =====
-- The patterns of names and of labels of host names, described by positions.
use gopanel.Common.{
  ℕ, suc, ◌≤◌, ◌≡◌, ◌≢◌, ◌↔◌, ◌⊎◌, inl, inr, refl, ap, Bool, true, &&_true, [], ◌∷◌, ◌++◌, Bytes,
  eqb, eqb_iff, length, All, arith,
}
use gopanel.Server.Validate.{
  is_alnum, is_name_char, is_label_char, ends_alnum, name_pattern, hostname_label_pattern,
}

-- Bytes of a class between a letter or digit at the front and one at the end.
pub record IsFramed (class : ℕ → Bool) (s : Bytes) : Type 0 where
  pub first : ℕ
  pub middle : Bytes
  pub last : ℕ
  pub spells : s ≡ first ∷ middle ++ last ∷ []
  pub first_ok : is_alnum first ≡ true
  pub middle_ok : All (λ c. class c ≡ true) middle
  pub last_ok : is_alnum last ≡ true

ends_alnum_sound :
    (class : ℕ → Bool) (s : Bytes)
    → ends_alnum class s ≡ true
    → (middle : Bytes) × (last : ℕ) × (s ≡ middle ++ last ∷ [])
      × All (λ c. class c ≡ true) middle
      × (is_alnum last ≡ true)
unfolding ends_alnum
ends_alnum_sound class [] h = cc
ends_alnum_sound class (c ∷ []) h = ([], c, refl, tt, h)
ends_alnum_sound class (c ∷ d ∷ s) h =
    let (here, later) = &&_true (class c) (ends_alnum class (d ∷ s)) h in
    let (middle, last, spells, middle_ok, last_ok) = ends_alnum_sound class (d ∷ s) later in
    (c ∷ middle, last, ap (λ r. c ∷ r) spells, (here, middle_ok), last_ok)

ends_alnum_complete :
    (class : ℕ → Bool) (middle : Bytes) (last : ℕ)
    → All (λ c. class c ≡ true) middle
    → is_alnum last ≡ true
    → ends_alnum class (middle ++ last ∷ []) ≡ true
unfolding ends_alnum
ends_alnum_complete class [] last _ h = h
ends_alnum_complete class (c ∷ []) last (hc, _) h = rw (hc, h)
ends_alnum_complete class (c ∷ d ∷ s) last (hc, hs) h =
    rw (hc, ends_alnum_complete class (d ∷ s) last hs h)

-- A name: 3 to 64 bytes, of letters, digits, " ", "_", "-" and ".", a letter or digit at both ends.
pub record IsName (s : Bytes) : Type 0 where
  pub framed : IsFramed is_name_char s
  pub at_least : 3 ≤ length s
  pub at_most : length s ≤ 64

-- A label of a host name: 1 to 63 letters, digits and hyphens, no hyphen at an end.
pub record IsLabel (s : Bytes) : Type 0 where
  pub framed : (IsFramed is_label_char s) ⊎ ((c : ℕ) × (s ≡ c ∷ []) × (is_alnum c ≡ true))
  pub at_most : length s ≤ 63

pub name_pattern_sound : (s : Bytes) → name_pattern s ≡ true → IsName s
unfolding name_pattern
name_pattern_sound [] h = cc
name_pattern_sound (c ∷ s) h =
    let (middle, last, spells, middle_ok, last_ok) =
      ends_alnum_sound is_name_char s (ground arith) in
    record {
      framed = record {
        first = c;
        middle = middle;
        last = last;
        spells = ap (λ r. c ∷ r) spells;
        first_ok = ground arith;
        middle_ok = middle_ok;
        last_ok = last_ok;
      };
      at_least = ground arith;
      at_most = ground arith;
    }

pub name_pattern_complete : (s : Bytes) → IsName s → name_pattern s ≡ true
unfolding name_pattern
name_pattern_complete s h =
    let f = h.framed in
    let count : length s ≡ suc (length (f.middle ++ f.last ∷ [])) = ap length f.spells in
    rw f.spells (
      ground (
        arith,
        f.first_ok,
        ends_alnum_complete is_name_char f.middle f.last f.middle_ok f.last_ok,
        count,
        h.at_least,
        h.at_most,
      ))

pub part_sound : (s : Bytes) → length s ≤ 63 → hostname_label_pattern s ≡ true → IsLabel s
unfolding hostname_label_pattern
part_sound [] n h = cc
part_sound (c ∷ []) n h = record { framed = inr (c, refl, h); at_most = n }
part_sound (c ∷ d ∷ s) n h =
    let (middle, last, spells, middle_ok, last_ok) =
      ends_alnum_sound is_label_char (d ∷ s) (ground arith) in
    record {
      framed = inl (record {
        first = c;
        middle = middle;
        last = last;
        spells = ap (λ r. c ∷ r) spells;
        first_ok = ground arith;
        middle_ok = middle_ok;
        last_ok = last_ok;
      });
      at_most = n;
    }

pub eqb_nil : (s : Bytes) → (eqb s [] ≡ true) ↔ (s ≡ [])
eqb_nil s = eqb_iff s []

framed_complete :
    (first : ℕ) (middle : Bytes) (last : ℕ)
    → is_alnum first ≡ true
    → All (λ c. is_label_char c ≡ true) middle
    → is_alnum last ≡ true
    → hostname_label_pattern (first ∷ middle ++ last ∷ []) ≡ true
unfolding hostname_label_pattern
framed_complete first [] last hf _ hl = rw (hf, hl)
framed_complete first (c ∷ m) last hf hm hl =
    rw (hf, ends_alnum_complete is_label_char (c ∷ m) last hm hl)

pub label_nonempty : (s : Bytes) → IsLabel s → length s ≢ 0
label_nonempty [] h = elim h.framed [
  | inl f ↦ λ _. cc f.spells
  | inr (c, spells, _) ↦ λ _. cc spells
]
label_nonempty (c ∷ s) h = omega arith

pub label_complete : (s : Bytes) → IsLabel s → hostname_label_pattern s ≡ true
label_complete s h = elim h.framed [
  | inl f ↦ rw f.spells (framed_complete f.first f.middle f.last f.first_ok f.middle_ok f.last_ok)
  | inr (c, spells, c_ok) ↦ rw spells (unfold hostname_label_pattern in c_ok)
]
