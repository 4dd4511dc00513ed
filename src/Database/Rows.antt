-- ===== src/Database/Rows.antt =====
-- Looking rows up and deleting them.
use gopanel.Common.{
  ℕ, suc, ◌≡◌, refl, Bool, true, false, ◌||◌, Bool-cases, inl, inr, List, [], ◌∷◌, ◌++◌, Option,
  none, some, arith, if◌then◌else◌,
}

module _ {ℓ} {A : Type ℓ} where
  -- Some row passes a test.
  unfoldable pub any_row : (A → Bool) → List A → Bool
  any_row p [] = false
  any_row p (x ∷ xs) = p x || any_row p xs

  -- SELECT … WHERE, for a test that one row passes at most.
  unfoldable pub find_row : (A → Bool) → List A → Option A
  find_row p [] = none
  find_row p (x ∷ xs) = if p x then some x else find_row p xs

  -- DELETE … WHERE
  unfoldable pub delete_rows : (A → Bool) → List A → List A
  delete_rows p [] = []
  delete_rows p (x ∷ xs) = let rest = delete_rows p xs in if p x then rest else x ∷ rest

  -- The number of rows that pass a test.
  unfoldable pub count_rows : (A → Bool) → List A → ℕ
  count_rows p [] = 0
  count_rows p (x ∷ xs) = let rest = count_rows p xs in if p x then suc rest else rest

  pub find_row_sound : (p : A → Bool) (xs : List A) (x : A) → find_row p xs ≡ some x → p x ≡ true
  unfolding find_row
  find_row_sound p [] x h = cc
  find_row_sound p (y ∷ ys) x h = elim (Bool-cases (p y)) [
    | inl hit ↦ let same : y ≡ x = ground arith in rw (← same) hit
    | inr miss ↦ find_row_sound p ys x (rw miss at h)
  ]

  -- A row is found behind rows of which none passes the test.
  pub find_row-append :
      (p : A → Bool) (xs : List A) (x : A)
      → any_row p xs ≡ false
      → p x ≡ true
      → find_row p (xs ++ x ∷ []) ≡ some x
  unfolding find_row any_row
  find_row-append p [] x h q = rw q
  find_row-append p (y ∷ ys) x h q = ground (arith, find_row-append p ys x)

  pub find_row-delete_rows : (p : A → Bool) (xs : List A) → find_row p (delete_rows p xs) ≡ none
  unfolding find_row delete_rows
  find_row-delete_rows p [] = refl
  find_row-delete_rows p (x ∷ xs) = ground (arith, find_row-delete_rows p xs)

  -- What is found after a deletion was there, and is not among the deleted rows.
  pub find_row-delete_sound :
      (p q : A → Bool) (xs : List A) (x : A) → find_row p (delete_rows q xs) ≡ some x → q x ≡ false
  unfolding find_row delete_rows
  find_row-delete_sound p q [] x h = cc
  find_row-delete_sound p q (y ∷ ys) x h = elim (Bool-cases (q y)) [
    | inl gone ↦ find_row-delete_sound p q ys x (rw gone at h)
    | inr kept ↦ elim (Bool-cases (p y)) [
      | inl hit ↦ let same : y ≡ x = ground arith in rw (← same) kept
      | inr miss ↦ find_row-delete_sound p q ys x (ground arith)
    ]
  ]

  -- A row that is not deleted is found as before.
  pub find_row-delete_other :
      (p q : A → Bool) (xs : List A) (x : A)
      → find_row p xs ≡ some x
      → q x ≡ false
      → find_row p (delete_rows q xs) ≡ some x
  unfolding find_row delete_rows
  find_row-delete_other p q [] x h k = cc
  find_row-delete_other p q (y ∷ ys) x h k = elim (Bool-cases (p y)) [
    | inl hit ↦ let same : y ≡ x = ground arith in rw (same, k) (rw (← same, hit))
    | inr miss ↦ ground (arith, find_row-delete_other p q ys x (ground arith) k)
  ]
