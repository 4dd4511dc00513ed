-- ===== src/Common/Assoc.antt =====
-- Go maps with text keys, as association lists. A range over such a map is a walk over the list.
use mathlib.Core.Path.{◌≡◌, refl, subst}
use mathlib.Core.Logic.{inl, inr}
use mathlib.Core.Bool.{Bool, true, false}
use mathlib.Core.Option.{Option, none, some}
use mathlib.Core.List.{List, [], ◌∷◌}
use Prim.Native.Nat.{◌+◌, ◌≤◌}
use native.Mathlib.Omega.{arith}
use gopanel.Common.Tests.{Bool-cases, if◌then◌else◌}
use gopanel.Common.Lists.{length}
use gopanel.Common.Text.{Bytes, eqb, eqb_iff, eqb_self}

module _ {ℓ} {V : Type ℓ} where
  unfoldable pub lookup : Bytes → List (Bytes × V) → Option V
  lookup k [] = none
  lookup k ((j, v) ∷ m) = if eqb j k then some v else lookup k m

  -- m[k] = v
  unfoldable pub insert : Bytes → V → List (Bytes × V) → List (Bytes × V)
  insert k v [] = (k, v) ∷ []
  insert k v ((j, w) ∷ m) = if eqb j k then (k, v) ∷ m else (j, w) ∷ insert k v m

  -- delete(m, k)
  unfoldable pub remove : Bytes → List (Bytes × V) → List (Bytes × V)
  remove k [] = []
  remove k ((j, w) ∷ m) = let rest = remove k m in if eqb j k then rest else (j, w) ∷ rest

  -- A range over the map that deletes the entries that fail the test.
  unfoldable pub keep_if : (V → Bool) → List (Bytes × V) → List (Bytes × V)
  keep_if p [] = []
  keep_if p ((j, w) ∷ m) = let rest = keep_if p m in if p w then (j, w) ∷ rest else rest

  pub lookup-insert :
      (k j : Bytes) (v : V) (m : List (Bytes × V))
      → lookup j (insert k v m) ≡ (if eqb k j then some v else lookup j m)
  unfolding lookup insert
  lookup-insert k j v [] = refl
  lookup-insert k j v ((i, w) ∷ m) =
      ground (arith, eqb_iff k j, eqb_iff i k, eqb_iff i j, lookup-insert k j v m)

  pub lookup-insert_self :
      (k : Bytes) (v : V) (m : List (Bytes × V)) → lookup k (insert k v m) ≡ some v
  lookup-insert_self k v m = rw (lookup-insert k k v m, eqb_self k) refl

  pub lookup-insert_other :
      (k j : Bytes) (v : V) (m : List (Bytes × V))
      → eqb k j ≡ false
      → lookup j (insert k v m) ≡ lookup j m
  lookup-insert_other k j v m differ = rw (lookup-insert k j v m, differ) refl

  pub lookup-remove :
      (k j : Bytes) (m : List (Bytes × V))
      → lookup j (remove k m) ≡ (if eqb k j then none else lookup j m)
  unfolding lookup remove
  lookup-remove k j [] = ground arith
  lookup-remove k j ((i, w) ∷ m) =
      ground (arith, eqb_iff k j, eqb_iff i k, eqb_iff i j, lookup-remove k j m)

  -- An entry that passes the test is found as before.
  pub lookup-keep_if :
      (p : V → Bool) (k : Bytes) (m : List (Bytes × V)) (v : V)
      → lookup k m ≡ some v
      → p v ≡ true
      → lookup k (keep_if p m) ≡ some v
  unfolding lookup keep_if
  lookup-keep_if p k [] v h q = cc
  lookup-keep_if p k ((j, w) ∷ m) v h q = ground (arith, lookup-keep_if p k m v)

  pub length-insert_old :
      (k : Bytes) (v : V) (m : List (Bytes × V)) (w : V)
      → lookup k m ≡ some w
      → length (insert k v m) ≡ length m
  unfolding lookup insert
  length-insert_old k v [] w h = cc
  length-insert_old k v ((j, u) ∷ m) w h = ground (arith, length-insert_old k v m w)

  pub length-insert-le :
      (k : Bytes) (v : V) (m : List (Bytes × V)) → length (insert k v m) ≤ length m + 1
  unfolding insert
  length-insert-le k v [] = omega arith
  length-insert-le k v ((j, u) ∷ m) = ground (arith, length-insert-le k v m)

  pub length-remove-le : (k : Bytes) (m : List (Bytes × V)) → length (remove k m) ≤ length m
  unfolding remove
  length-remove-le k [] = omega arith
  length-remove-le k ((j, u) ∷ m) = ground (arith, length-remove-le k m)

  pub length-keep_if-le : (p : V → Bool) (m : List (Bytes × V)) → length (keep_if p m) ≤ length m
  unfolding keep_if
  length-keep_if-le p [] = omega arith
  length-keep_if-le p ((j, u) ∷ m) = ground (arith, length-keep_if-le p m)

module _ {ℓ κ} {V : Type ℓ} (P : V → Type κ) where
  abbrev pub AllValues : List (Bytes × V) → Type κ
  AllValues [] = Unit
  AllValues ((k, v) ∷ m) = P v × AllValues m

  pub AllValues-insert :
      (k : Bytes) (v : V) (m : List (Bytes × V)) → P v → AllValues m → AllValues (insert k v m)
  unfolding insert
  AllValues-insert k v [] p h = (p, tt)
  AllValues-insert k v ((j, w) ∷ m) p (q, h) =
      elim (eqb j k) as (λ b. AllValues (if b then (k, v) ∷ m else (j, w) ∷ insert k v m)) [
        | true ↦ (p, h)
        | false ↦ (q, AllValues-insert k v m p h)
      ]

  pub AllValues-remove : (k : Bytes) (m : List (Bytes × V)) → AllValues m → AllValues (remove k m)
  unfolding remove
  AllValues-remove k [] h = tt
  AllValues-remove k ((j, w) ∷ m) (q, h) =
      elim (eqb j k) as (λ b. AllValues (if b then remove k m else (j, w) ∷ remove k m)) [
        | true ↦ AllValues-remove k m h
        | false ↦ (q, AllValues-remove k m h)
      ]

  pub AllValues-keep_if :
      (p : V → Bool) (m : List (Bytes × V)) → AllValues m → AllValues (keep_if p m)
  unfolding keep_if
  AllValues-keep_if p [] h = tt
  AllValues-keep_if p ((j, w) ∷ m) (q, h) =
      elim (p w) as (λ b. AllValues (if b then (j, w) ∷ keep_if p m else keep_if p m)) [
        | true ↦ (q, AllValues-keep_if p m h)
        | false ↦ AllValues-keep_if p m h
      ]

  pub AllValues-lookup :
      (k : Bytes) (m : List (Bytes × V)) (v : V) → AllValues m → lookup k m ≡ some v → P v
  unfolding lookup
  AllValues-lookup k [] v h e = cc
  AllValues-lookup k ((j, w) ∷ m) v (q, h) e = elim (Bool-cases (eqb j k)) [
    | inl hit ↦ let same : w ≡ v = ground arith in subst P same q
    | inr miss ↦ AllValues-lookup k m v h (rw miss at e)
  ]
