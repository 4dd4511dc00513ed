-- ===== src/Diagnostic/Record/History.antt =====
-- What the log holds after any number of records, and what `Lookup` finds in it.
use mathlib.Core.List.{reverse, reverse-append}
use native.Mathlib.Decide.{dec_le, ℕ_discrete}
use gopanel.Common.{
  ℕ, suc, ◌-◌, ◌≤◌, ◌<◌, ◌≡◌, refl, sym, ap, ◌∙◌, append-nil, append_assoc, ◌≢◌, List, [], ◌∷◌,
  ◌++◌, some, Bytes, eqb_iff, arith, length, length-append, length-drop, drop, drop-append,
  drop-drop_one, take-all, ==_iff,
}
use gopanel.Diagnostic.Record.{
  Record, Recorder, Input, max_records, new_recorder, append_record, find_record, lookup,
  build_record, record_input,
}

unfoldable pub append_all : Recorder → List Record → Recorder
append_all r [] = r
append_all r (x ∷ xs) = append_all (append_record r x) xs

-- The newest `max_records` of a history.
abbrev pub newest : List Record → List Record
newest xs = drop (length xs - max_records) xs

newest-append_full :
    (xs : List Record) (x : Record)
    → max_records ≤ length xs
    → newest (xs ++ x ∷ []) ≡ drop 1 (newest xs) ++ x ∷ []
newest-append_full xs x h =
    let count = length-append xs (x ∷ []) in
    let more : length (xs ++ x ∷ []) - max_records ≡ suc (length xs - max_records) = omega arith in
    rw more (
      drop-append (suc (length xs - max_records)) xs (x ∷ []) (omega arith)
      ∙ ap (λ ys. ys ++ x ∷ []) (sym (drop-drop_one (length xs - max_records) xs)))

newest-append_room :
    (xs : List Record) (x : Record)
    → length xs < max_records
    → newest (xs ++ x ∷ []) ≡ newest xs ++ x ∷ []
newest-append_room xs x h =
    let count = length-append xs (x ∷ []) in
    let none_yet : length xs - max_records ≡ 0 = omega arith in
    let none_now : length (xs ++ x ∷ []) - max_records ≡ 0 = omega arith in rw (none_now, none_yet)

length-newest : (xs : List Record) → length (newest xs) ≡ length xs - (length xs - max_records)
length-newest xs = length-drop (length xs - max_records) xs

pub append_record_full :
    (r : Recorder) (x : Record)
    → length r.records ≡ max_records
    → (append_record r x).records ≡ drop 1 r.records ++ x ∷ []
unfolding append_record
append_record_full r x full = rw ((==_iff (length r.records) max_records).1 full) (
    ap (λ ys. ys ++ x ∷ [])
      (take-all (length r.records - 1) (drop 1 r.records) (omega (arith, length-drop 1 r.records))))

pub append_record_room :
    (r : Recorder) (x : Record)
    → length r.records ≢ max_records
    → (append_record r x).records ≡ r.records ++ x ∷ []
unfolding append_record
append_record_room r x room = ground arith

append_record-newest :
    (r : Recorder) (xs : List Record) (x : Record)
    → r.records ≡ newest xs
    → (append_record r x).records ≡ newest (xs ++ x ∷ [])
append_record-newest r xs x e =
    let count : length r.records ≡ length xs - (length xs - max_records) =
      ap length e ∙ length-newest xs in
    elim (dec_le max_records (length xs)) [
      | yes full ↦
          append_record_full r x (omega arith)
          ∙ ap (λ ys. drop 1 ys ++ x ∷ []) e
          ∙ sym (newest-append_full xs x full)
      | no room ↦
          append_record_room r x (omega arith)
          ∙ ap (λ ys. ys ++ x ∷ []) e
          ∙ sym (newest-append_room xs x (omega arith))
    ]

append_all-newest :
    (r : Recorder) (done xs : List Record)
    → r.records ≡ newest done
    → (append_all r xs).records ≡ newest (done ++ xs)
unfolding append_all
append_all-newest r done [] e = rw append-nil e
append_all-newest r done (x ∷ xs) e =
    append_all-newest (append_record r x) (done ++ x ∷ []) xs (append_record-newest r done x e)
    ∙ ap newest (append_assoc done (x ∷ []) xs)

-- After any records the log holds the newest 200 of them, in the order in which they came.
pub append_all-eq-newest : (xs : List Record) → (append_all new_recorder xs).records ≡ newest xs
unfolding new_recorder
append_all-eq-newest xs = append_all-newest new_recorder [] xs refl

find_record_sound :
    (reference : Bytes) (xs : List Record) (x : Record)
    → find_record reference xs ≡ some x
    → x.id ≡ reference
unfolding find_record
find_record_sound reference [] x h = cc
find_record_sound reference (y ∷ ys) x h =
    ground (arith, eqb_iff y.id reference, find_record_sound reference ys x)

find_record-reverse :
    (reference : Bytes) (xs : List Record) (x : Record)
    → x.id ≡ reference
    → find_record reference (reverse (xs ++ x ∷ [])) ≡ some x
unfolding find_record
find_record-reverse reference xs x e =
    rw (reverse-append xs (x ∷ [])) (rw ((eqb_iff x.id reference).1 e))

append_record_last :
    (r : Recorder) (x : Record) → (ys : List Record) × ((append_record r x).records ≡ ys ++ x ∷ [])
append_record_last r x = elim (ℕ_discrete (length r.records) max_records) [
  | yes full ↦ (drop 1 r.records, append_record_full r x full)
  | no room ↦ (r.records, append_record_room r x room)
]

module _ (sanitize_detail : Bytes → Bytes) (r : Recorder) (reference : Bytes) (now : ℕ) where
  -- Whatever the log holds, right after `Record` the reference that it gives out finds the record
  -- that it made.
  pub lookup-record_input :
      (input : Input)
      → lookup (record_input sanitize_detail r reference now input).0 reference
        ≡ some (record_input sanitize_detail r reference now input).1
  unfolding lookup record_input
  lookup-record_input input =
      let new = build_record sanitize_detail reference now input in
      let (ys, e) = append_record_last r new in
      rw e (find_record-reverse reference ys new (unfold build_record in refl))
