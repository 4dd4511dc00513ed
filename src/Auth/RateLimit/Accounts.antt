-- ===== src/Auth/RateLimit/Accounts.antt =====
-- The limit on the attempts at one account, and on the size of the table of accounts.
use gopanel.Common.{
  ℕ, suc, ◌+◌, ◌≤◌, ◌<◌, ◌≡◌, Bool, true, false, List, [], ◌∷◌, Option, none, some, arith, Bytes,
  eqb, eqb_iff, eqb_self, length, ltb, leb, not, ◌&&◌, Bool-cases, inl, inr, refl, sym, ap, ◌∙◌,
  if◌then◌else◌,
}
use gopanel.Common.Assoc.{
  lookup, insert, lookup-insert, lookup-keep_if, length-insert_old, length-insert-le,
  length-keep_if-le, length-remove-le, AllValues, AllValues-insert, AllValues-remove,
  AllValues-keep_if,
}
use gopanel.Auth.RateLimit.{
  AccountLimit, LoginLimiter, max_account_entries, account_attempts, evict_expired, entry_or_zero,
  renew, count_attempt, allow_account, reset,
}

abbrev pub Fits : AccountLimit → Type 0
Fits entry = entry.count ≤ account_attempts

pub record IsWithin (limiter : LoginLimiter) : Type 0 where
  pub entries : length limiter.accounts ≤ max_account_entries
  pub counts : AllValues Fits limiter.accounts

-- Counting one more attempt.
insert-IsWithin :
    (swept : LoginLimiter) (email : Bytes) (entry : AccountLimit)
    → IsWithin swept
    → entry.count < account_attempts
    → length (insert email (record entry { count = entry.count + 1 }) swept.accounts)
      ≤ max_account_entries
    → IsWithin (record swept {
      accounts = insert email (record entry { count = entry.count + 1 }) swept.accounts;
    })
insert-IsWithin swept email entry h below room = record {
  entries = room;
  counts = AllValues-insert Fits email _ swept.accounts (omega arith) h.counts;
}

count_attempt-IsWithin :
    (swept : LoginLimiter) (email : Bytes) (now : ℕ) (found : Option AccountLimit)
    → lookup email swept.accounts ≡ found
    → IsWithin swept
    → IsWithin (count_attempt swept email now found).0
unfolding count_attempt
count_attempt-IsWithin swept email now none e h =
    elim (Bool-cases (leb max_account_entries (length swept.accounts))) [
      | inl full ↦ rw full h
      | inr room ↦
          let entry : AccountLimit = renew (entry_or_zero none) now in
          elim (Bool-cases (leb account_attempts entry.count)) [
            | inl spent ↦ rw (room, spent) h
            | inr left ↦
                rw (room, left)
                  (insert-IsWithin swept email entry h (ground arith) (
                    ground (
                      arith,
                      length-insert-le email (record entry { count = entry.count + 1 })
                          swept.accounts,
                    )))
          ]
    ]
count_attempt-IsWithin swept email now (some old) e h =
    let entry : AccountLimit = renew old now in
    elim (Bool-cases (leb account_attempts entry.count)) [
      | inl spent ↦ rw spent h
      | inr left ↦ rw left (
          insert-IsWithin swept email entry h (ground arith) (
            rw
              (length-insert_old email (record entry { count = entry.count + 1 }) swept.accounts old
                e)
              h.entries))
    ]

-- Every call of `AllowAccount` or `Reset` keeps the table within 1024 accounts, and each account
-- within five attempts.
pub allow_account-IsWithin :
    (limiter : LoginLimiter) (email : Bytes) (now : ℕ)
    → IsWithin limiter
    → IsWithin (allow_account limiter email now).0 × IsWithin (reset limiter email)
unfolding allow_account reset
allow_account-IsWithin limiter email now h = (
  count_attempt-IsWithin (unfold evict_expired in evict_expired limiter now) email now _ refl
      (record {
        entries = omega (
          arith,
          h.entries,
          length-keep_if-le (λ value. not (ltb value.reset now)) limiter.accounts,
        );
        counts =
            AllValues-keep_if Fits (λ value. not (ltb value.reset now)) limiter.accounts h.counts;
      }),
  record {
    entries = omega (arith, h.entries, length-remove-le email limiter.accounts);
    counts = AllValues-remove Fits email limiter.accounts h.counts;
  },
)

-- Attempts at the given accounts and times, and how many at `email` were allowed.
unfoldable pub attempt_all : Bytes → LoginLimiter → List (Bytes × ℕ) → LoginLimiter × ℕ
attempt_all email limiter [] = (limiter, 0)
attempt_all email limiter ((other, now) ∷ later) =
    let (next, allowed) = allow_account limiter other now in
    let (final, count) = attempt_all email next later in
    (final, if allowed && eqb other email then suc count else count)

abbrev pub NotAfter : ℕ → List (Bytes × ℕ) → Type 0
NotAfter until [] = Unit
NotAfter until ((other, now) ∷ later) = (now ≤ until) × NotAfter until later

abbrev pub one_if : Bool → ℕ
one_if true = 1
one_if false = 0

-- What `email` gets: its entry, in the same window, counts `n` more attempts.
abbrev Counts : LoginLimiter × Bool → Bytes → AccountLimit → ℕ → Type 0
Counts r email entry n =
    (lookup email r.0.accounts ≡ some (record entry { count = entry.count + n }))
    × (entry.count + n ≤ account_attempts)

count_attempt_self :
    (swept : LoginLimiter) (email : Bytes) (now : ℕ) (entry : AccountLimit)
    → lookup email swept.accounts ≡ some entry
    → now ≤ entry.reset
    → entry.count ≤ account_attempts
    → Counts
        (count_attempt swept email now (some entry))
        email
        entry
        (one_if (count_attempt swept email now (some entry)).1)
unfolding count_attempt
count_attempt_self swept email now entry e live fits = ground (
  arith,
  lookup-insert email email (record entry { count = entry.count + 1 }) swept.accounts,
  eqb_self email,
)

count_attempt_other :
    (swept : LoginLimiter) (other email : Bytes) (now : ℕ) (found : Option AccountLimit)
    (entry : AccountLimit)
    → eqb other email ≡ false
    → lookup email swept.accounts ≡ some entry
    → entry.count ≤ account_attempts
    → Counts (count_attempt swept other now found) email entry 0
unfolding count_attempt
count_attempt_other swept other email now found entry differ e fits =
    let changed : AccountLimit = renew (entry_or_zero found) now in
    ground (
      arith,
      lookup-insert other email (record changed { count = changed.count + 1 }) swept.accounts,
    )

count_attempt-Counts :
    (swept : LoginLimiter) (other email : Bytes) (now : ℕ) (found : Option AccountLimit)
    (entry : AccountLimit)
    → lookup other swept.accounts ≡ found
    → lookup email swept.accounts ≡ some entry
    → now ≤ entry.reset
    → entry.count ≤ account_attempts
    → Counts
        (count_attempt swept other now found)
        email
        entry
        (one_if ((count_attempt swept other now found).1 && eqb other email))
count_attempt-Counts swept other email now found entry h e live fits =
    elim (Bool-cases (eqb other email)) [
      | inl same ↦
          let names : other ≡ email = (eqb_iff other email).0 same in
          let seen : found ≡ some entry = sym h ∙ ap (λ k. lookup k swept.accounts) names ∙ e in
          rw (seen, names, eqb_self)
            (ground (arith, count_attempt_self swept email now entry e live fits))
      | inr differ ↦
          rw differ
            (ground (arith, count_attempt_other swept other email now found entry differ e fits))
    ]

module _ (limiter : LoginLimiter) (other email : Bytes) (now : ℕ) (entry : AccountLimit) where
  -- A call at any account, while the window of `email` is open.
  allow_account-Counts :
      lookup email limiter.accounts ≡ some entry
      → now ≤ entry.reset
      → entry.count ≤ account_attempts
      → Counts
          (allow_account limiter other now)
          email
          entry
          (one_if ((allow_account limiter other now).1 && eqb other email))
  unfolding allow_account
  allow_account-Counts e live fits =
      let swept : LoginLimiter = unfold evict_expired in evict_expired limiter now in
      let kept : lookup email swept.accounts ≡ some entry =
        lookup-keep_if (λ value. not (ltb value.reset now)) email limiter.accounts entry e
          (ground arith) in
      count_attempt-Counts swept other email now _ entry refl kept live fits

-- While the window of an account is open, no more than five attempts at it are allowed in all,
-- whatever other accounts are tried in between.
pub attempt_all-le :
    (email : Bytes) (limiter : LoginLimiter) (entry : AccountLimit) (calls : List (Bytes × ℕ))
    → lookup email limiter.accounts ≡ some entry
    → entry.count ≤ account_attempts
    → NotAfter entry.reset calls
    → entry.count + (attempt_all email limiter calls).1 ≤ account_attempts
unfolding attempt_all
attempt_all-le email limiter entry [] e fits h = omega arith
attempt_all-le email limiter entry ((other, now) ∷ later) e fits (live, h) =
    let n = one_if ((allow_account limiter other now).1 && eqb other email) in
    let (found, within) = allow_account-Counts limiter other email now entry e live fits in
    let rest =
      attempt_all-le email (allow_account limiter other now).0
        (record entry { count = entry.count + n }) later found within h in
    ground arith
