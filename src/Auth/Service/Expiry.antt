-- ===== src/Auth/Service/Expiry.antt =====
-- `CleanupExpired` of internal/auth/service.go, which removes sessions by the text of their expiry.
use gopanel.Common.{
  ℕ, ◌+◌, ◌≤◌, ◌<◌, ◌≡◌, inl, inr, refl, sym, Bool, true, false, Bool-cases, Option, none, some,
  List, [], ◌∷◌, Bytes, eqb, eqb_iff, arith, All,
}
use gopanel.Common.Result.{err}
use gopanel.Database.{Db, UserRow, SessionRow}
use gopanel.Database.Rows.{any_row, find_row, find_row-delete_other, delete_rows}
use gopanel.Auth.RateLimit.{second}
use gopanel.Auth.Store.{StoreError, token_hash, joined, joined_user, find_session, cleanup_expired}
use gopanel.Auth.Service.{cleanup}
use gopanel.Auth.Service.Sessions.{by_hash}

-- The token's hash is the key of the sessions.
abbrev pub UniqueHashes : List SessionRow → Type 0
UniqueHashes [] = Unit
UniqueHashes (s ∷ rest) =
    (any_row (λ (t : SessionRow). eqb t.token_hash s.token_hash) rest ≡ false) × UniqueHashes rest

find_row_absent :
    (hash : Bytes) (q : SessionRow → Bool) (rows : List SessionRow)
    → any_row (by_hash hash) rows ≡ false
    → find_row (by_hash hash) (delete_rows q rows) ≡ none
unfolding find_row any_row delete_rows
find_row_absent hash q [] h = refl
find_row_absent hash q (s ∷ rows) h = ground (arith, find_row_absent hash q rows)

-- A row that is deleted is not found afterwards.
find_row_deleted :
    (hash : Bytes) (q : SessionRow → Bool) (rows : List SessionRow) (s : SessionRow)
    → UniqueHashes rows
    → find_row (by_hash hash) rows ≡ some s
    → q s ≡ true
    → find_row (by_hash hash) (delete_rows q rows) ≡ none
unfolding find_row any_row delete_rows
find_row_deleted hash q [] s u h k = refl
find_row_deleted hash q (t ∷ rows) s (first, u) h k = elim (Bool-cases (eqb t.token_hash hash)) [
  | inl hit ↦
      let same : t ≡ s = ground (arith, h, hit) in
      let key : t.token_hash ≡ hash = (eqb_iff t.token_hash hash).0 hit in
      rw (same, k) (find_row_absent hash q rows (rw (← key) first))
  | inr miss ↦ ground (arith, find_row_deleted hash q rows s u, h, miss, k)
]

find_row_missing :
    (hash : Bytes) (q : SessionRow → Bool) (rows : List SessionRow)
    → find_row (by_hash hash) rows ≡ none
    → find_row (by_hash hash) (delete_rows q rows) ≡ none
unfolding find_row delete_rows
find_row_missing hash q [] h = refl
find_row_missing hash q (s ∷ rows) h = ground (arith, find_row_missing hash q rows)

delete_rows-All :
    (q : SessionRow → Bool) (P : SessionRow → Type 0) (rows : List SessionRow)
    → ((s : SessionRow) → q s ≡ false → P s)
    → All P (delete_rows q rows)
unfolding delete_rows
delete_rows-All q P [] h = tt
delete_rows-All q P (s ∷ rows) h =
    let rest = delete_rows-All q P rows h in
    elim (Bool-cases (q s)) [ inl gone ↦ rw gone rest | inr kept ↦ rw kept (h s kept, rest) ]

not_joined :
    (at : ℕ) (s : SessionRow) (row : Option UserRow)
    → s.expires_at ≤ at
    → joined_user at s row ≡ err StoreError.not_found
not_joined at s none h = refl
not_joined at s (some row) h = ground (arith, h)

-- Where the text of an expiry is before that of the time, the expiry is less than a second ahead, and
-- where the expiry is a second or more behind, its text is before that of the time.
module _ (before : ℕ → ℕ → Bool) (late : (e n : ℕ) → before e n ≡ true → e < n + second)
    (early : (e n : ℕ) → e + second ≤ n → before e n ≡ true) where
  abbrev is_stale : ℕ → SessionRow → Bool
  is_stale now s = before s.expires_at now

  joined-cleaned :
      (hash : Bytes) (now at : ℕ) (users : List UserRow) (sessions : List SessionRow)
      (stored : Option SessionRow)
      → UniqueHashes sessions
      → now + second ≤ at
      → find_row (by_hash hash) sessions ≡ stored
      → joined at users (find_row (by_hash hash) (delete_rows (is_stale now) sessions))
        ≡ joined at users stored
  joined-cleaned hash now at users sessions none u h found =
      rw (find_row_missing hash (is_stale now) sessions found) refl
  joined-cleaned hash now at users sessions (some s) u h found =
      elim (Bool-cases (before s.expires_at now)) [
        | inl stale ↦
            let over : s.expires_at ≤ at = omega (arith, late s.expires_at now stale, h) in
            rw (find_row_deleted hash (is_stale now) sessions s u found stale)
              (sym (not_joined at s (find_row (λ (r : UserRow). eqb r.id s.user_id) users) over))
        | inr fresh ↦
            rw (find_row-delete_other (by_hash hash) (is_stale now) sessions s found fresh) refl
      ]

  stays_recent :
      (now : ℕ) (s : SessionRow) → before s.expires_at now ≡ false → now < s.expires_at + second
  stays_recent now s kept = ground (arith, early s.expires_at now, kept)

  -- The cleanup removes every session that expired a second ago or before, as long as the statement
  -- does not fail, and is not seen by any look for a session a second later or after: each finds what
  -- it would have found without the cleanup. The hashes are keys of the sessions, and texts of times
  -- are in the order of the times where these are a second apart.
  pub cleanup-find_session :
      (sum : Bytes → Bytes) (rows_fail : Bool) (now at : ℕ) (token : Bytes) (db : Db)
      → UniqueHashes db.sessions
      → now + second ≤ at
      → let db' = (cleanup before false rows_fail now db).1 in
        (find_session sum false token at db' ≡ find_session sum false token at db)
        × All (λ (s : SessionRow). now < s.expires_at + second) db'.sessions
        × (db'.users ≡ db.users)
  unfolding cleanup cleanup_expired find_session
  cleanup-find_session sum rows_fail now at token db u h =
      let looked = joined-cleaned (token_hash sum token) now at db.users db.sessions _ u h refl in
      let recent = delete_rows-All (is_stale now) _ db.sessions (stays_recent now) in
      elim (Bool-cases rows_fail) [
        | inl fails ↦ rw fails (looked, recent, refl)
        | inr works ↦ rw works (looked, recent, refl)
      ]
