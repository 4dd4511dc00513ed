-- ===== src/Auth/Service/Sessions.antt =====
-- What a session is worth: until when it is found, and what takes it away.
use gopanel.Common.{
  ℕ, ◌<◌, ◌≡◌, refl, ap, ◌∙◌, Bool, false, Option, none, some, Bytes, eqb, eqb_iff, arith,
}
use gopanel.Common.Result.{ok}
use gopanel.Database.{Db, UserRow, SessionRow}
use gopanel.Database.Rows.{find_row, find_row_sound}
use gopanel.Auth.Store.{User, user_of_row, token_hash, joined, joined_user, find_session}

abbrev pub by_hash : Bytes → SessionRow → Bool
by_hash hash s = eqb s.token_hash hash

abbrev pub by_id : Bytes → UserRow → Bool
by_id id u = eqb u.id id

-- What stands behind a session that is found.
pub record Live (hash : Bytes) (now : ℕ) (db : Db) (u : User) : Type 0 where
  pub session : SessionRow
  pub stored : find_row (λ (s : SessionRow). eqb s.token_hash hash) db.sessions ≡ some session
  pub not_expired : now < session.expires_at
  pub row : UserRow
  pub known : find_row (λ (r : UserRow). eqb r.id session.user_id) db.users ≡ some row
  pub is_user : u ≡ user_of_row row

pub Live-user :
    (hash : Bytes) (now : ℕ) (db : Db) (u : User) (l : Live hash now db u)
    → u.id ≡ l.session.user_id
Live-user hash now db u l =
    ap (λ (v : User). v.id) l.is_user
    ∙ (eqb_iff l.row.id l.session.user_id).0
        (find_row_sound (by_id l.session.user_id) db.users l.row l.known)

module _ (sum : Bytes → Bytes) (token : Bytes) (now : ℕ) (db : Db) (u : User) where
  from_joined :
      (s : SessionRow) (row : Option UserRow)
      → find_row (by_hash (token_hash sum token)) db.sessions ≡ some s
      → find_row (by_id s.user_id) db.users ≡ row
      → joined_user now s row ≡ ok u
      → Live (token_hash sum token) now db u
  from_joined s none stored known h = cc
  from_joined s (some row) stored known h = record {
    session = s;
    stored = stored;
    not_expired = ground arith;
    row = row;
    known = known;
    is_user = ground arith;
  }

  live :
      (s : Option SessionRow)
      → find_row (by_hash (token_hash sum token)) db.sessions ≡ s
      → joined now db.users s ≡ ok u
      → Live (token_hash sum token) now db u
  live none stored h = cc
  live (some s) stored h = from_joined s _ stored refl h

  -- A user is found for a token only by an unexpired session of that user that is stored under the
  -- token's hash.
  pub find_session-Live :
      find_session sum false token now db ≡ ok u → Live (token_hash sum token) now db u
  unfolding find_session
  find_session-Live h = live _ refl h

  pub Live-find_session :
      Live (token_hash sum token) now db u → find_session sum false token now db ≡ ok u
  unfolding find_session
  Live-find_session l = rw (l.stored, l.known) (ground (arith, l.not_expired, l.is_user))
