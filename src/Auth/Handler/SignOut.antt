-- ===== src/Auth/Handler/SignOut.antt =====
-- internal/auth: from a password change to the later requests of the user.
use gopanel.Common.{◌≡◌, ◌≢◌, refl, ap, false, none, some, Option, Bytes, codes, arith}
use gopanel.Common.Result.{Result, ok, err}
use gopanel.Database.{Db}
use gopanel.Http.{Request, form_value, current_user, World}
use gopanel.Auth.Store.{User, StoreError, not_found, find_session}
use gopanel.Auth.Service.{AuthError, change_password, user_for_session, session_reply}
use gopanel.Auth.Service.Revocation.{change_password_revokes}
use gopanel.Auth.Handler.{Config, Ambient, session_token, redirect}
use gopanel.Auth.Handler.Answers.{post_password, respond_to_password_change}
use gopanel.Auth.Handler.Guards.Admission.{of_session, admit_session}

abbrev or_request : Request → Option Request → Request
or_request r none = r
or_request r (some other) = other

module _ (config : Config) (env : Ambient) where
  -- `ChangePassword` with the fields of the form.
  abbrev pub form_change : Request → World → Result AuthError (Unit {0}) × Db
  form_change r w =
      change_password config.ext env.salt_random env.update_env (current_user r)
        (form_value r (codes "current_password")) (form_value r (codes "new_password"))
        (form_value r (codes "confirm_password")) w.db

  responded-db :
      (r : Request) (w : World) (db' : Db)
      → form_change r w ≡ (ok tt, db')
      → (post_password config env r w).1 ≡ record w { db = db' }
  unfolding post_password respond_to_password_change redirect
  responded-db r w db' changed =
      ap
        (λ (c : Result AuthError (Unit {0}) × Db).
          (respond_to_password_change config env r c.0 (record w { db = c.1 })).1)
        changed

  not_admitted :
      (next : Request) (token : Bytes) (e : StoreError)
      → of_session config env next token (session_reply (err e)) ≡ none
  not_admitted next token not_found = refl
  not_admitted next token _ = refl

  same_user :
      (next admitted : Request) (token : Bytes) (reply : Result StoreError User)
      → of_session config env next token (session_reply reply) ≡ some admitted
      → reply ≡ ok (current_user admitted)
  same_user next admitted token (err e) h =
      let refused = not_admitted next token e in absurd (ground (arith, refused, h))
  same_user next admitted token (ok user) h = ap (λ r. ok (current_user (or_request next r))) h

module _ (config : Config) (env later : Ambient) where
  -- After a password change that succeeds, no request is let through as that user's, whatever session
  -- it has, as long as the look at the session does not fail.
  pub post_password-admit_session :
      (r next admitted : Request) (w : World) (db' : Db)
      → form_change config env r w ≡ (ok tt, db')
      → later.find_fails ≡ false
      → admit_session config later next (post_password config env r w).1 ≡ some admitted
      → (current_user admitted).id ≢ (current_user r).id
  unfolding user_for_session
  post_password-admit_session r next admitted w db' changed works h =
      let token = session_token config next in
      let found : find_session config.ext.sum false token later.now db'
          ≡ ok (current_user admitted) =
        same_user config later next admitted token
          (find_session config.ext.sum false token later.now db')
          (rw (responded-db config env r w db' changed, works) at h) in
      change_password_revokes config.ext env.salt_random env.update_env (current_user r)
        (form_value r (codes "current_password")) (form_value r (codes "new_password"))
        (form_value r (codes "confirm_password")) w.db db' token later.now (current_user admitted)
        changed found
