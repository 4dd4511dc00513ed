-- ===== src/Auth/Handler/SignIn.antt =====
-- internal/auth: from a sign-in to the requests of its session.
use gopanel.Common.{◌≡◌, refl, ap, ◌<◌, false, [], ◌∷◌, some, codes}
use gopanel.Common.Result.{Result, ok}
use gopanel.Http.{Request, form_value, World}
use gopanel.Auth.Service.{AuthError, State, LoggedIn, login, user_for_session}
use gopanel.Auth.Service.Login.{UniqueIds, login-find_session}
use gopanel.Auth.Handler.{
  Config, Ambient, session_cookie_name, login_cookie_name, session_token, set_cookie, clear_cookie,
  legacy_session_cookie, redirect,
}
use gopanel.Auth.Handler.Answers.{post_login, respond_to_login, service_state, with_state}
use gopanel.Auth.Handler.Guards.{with_user}
use gopanel.Auth.Handler.Guards.Admission.{admit_session}

module _ (config : Config) (env : Ambient) where
  -- `Login` with the fields of the form.
  abbrev pub form_login : Request → World → Result AuthError LoggedIn × State
  form_login r w =
      login config.ext env.login_env (form_value r (codes "email"))
        (form_value r (codes "password")) (service_state config env w)

  responded-ok :
      (r : Request) (w : World) (l : LoggedIn)
      → (form_login r w).0 ≡ ok l
      → (post_login config env r w)
        ≡ redirect config env r
            (clear_cookie config (login_cookie_name config)
              ∷ clear_cookie config (legacy_session_cookie config)
              ∷ set_cookie config (session_cookie_name config) l.token l.expires env.now
              ∷ [])
            (codes "/")
            (with_state config env w (form_login r w).1)
  unfolding post_login respond_to_login
  responded-ok r w l granted =
      ap (λ reply. respond_to_login config env r reply (with_state config env w (form_login r w).1))
        granted

  -- A sign-in that is granted sets the cookie of the session, and every later request with that session
  -- is let through as the user's before the session expires, where users' identifiers are keys and
  -- the look at the session does not fail.
  pub post_login-admit_session :
      (r next : Request) (w : World) (l : LoggedIn) (later : Ambient)
      → UniqueIds w.db.users
      → (form_login r w).0 ≡ ok l
      → session_token config next ≡ l.token
      → later.find_fails ≡ false
      → later.now < l.expires
      → ((post_login config env r w).0.cookies
          ≡ clear_cookie config (login_cookie_name config)
            ∷ clear_cookie config (legacy_session_cookie config)
            ∷ set_cookie config (session_cookie_name config) l.token l.expires env.now
            ∷ [])
        × (admit_session config later next (post_login config env r w).1
            ≡ some (with_user next l.token l.user))
  unfolding redirect user_for_session
  post_login-admit_session r next w l later unique granted same works before =
      let found =
        login-find_session config.ext env.login_env (form_value r (codes "email"))
          (form_value r (codes "password")) (service_state config env w) l later.now unique granted
          before in
      rw (responded-ok r w l granted, same, works, found) (refl, refl)
