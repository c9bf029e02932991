-- ===== src/Api/Accounts.antt =====
-- internal/api/auth.go and the redirect of internal/api/spa.go: the account handlers.
pub mod Claim
pub mod Once
use safe_play_guardian.Prelude.{
  ℕ, ◌+◌, String, Bool, true, false, Option, none, some, if◌then◌else◌,
}
use safe_play_guardian.Auth.Accounts.{
  User, Hashing, has_users, create, login, logout, verify, session_lifetime,
}
use safe_play_guardian.Store.Exec.{World, Error, bad_credentials, Result, ok, err, Db, ticked}
use safe_play_guardian.Api.Reply.{Reply, write_json, write_error, Handler, finish, attempt}

pub record Credentials : Type 0 where
  pub username : String
  pub password : String

-- What happens to the session cookie: a new token with its expiry, or an empty one.
pub data CookieChange : Type 0 where
  kept : CookieChange
  set_cookie : String → ℕ → CookieChange
  cleared : CookieChange

abbrev pub Answer : Type 0 → Type 0
Answer A = Reply A × CookieChange

-- The body of Me: the user, or whether an account exists.
pub data Session : Type 0 where
  authenticated : User → Session
  anonymous : Bool → Session

abbrev pub refused : {A : Type 0} → ℕ → String → Answer A
refused status text = (write_error status text, kept)

abbrev login_failure : Error → Answer Bool
login_failure bad_credentials = refused 401 "invalid credentials"
login_failure e = refused 500 "login"

module _ (w : World) (h : Hashing) where
  -- setSessionCookie, and then the body.
  unfoldable pub with_session : {A : Type 0} → ℕ → A → String → Handler (Answer A)
  with_session status body token s =
      ((write_json status body, set_cookie token (w.now s.tick + session_lifetime)), ticked s)

  -- Setup behind the two checks and the decoding; the texts of errors are a parameter.
  unfoldable pub claim : (Error → String) → Credentials → Handler (Answer User)
  unfolding with_session
  claim message req =
      attempt (create w h req.username req.password) (λ e. refused 400 (message e))
        (λ user.
          attempt (login w h req.username req.password) (λ e. refused 500 "issue session")
            (with_session 201 user))

  abbrev pub claim_decoded : (Error → String) → Option Credentials → Handler (Answer User)
  claim_decoded message none = finish (refused 400 "invalid JSON")
  claim_decoded message (some req) = claim message req

  -- Setup
  unfoldable pub setup : (Error → String) → Option Credentials → Handler (Answer User)
  unfolding claim
  setup message body =
      attempt (has_users w h) (λ e. refused 500 "setup")
        (λ has.
          if has then finish (refused 400 "setup already complete") else claim_decoded message body)

  -- Login
  unfoldable pub login_handler : Option Credentials → Handler (Answer Bool)
  unfolding with_session
  login_handler none = finish (refused 400 "invalid JSON")
  login_handler (some req) =
      attempt (login w h req.username req.password) login_failure (with_session 200 true)

  -- Logout; the error of the store is dropped.
  unfoldable pub logout_handler : Option String → Handler (Answer Bool)
  logout_handler none s = ((write_json 200 true, cleared), s)
  logout_handler (some token) s = ((write_json 200 true, cleared), (logout w h token s).1)

  abbrev has_or_not : Result Bool × Db → Bool × Db
  has_or_not (ok b, s) = (b, s)
  has_or_not (err e, s) = (false, s)

  abbrev pub me_anonymous : Db → Session × Db
  me_anonymous s = let (has, s') = has_or_not (has_users w h s) in (anonymous has, s')

  abbrev pub me_verified : Result User × Db → Session × Db
  me_verified (ok u, s) = (authenticated u, s)
  me_verified (err e, s) = me_anonymous s

  -- Me, which always answers 200.
  unfoldable pub me : Option String → Db → Session × Db
  me none s = me_anonymous s
  me (some token) s = me_verified (verify w h token s)

  abbrev pub redirect_known : Result Bool × Db → String × Db
  redirect_known (ok false, s) = ("/first-run", s)
  redirect_known (ok true, s) = ("/login", s)
  redirect_known (err e, s) = ("/login", s)

  abbrev pub redirect_verified : Result User × Db → String × Db
  redirect_verified (ok u, s) = ("/home", s)
  redirect_verified (err e, s) = redirect_known (has_users w h s)

  -- rootRedirect, where there is a store.
  unfoldable pub root_redirect : Option String → Db → String × Db
  root_redirect none s = redirect_known (has_users w h s)
  root_redirect (some token) s = redirect_verified (verify w h token s)

-- A request to the account routes, decoded: the body, or the session cookie.
pub data AccountRequest : Type 0 where
  setup_request : Option Credentials → AccountRequest
  login_request : Option Credentials → AccountRequest
  logout_request : Option String → AccountRequest
  me_request : Option String → AccountRequest

-- The routes of internal/api/router.go under /api/auth; what the request leaves.
unfoldable pub serve : World → Hashing → (Error → String) → AccountRequest → Db → Db
unfolding setup login_handler logout_handler me
serve w h message (setup_request body) s = (setup w h message body s).1
serve w h message (login_request body) s = (login_handler w h body s).1
serve w h message (logout_request cookie) s = (logout_handler w h cookie s).1
serve w h message (me_request cookie) s = (me w h cookie s).1
