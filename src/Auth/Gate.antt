-- ===== src/Auth/Gate.antt =====
-- internal/auth/middleware.go: which requests the session gate lets through.
pub mod Guard
use safe_play_guardian.Prelude.{
  String, Bool, true, false, not, ◌==◌, Option, none, some, if◌then◌else◌, has_prefix,
}
use safe_play_guardian.Store.Exec.{Result, ok, err, Db, M}
use safe_play_guardian.Auth.Accounts.{User}

-- requiresAuth, on the URL's path
unfoldable pub requires_auth : String → Bool
unfolding has_prefix
requires_auth p =
    if not (has_prefix p "/api/")
    then false
    else if has_prefix p "/api/auth/"
    then false
    else if has_prefix p "/api/agent/"
    then false
    else true

-- What the gate does with a request: it answers 401, or passes it on with the user, if any.
pub data Passage : Type 0 where
  unauthorized : Passage
  served : Option User → Passage

abbrev pub passage_of : Result User × Db → Passage × Db
passage_of (ok u, s) = (served (some u), s)
passage_of (err e, s) = (unauthorized, s)

abbrev pub with_cookie : (String → M User) → Option String → Db → Passage × Db
with_cookie verify none s = (unauthorized, s)
with_cookie verify (some token) s = passage_of (verify token s)

-- AuthGate, over the store's Verify and the request's session cookie.
unfoldable pub auth_gate : (String → M User) → String → Option String → Db → Passage × Db
unfolding requires_auth
auth_gate verify path cookie s =
    if requires_auth path then with_cookie verify cookie s else (served none, s)
