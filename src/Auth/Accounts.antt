-- ===== src/Auth/Accounts.antt =====
-- internal/auth/store.go: accounts and sessions. The password hash is argon2's.
pub mod Sessions
pub mod Login
use Prim.Native.String
use safe_play_guardian.Prelude.{
  ℕ, ◌+◌, ltb, leb, nat_eq, string_eq, ◌==◌, String, Bool, true, false, not, ◌&&◌, Option, none,
  some, List, [], ◌∷◌, ◌++◌, any, if◌then◌else◌, trim_space,
}
use safe_play_guardian.Device.Rows.{where_, first_where}
use safe_play_guardian.Store.Tables.{UserRow, SessionRow, Tables}
use safe_play_guardian.Store.Exec.{
  World, Result, ok, err, Db, M, ◌>>=◌, ◌>>◌, return, raise, query, exec, clock, draw, Error,
  username_required, password_too_short, user_exists, bad_credentials, no_session, constraint,
}

pub record User : Type 0 where
  pub id : String
  pub username : String

-- Seven days, in nanoseconds.
abbrev pub session_lifetime : ℕ
session_lifetime = 604_800_000_000_000

-- HashPassword and VerifyPassword: a hash depends on the password and a salt.
pub record Hashing : Type 0 where
  pub hash_password : String → String → String
  pub verify_password : String → String → Bool

-- The table's two unique columns.
unfoldable pub insert_user : UserRow → Tables → Option Tables
insert_user u t =
    if any (λ (r : UserRow). r.username == u.username) t.auth_users
    then none
    else if any (λ (r : UserRow). r.id == u.id) t.auth_users
    then none
    else some (record t { auth_users = t.auth_users ++ u ∷ [] })

unfoldable pub insert_session : SessionRow → Tables → Option Tables
insert_session x t =
    if any (λ (r : SessionRow). r.token == x.token) t.auth_sessions
    then none
    else if any (λ (r : UserRow). r.id == x.user_id) t.auth_users
    then some (record t { auth_sessions = t.auth_sessions ++ x ∷ [] })
    else none

unfoldable pub delete_session : String → Tables → Option Tables
delete_session token t = some (record t {
  auth_sessions = where_ (λ (r : SessionRow). not (r.token == token)) t.auth_sessions;
})

unfoldable pub purge_sessions : ℕ → Tables → Option Tables
purge_sessions now t =
    some (record t {
      auth_sessions = where_ (λ (r : SessionRow). ltb now r.expires_at) t.auth_sessions;
    })

abbrev pub user_of : UserRow → User
user_of r = record { id = r.id; username = r.username }

-- The join of Verify: a session that has not expired, and its user.
unfoldable pub session_user : String → ℕ → Tables → Option User
session_user token now t =
    elim (first_where (λ (s : SessionRow). s.token == token && ltb now s.expires_at)
      t.auth_sessions) [
        | none ↦ none
        | some s ↦ elim (first_where (λ (u : UserRow). u.id == s.user_id) t.auth_users) [
          | none ↦ none
          | some u ↦ some (user_of u)
        ]
      ]

module _ (w : World) (h : Hashing) where
  -- HasUsers
  unfoldable pub has_users : M Bool
  has_users = query w (λ t. any (λ (r : UserRow). true) t.auth_users)

  -- An INSERT that violates a unique column is the error "user already exists".
  abbrev pub as_exists : Result (Unit {0}) × Db → Result (Unit {0}) × Db
  as_exists (ok u, s) = (ok u, s)
  as_exists (err constraint, s) = (err user_exists, s)
  as_exists (err e, s) = (err e, s)

  -- The part of Create behind its two checks.
  unfoldable pub create_checked : String → String → M User
  create_checked username password = draw w >>= λ salt. draw w >>= λ id.
      (λ s. as_exists (
        exec w
          (insert_user
            (record { id = id; username = username; pw_hash = h.hash_password password salt }))
          s))
      >>= λ _. return (record { id = id; username = username })

  -- Create
  unfoldable pub create : String → String → M User
  unfolding create_checked
  create username password =
      if trim_space username == ""
      then raise username_required
      else if ltb (String.len password) 8
      then raise password_too_short
      else create_checked (trim_space username) password

  -- Login once the password is verified.
  unfoldable pub issue : String → M String
  issue user_id = draw w >>= λ token. clock w >>= λ now.
      exec w (
        insert_session
          (record { token = token; user_id = user_id; expires_at = now + session_lifetime }))
      >>= λ _. return token

  unfoldable pub login_row : String → Option UserRow → M String
  unfolding issue
  login_row password none = raise bad_credentials
  login_row password (some u) =
      if h.verify_password password u.pw_hash then issue u.id else raise bad_credentials

  -- Login
  unfoldable pub login : String → String → M String
  unfolding login_row
  login username password =
      query w (λ t. first_where (λ (u : UserRow). u.username == username) t.auth_users)
      >>= login_row password

  abbrev or_no_session : Option User → M User
  or_no_session none = raise no_session
  or_no_session (some u) = return u

  -- Verify
  unfoldable pub verify : String → M User
  verify token =
      if token == ""
      then raise no_session
      else (clock w >>= λ now. query w (session_user token now) >>= or_no_session)

  -- Logout
  unfoldable pub logout : String → M (Unit {0})
  logout token = exec w (delete_session token)

  -- PurgeExpired
  unfoldable pub purge_expired : M (Unit {0})
  purge_expired = clock w >>= λ now. exec w (purge_sessions now)
