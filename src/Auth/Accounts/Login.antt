-- ===== src/Auth/Accounts/Login.antt =====
-- A login opens a session that Verify accepts until it expires.
use safe_play_guardian.Prelude.{
  ℕ, ◌+◌, ◌<◌, ◌≡◌, ◌≢◌, refl, ◌==◌, ◌&&◌, ltb, nat_eq, string_eq, eq_iff, String, Bool, true,
  false, some, List, [], ◌∷◌, ◌++◌, any, arith,
}
use safe_play_guardian.Device.Rows.{first_where}
use safe_play_guardian.Store.Tables.{UserRow, SessionRow, Tables}
use safe_play_guardian.Store.Exec.{World, ok, Db, clock, draw, ticked}
use safe_play_guardian.Store.Runs.{steps, Done, query-eq, exec-eq}
use safe_play_guardian.Auth.Accounts.{
  User, user_of, session_user, verify, Hashing, login, login_row, issue, insert_session,
  session_lifetime,
}

-- Nobody holds the token.
abbrev pub unused : String → List SessionRow → Bool
unused token rows = any (λ (r : SessionRow). r.token == token) rows

first_where-append :
    (token : String) (now : ℕ) (rows : List SessionRow) (x : SessionRow)
    → unused token rows ≡ false
    → x.token ≡ token
    → now < x.expires_at
    → first_where (λ (r : SessionRow). r.token == token && ltb now r.expires_at) (rows ++ x ∷ [])
      ≡ some x
unfolding first_where
first_where-append token now [] x u e h = ground (arith, eq_iff x.token token)
first_where-append token now (r ∷ rows) x u e h =
    ground (arith, first_where-append token now rows x)

has_user :
    (id : String) (rows : List UserRow) {u : UserRow}
    → first_where (λ (r : UserRow). r.id == id) rows ≡ some u
    → any (λ (r : UserRow). r.id == id) rows ≡ true
unfolding first_where
has_user id [] e = cc
has_user id (r ∷ rows) {u} e = ground (arith, has_user id rows {u = u})

module _ (w : World) (faultless : (n : ℕ) → w.fails n ≡ false) (h : Hashing) where
  -- In a later state with these tables, before the session expires, Verify of the token answers
  -- with the user.
  abbrev pub Admits : User → ℕ → String → Tables → Type 0
  Admits user expires token t =
      (u : Db) → u.tables ≡ t → w.now u.tick < expires → (verify w h token u).0 ≡ ok user

  -- The tables with one more session.
  abbrev pub with_row : SessionRow → Tables → Tables
  with_row x t = record t { auth_sessions = t.auth_sessions ++ x ∷ [] }

  verify-with_row :
      (x : SessionRow) (t : Tables) (row : UserRow)
      → x.token ≢ ""
      → unused x.token t.auth_sessions ≡ false
      → first_where (λ (r : UserRow). r.id == x.user_id) t.auth_users ≡ some row
      → Admits (user_of row) x.expires_at x.token (with_row x t)
  unfolding verify clock session_user
  verify-with_row x t row given fresh found u e now =
      let named : (x.token == "") ≡ false = ground (arith, eq_iff x.token "") in
      let user : session_user x.token (w.now u.tick) (with_row x t) ≡ some (user_of row) =
        rw
          (
            session_user,
            first_where-append x.token (w.now u.tick) t.auth_sessions x fresh refl now,
            found,
          )
          refl in
      rw (named, query-eq w faultless (session_user x.token (w.now u.tick)) (ticked u), e, user)
        refl

  -- What Login leaves: the tables with one more session, whose token is new.
  abbrev pub Opens : UserRow → ℕ → Tables → String → Tables → Type 0
  Opens row expires before token t =
      (t ≡ with_row (record { token = token; user_id = row.id; expires_at = expires }) before)
      × Admits (user_of row) expires token t

  issue-Opens :
      (row : UserRow) (s : Db)
      → first_where (λ (r : UserRow). r.id == row.id) s.tables.auth_users ≡ some row
      → w.random s.tick ≢ ""
      → unused (w.random s.tick) s.tables.auth_sessions ≡ false
      → Done (Opens row (w.now (s.tick + 1) + session_lifetime) s.tables) (issue w h row.id s)
  unfolding issue draw clock insert_session
  issue-Opens row s found given fresh =
      let x : SessionRow = record {
        token = w.random s.tick;
        user_id = row.id;
        expires_at = w.now (s.tick + 1) + session_lifetime;
      } in
      let inserted : insert_session x s.tables ≡ some (with_row x s.tables) =
        rw (fresh, has_user row.id s.tables.auth_users found) refl in
      rw (exec-eq w faultless (insert_session x) (ticked (ticked s)) inserted)
        (refl, verify-with_row x s.tables row given fresh found)

  -- Where no statement fails, the name is that of a user, the password verifies, and the token that
  -- is drawn is new and not empty, Login succeeds and adds one session; in every later state with
  -- these tables, before the session expires, Verify of the token answers with the user.
  pub login-verify :
      (username password : String) (row : UserRow) (s : Db)
      → first_where (λ (r : UserRow). r.username == username) s.tables.auth_users ≡ some row
      → first_where (λ (r : UserRow). r.id == row.id) s.tables.auth_users ≡ some row
      → h.verify_password password row.pw_hash ≡ true
      → w.random (s.tick + 1) ≢ ""
      → unused (w.random (s.tick + 1)) s.tables.auth_sessions ≡ false
      → Done
          (Opens row (w.now (steps 2 s.tick) + session_lifetime) s.tables)
          (login w h username password s)
  unfolding login login_row
  login-verify username password row s named found verified given fresh =
      rw
        (
          query-eq w faultless
              (λ t. first_where (λ (r : UserRow). r.username == username) t.auth_users) s,
          named,
          verified,
        )
        (issue-Opens row (ticked s) found given fresh)
