-- ===== src/Api/Accounts/Claim.antt =====
-- Setup claims a household without accounts, if the name has no spaces around it.
use Prim.Native.String
use safe_play_guardian.Prelude.{
  ℕ, ◌+◌, ◌≤◌, ◌≡◌, ◌≢◌, refl, ap, ◌==◌, ltb, nat_eq, string_eq, eq_iff, eq_refl, String, true,
  false, none, some, [], ◌∷◌, any, arith, trim_space,
}
use safe_play_guardian.Device.Rows.{first_where}
use safe_play_guardian.Store.Tables.{UserRow, Tables}
use safe_play_guardian.Store.Exec.{World, ok, Error, Db, draw, ticked}
use safe_play_guardian.Store.Runs.{steps, query-eq, exec-eq}
use safe_play_guardian.Auth.Accounts.{
  User, user_of, Hashing, has_users, create, create_checked, insert_user, login, login_row,
  session_lifetime,
}
use safe_play_guardian.Auth.Accounts.Login.{Admits, Opens, login-verify, unused}
use safe_play_guardian.Api.Reply.{write_json}
use safe_play_guardian.Api.Reply.Leaves.{Leaves, attempted-Done}
use safe_play_guardian.Api.Accounts.{
  Credentials, Answer, set_cookie, with_session, claim, setup, refused,
}

-- The hash verifies the password that it was made from, whichever salt is drawn.
abbrev pub Verifies : Hashing → Type 0
Verifies h =
    (password salt : String) → h.verify_password password (h.hash_password password salt) ≡ true

module _ (w : World) (faultless : (n : ℕ) → w.fails n ≡ false) (h : Hashing) where
  -- The account that Create makes, from the two texts that it draws.
  abbrev pub new_row : Credentials → ℕ → UserRow
  new_row req tick = record {
    id = w.random (tick + 1);
    username = trim_space req.username;
    pw_hash = h.hash_password req.password (w.random tick);
  }

  abbrev claimed : Credentials → Db → Db
  claimed req s = record {
    tick = steps 3 s.tick;
    tables = record s.tables { auth_users = new_row req s.tick ∷ [] };
  }

  create-claimed :
      (req : Credentials) (s : Db)
      → s.tables.auth_users ≡ []
      → trim_space req.username ≢ ""
      → 8 ≤ String.len req.password
      → create w h req.username req.password s ≡ (ok (user_of (new_row req s.tick)), claimed req s)
  unfolding create create_checked draw insert_user
  create-claimed req s empty named long =
      let given : (trim_space req.username == "") ≡ false =
        ground (arith, eq_iff (trim_space req.username) "") in
      let enough : ltb (String.len req.password) 8 ≡ false = ground arith in
      let inserted : insert_user (new_row req s.tick) s.tables ≡ some (claimed req s).tables =
        rw empty refl in
      rw
        (
          given,
          enough,
          exec-eq w faultless (insert_user (new_row req s.tick)) (ticked (ticked s)) inserted,
        )
        refl

  -- The account is made, and Verify of the cookie's token answers with it until the session
  -- expires.
  abbrev pub Claims : Credentials → ℕ → Answer User → Tables → Type 0
  Claims req tick answer t =
      (token : String) × (expires : ℕ) × (answer
        ≡ (write_json 201 (user_of (new_row req (tick + 1))), set_cookie token expires))
      × (t.auth_users ≡ new_row req (tick + 1) ∷ [])
      × Admits w faultless h (user_of (new_row req (tick + 1)))
          (w.now (steps 6 tick) + session_lifetime) token t

  -- The account is made, but the answer is an error and carries no cookie.
  abbrev pub Strands : Credentials → ℕ → Answer User → Tables → Type 0
  Strands req tick answer t =
      (answer ≡ refused 500 "issue session") × (t.auth_users ≡ new_row req (tick + 1) ∷ [])

  module _ (message : Error → String) (req : Credentials) (s : Db)
      (empty : s.tables.auth_users ≡ []) (named : trim_space req.username ≢ "")
      (long : 8 ≤ String.len req.password) where
    abbrev row : UserRow
    row = new_row req (s.tick + 1)

    setup-claim : setup w h message (some req) s ≡ claim w h message req (ticked s)
    unfolding setup has_users
    setup-claim =
        rw (query-eq w faultless (λ t. any (λ (r : UserRow). true) t.auth_users) s, empty) refl

    -- Setup of a household without accounts and sessions, where no statement fails, with a name
    -- that has no spaces around it, a password of at least eight bytes, a hash that verifies, and
    -- tokens that are not empty: the answer is 201 with the account and a session cookie, the
    -- account is the only one, and Verify of the cookie's token answers with it until the session
    -- expires.
    pub setup-Claims :
        trim_space req.username ≡ req.username
        → s.tables.auth_sessions ≡ []
        → Verifies h
        → ((n : ℕ) → w.random n ≢ "")
        → Leaves (Claims req s.tick) (setup w h message (some req) s)
    unfolding claim with_session first_where
    setup-Claims bare none_open verifies given =
        let by_name : first_where (λ (r : UserRow). r.username == req.username) (row ∷ [])
            ≡ some row =
          ground (arith, eq_iff (trim_space req.username) req.username) in
        let by_id : first_where (λ (r : UserRow). r.id == row.id) (row ∷ []) ≡ some row =
          ground (arith, eq_refl row.id) in
        let fresh : unused (w.random (steps 5 s.tick)) s.tables.auth_sessions ≡ false =
          rw none_open refl in
        rw (setup-claim, create-claimed req (ticked s) empty named long)
          (attempted-Done
            (Opens w faultless h row (w.now (steps 6 s.tick) + session_lifetime)
              (claimed req (ticked s)).tables)
            (Claims req s.tick) (login w h req.username req.password (claimed req (ticked s)))
            (λ e. refused 500 "issue session") (with_session w h 201 (user_of row))
            (login-verify w faultless h req.username req.password row (claimed req (ticked s))
              by_name by_id (verifies req.password (w.random (s.tick + 1))) (given (steps 5 s.tick))
              fresh)
            (λ token u (e, admits). (
              token,
              w.now u.tick + session_lifetime,
              refl,
              ap (λ (t : Tables). t.auth_users) e,
              admits,
            )))

    -- Under the same conditions, but with a name that has spaces around it, the answer is 500
    -- without a cookie, and yet the account is there.
    pub setup-Strands :
        trim_space req.username ≢ req.username
        → Leaves (Strands req s.tick) (setup w h message (some req) s)
    unfolding claim first_where login login_row
    setup-Strands spaced =
        let by_name : first_where (λ (r : UserRow). r.username == req.username) (row ∷ []) ≡ none =
          ground (arith, eq_iff (trim_space req.username) req.username) in
        rw
          (
            setup-claim,
            create-claimed req (ticked s) empty named long,
            query-eq w faultless
                (λ t. first_where (λ (r : UserRow). r.username == req.username) t.auth_users)
                (claimed req (ticked s)),
            by_name,
          )
          (refl, refl)
