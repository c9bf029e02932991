-- ===== src/Api/Accounts/Once.antt =====
-- Whatever requests reach the account handlers, one after another, they make at most one account.
use Prim.Native.String
use safe_play_guardian.Prelude.{
  ℕ, ◌≤◌, ◌≡◌, refl, sym, subst, ◌==◌, ltb, nat_eq, string_eq, String, Bool, true, false,
  Bool-cases, Option-cases, inl, inr, Option, none, some, List, [], ◌∷◌, any, length, arith,
  if◌then◌else◌, trim_space,
}
use safe_play_guardian.Store.Tables.{UserRow, SessionRow, Tables}
use safe_play_guardian.Store.Exec.{World, Result, ok, err, Error, Db, query, exec, draw, clock}
use safe_play_guardian.Store.Keeps.{
  Post, Ensures, Nothing, >>=-Post, >>=-keeps, query-Ensures, query-keeps, exec-keeps, clock-keeps,
  draw-keeps,
}
use safe_play_guardian.Auth.Accounts.{
  User, Hashing, has_users, create, create_checked, as_exists, insert_user, insert_session,
  delete_session, login, login_row, issue, logout, verify,
}
use safe_play_guardian.Auth.Accounts.Sessions.{Verified, verify_sound}
use safe_play_guardian.Api.Reply.{finish}
use safe_play_guardian.Api.Reply.Leaves.{Leaves, attempted-Leaves}
use safe_play_guardian.Api.Accounts.{
  Credentials, Answer, with_session, claim, claim_decoded, setup, login_handler, logout_handler, me,
  me_anonymous, me_verified, refused, AccountRequest, setup_request, login_request, logout_request,
  me_request, serve,
}

-- There is at most one account.
abbrev pub Single : Tables → Type 0
Single t = length t.auth_users ≤ 1

abbrev Empty : Tables → Type 0
Empty t = t.auth_users ≡ []

Empty-Single : (t : Tables) → Empty t → Single t
Empty-Single t e = rw (e, length) (omega arith)

insert_session-Single :
    (x : SessionRow) (t t' : Tables) → Single t → insert_session x t ≡ some t' → Single t'
unfolding insert_session
insert_session-Single x t t' h e = ground arith

insert_user-Single : (u : UserRow) (t t' : Tables) → Empty t → insert_user u t ≡ some t' → Single t'
unfolding insert_user
insert_user-Single u t t' h e = ground arith

as_exists-Post :
    (w : World) (h : Hashing) (p : Result (Unit {0}) × Db)
    → Post Single Nothing p
    → Post Single Nothing (as_exists w h p)
as_exists-Post w h (ok u, s) i = i
as_exists-Post w h (err e, s) i = ground arith

module _ (w : World) (h : Hashing) where
  create-Single :
      (username password : String) (s : Db)
      → Empty s.tables
      → Post Single Nothing (create w h username password s)
  unfolding create create_checked draw exec
  create-Single username password s e = elim (Bool-cases (trim_space username == "")) [
    | inl a ↦ rw a (Empty-Single s.tables e)
    | inr a ↦ elim (Bool-cases (ltb (String.len password) 8)) [
      | inl b ↦ rw (a, b) (Empty-Single s.tables e)
      | inr b ↦
          rw (a, b)
            (>>=-Post Single Single (λ t i. i) Nothing Nothing _ _
              (as_exists-Post w h _ (inserted _ _ e)) (λ u v i q. (i, tt)))
    ]
  ]
    where
      inserted :
          (row : UserRow) (v : Db)
          → Empty v.tables
          → Post Single Nothing (exec w (insert_user row) v)
      inserted row v f = elim (Bool-cases (w.fails v.tick)) [
        | inl a ↦ rw a (Empty-Single v.tables f)
        | inr a ↦ elim (Option-cases (insert_user row v.tables)) [
          | inl n ↦ rw (a, n) (Empty-Single v.tables f)
          | inr (t, n) ↦ rw (a, n) (insert_user-Single row v.tables t f n, tt)
        ]
      ]

  issue-Single : (id : String) → Ensures Single (issue w h id) Nothing
  unfolding issue
  issue-Single id = >>=-keeps Single Nothing (draw w) _ (draw-keeps Single w) (λ token.
      >>=-keeps Single Nothing (clock w) _ (clock-keeps Single w) (λ now.
        >>=-keeps Single Nothing (exec w (insert_session _)) _
          (exec-keeps Single w (insert_session _) (insert_session-Single _)) (λ _ s i. (i, tt))))

  login_row-Single :
      (password : String) (o : Option UserRow) → Ensures Single (login_row w h password o) Nothing
  unfolding login_row
  login_row-Single password none s i = i
  login_row-Single password (some u) s i =
      elim (Bool-cases (h.verify_password password u.pw_hash)) [
        | inl e ↦ rw e (issue-Single u.id s i)
        | inr e ↦ rw e i
      ]

  login-Single : (username password : String) → Ensures Single (login w h username password) Nothing
  unfolding login
  login-Single username password =
      >>=-keeps Single Nothing (query w _) (login_row w h password) (query-keeps Single w _)
        (login_row-Single password)

  login_handler-Single :
      (body : Option Credentials) (s : Db)
      → Single s.tables
      → Single (login_handler w h body s).1.tables
  unfolding login_handler with_session
  login_handler-Single none s i = i
  login_handler-Single (some req) s i =
      attempted-Leaves Single Nothing (λ c. Single) (login w h req.username req.password s) _ _
        (login-Single req.username req.password s i) (λ e t j. j) (λ a u j q. j)

  claim-Single :
      (message : Error → String) (req : Credentials) (s : Db)
      → Empty s.tables
      → Leaves (λ (c : Answer User). Single) (claim w h message req s)
  unfolding claim with_session
  claim-Single message req s e =
      attempted-Leaves Single Nothing (λ c. Single) (create w h req.username req.password s) _ _
        (create-Single req.username req.password s e) (λ e t j. j)
        (λ user u i q.
          attempted-Leaves Single Nothing (λ c. Single) (login w h req.username req.password u) _ _
            (login-Single req.username req.password u i) (λ e t j. j) (λ a v j r. j))

  claim_decoded-Single :
      (message : Error → String) (body : Option Credentials) (s : Db)
      → Empty s.tables
      → Leaves (λ (c : Answer User). Single) (claim_decoded w h message body s)
  claim_decoded-Single message none s e = Empty-Single s.tables e
  claim_decoded-Single message (some req) s e = claim-Single message req s e

  none_there : (rows : List UserRow) → any (λ (r : UserRow). true) rows ≡ false → rows ≡ []
  none_there [] e = refl
  none_there (r ∷ rows) e = cc

  setup-Single :
      (message : Error → String) (body : Option Credentials) (s : Db)
      → Single s.tables
      → Single (setup w h message body s).1.tables
  unfolding setup has_users
  setup-Single message body s i =
      attempted-Leaves Single (λ has t. has ≡ any (λ (r : UserRow). true) t.auth_users)
        (λ c. Single) (has_users w h s) _ _ (query-Ensures Single w _ _ (λ t j. refl) s i)
        (λ e t j. j) decided
    where
      decided :
          (has : Bool) (u : Db)
          → Single u.tables
          → has ≡ any (λ (r : UserRow). true) u.tables.auth_users
          → Leaves
              (λ (c : Answer User). Single)
              ((if has
                  then finish (refused 400 "setup already complete")
                  else claim_decoded w h message body)
                u)
      decided true u j e = j
      decided false u j e =
          claim_decoded-Single message body u (none_there u.tables.auth_users (sym e))

  logout_handler-Single :
      (cookie : Option String) (s : Db)
      → Single s.tables
      → Single (logout_handler w h cookie s).1.tables
  unfolding logout_handler logout delete_session exec
  logout_handler-Single none s i = i
  logout_handler-Single (some token) s i = elim (Bool-cases (w.fails s.tick)) [
    | inl e ↦ rw e i
    | inr e ↦ rw e i
  ]

  me_anonymous-Single : (s : Db) → Single s.tables → Single (me_anonymous w h s).1.tables
  unfolding has_users query
  me_anonymous-Single s i = elim (Bool-cases (w.fails s.tick)) [ inl e ↦ rw e i | inr e ↦ rw e i ]

  me_verified-Single :
      (t : Tables) (now : ℕ) (token : String) (p : Result User × Db)
      → Verified t now token p
      → Single t
      → Single (me_verified w h p).1.tables
  me_verified-Single t now token (ok u, s) (given, live, same) i = subst Single (sym same) i
  me_verified-Single t now token (err e, s) same i =
      me_anonymous-Single s (subst Single (sym same) i)

  serve-Single :
      (message : Error → String) (r : AccountRequest) (s : Db)
      → Single s.tables
      → Single (serve w h message r s).tables
  unfolding serve me
  serve-Single message (setup_request body) s i = setup-Single message body s i
  serve-Single message (login_request body) s i = login_handler-Single body s i
  serve-Single message (logout_request cookie) s i = logout_handler-Single cookie s i
  serve-Single message (me_request none) s i = me_anonymous-Single s i
  serve-Single message (me_request (some token)) s i =
      me_verified-Single s.tables (w.now s.tick) token (verify w h token s)
        (verify_sound w h token s) i

  abbrev pub serve_all : (Error → String) → List AccountRequest → Db → Db
  serve_all message [] s = s
  serve_all message (r ∷ rs) s = serve_all message rs (serve w h message r s)

  -- From a household with at most one account, any requests to the account routes, served one after
  -- another, leave at most one account, whichever statements fail.
  pub serve_all-Single :
      (message : Error → String) (rs : List AccountRequest) (s : Db)
      → Single s.tables
      → Single (serve_all message rs s).tables
  serve_all-Single message [] s i = i
  serve_all-Single message (r ∷ rs) s i =
      serve_all-Single message rs (serve w h message r s) (serve-Single message r s i)
