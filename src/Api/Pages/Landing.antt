-- ===== src/Api/Pages/Landing.antt =====
-- Where the root of the dashboard leads.
use mathlib.Core.List.{Memᴰ}
use safe_play_guardian.Device.Rows.{first_where}
use safe_play_guardian.Device.Rows.Sorted.{All-mem}
use safe_play_guardian.Prelude.{
  ℕ, ◌≡◌, refl, ap, sym, ◌∙◌, String, true, false, string_eq, ◌⊎◌, inl, inr, Bool-cases, Option,
  none, some, List, [], ◌∷◌, any, All, ltb, ◌==◌, ◌&&◌, ◌+◌, ◌≤◌, ◌≢◌, Bool, eq_iff, nat_eq,
  Option-cases, arith, subst,
}
use safe_play_guardian.Auth.Accounts.{User, Hashing, session_user, has_users, verify}
use safe_play_guardian.Auth.Accounts.Sessions.{Live, first_where-mem, session_user-Live}
use safe_play_guardian.Auth.Gate.{requires_auth}
use safe_play_guardian.Store.Tables.{UserRow, SessionRow, Tables}
use safe_play_guardian.Store.Exec.{World, Result, ok, err, Db, clock, query}
use safe_play_guardian.Api.Accounts.{root_redirect, redirect_known, redirect_verified}
use safe_play_guardian.Api.Pages.{PageAnswer, redirect, file, file_of, redirected, serve_page}

-- The page that a path shows is served as a file, without a session.
abbrev pub Shows : String → String → Type 0
Shows path name = (file_of path ≡ file name) × (requires_auth path ≡ false)

-- Every session belongs to an account.
abbrev pub Owned : Tables → Type 0
Owned t = All (λ x. (u : UserRow) × Memᴰ u t.auth_users × (u.id ≡ x.user_id)) t.auth_sessions

-- The token is empty, or all sessions with it have expired.
abbrev pub Refused : Tables → ℕ → String → Type 0
Refused t now token =
    (token ≡ "")
    ⊎ ((x : SessionRow) → Memᴰ x t.auth_sessions → x.token ≡ token → x.expires_at ≤ now)

abbrev pub NoSession : Tables → ℕ → Option String → Type 0
NoSession t now cookie = (token : String) → cookie ≡ some token → Refused t now token

abbrev pub SomeFails : World → Type 0
SomeFails w = (k : ℕ) × (w.fails k ≡ true)

-- The redirect for the tables, the time and the session cookie.
abbrev pub Leads : World → Tables → ℕ → Option String → PageAnswer → Type 0
Leads w t now cookie answer =
    ((token : String) × (user : User) × (cookie ≡ some token)
      × (token ≢ "")
      × Live t now token user
      × (answer ≡ redirect "/home")
      × Shows "/home" "/home.html")
    ⊎ ((t.auth_users ≡ [])
        × (answer ≡ redirect "/first-run")
        × Shows "/first-run" "/first-run.html")
    ⊎ ((SomeFails w ⊎ ((t.auth_users ≢ []) × NoSession t now cookie))
        × (answer ≡ redirect "/login")
        × Shows "/login" "/login.html")

abbrev pub Lands : World → Tables → ℕ → Option String → PageAnswer × Db → Type 0
Lands w t now cookie p = (p.1.tables ≡ t) × Leads w t now cookie p.0

home_shown : Shows "/home" "/home.html"
unfolding file_of requires_auth
home_shown = (refl, refl)

login_shown : Shows "/login" "/login.html"
unfolding file_of requires_auth
login_shown = (refl, refl)

first_run_shown : Shows "/first-run" "/first-run.html"
unfolding file_of requires_auth
first_run_shown = (refl, refl)

first_where-none :
    {A : Type 0} (p : A → Bool) (rows : List A) {x : A}
    → first_where p rows ≡ none
    → Memᴰ x rows
    → p x ≡ false
unfolding first_where
first_where-none p [] h m = elim m [ ]
first_where-none p (y ∷ rows) h (Memᴰ.head e) = rw e (ground arith)
first_where-none p (y ∷ rows) h (Memᴰ.tail m) = first_where-none p rows (ground arith) m

session_user-Refused :
    (token : String) (now : ℕ) (t : Tables)
    → Owned t
    → session_user token now t ≡ none
    → (x : SessionRow) → Memᴰ x t.auth_sessions
    → x.token ≡ token
    → x.expires_at ≤ now
unfolding session_user
session_user-Refused token now t owned h x m same =
    elim (Option-cases (
      first_where (λ (s : SessionRow). s.token == token && ltb now s.expires_at) t.auth_sessions)) [
        | inl e ↦
            let miss = first_where-none _ t.auth_sessions {x = x} e m in
            let found : (x.token == token) ≡ true = (eq_iff x.token token).1 same in
            ground (arith, miss, found)
        | inr (y, e) ↦
            elim (Option-cases (first_where (λ (u : UserRow). u.id == y.user_id) t.auth_users)) [
              | inr (u, f) ↦ absurd (ground arith)
              | inl f ↦
                  let (n, q) = first_where-mem _ t.auth_sessions e in
                  let (u, k, owns) =
                    All-mem (λ x. (u : UserRow) × Memᴰ u t.auth_users × (u.id ≡ x.user_id))
                      t.auth_sessions owned n in
                  let miss = first_where-none _ t.auth_users {x = u} f k in
                  let found : (u.id == y.user_id) ≡ true = (eq_iff u.id y.user_id).1 owns in
                  absurd (ground (arith, miss, found))
            ]
      ]

-- What Verify's answer says of the token.
abbrev Judged : World → Tables → ℕ → String → Result User × Db → Type 0
Judged w t now token (ok user, s) = (token ≢ "") × Live t now token user × (s.tables ≡ t)
Judged w t now token (err _, s) = (SomeFails w ⊎ Refused t now token) × (s.tables ≡ t)

verify-Judged :
    (w : World) (h : Hashing) (token : String) (s : Db)
    → Owned s.tables
    → Judged w s.tables (w.now s.tick) token (verify w h token s)
unfolding verify clock query
verify-Judged w h token s owned = elim (Bool-cases (token == "")) [
  | inl e ↦ rw e (inr (inl ((eq_iff token "").0 e)), refl)
  | inr e ↦ elim (Bool-cases (w.fails (s.tick + 1))) [
    | inl f ↦ rw (e, f) (inl (s.tick + 1, f), refl)
    | inr f ↦ elim (Option-cases (session_user token (w.now s.tick) s.tables)) [
      | inl g ↦
          rw (e, f, g)
            (inr (inr (session_user-Refused token (w.now s.tick) s.tables owned g)), refl)
      | inr (u, g) ↦
          rw (e, f, g)
            (
              λ z. ground (arith, e, (eq_iff token "").1 z),
              session_user-Live token (w.now s.tick) s.tables u g,
              refl,
            )
    ]
  ]
]

module _ (w : World) (h : Hashing) (t : Tables) (now : ℕ) (cookie : Option String) where
  no_user : (rows : List UserRow) → any (λ (r : UserRow). true) rows ≡ false → rows ≡ []
  no_user [] e = refl
  no_user (r ∷ rows) e = cc

  some_user : (rows : List UserRow) → any (λ (r : UserRow). true) rows ≡ true → rows ≢ []
  some_user [] e z = cc
  some_user (r ∷ rows) e z = cc

  known-Lands :
      (s : Db)
      → s.tables ≡ t
      → SomeFails w ⊎ NoSession t now cookie
      → Lands w t now cookie (redirected (redirect_known w h (has_users w h s)))
  unfolding has_users query
  known-Lands s same none_live = elim (Bool-cases (w.fails s.tick)) [
    | inl f ↦ rw f (same, inr (inr (inl (s.tick, f), refl, login_shown)))
    | inr f ↦ elim (Bool-cases (any (λ (r : UserRow). true) s.tables.auth_users)) [
      | inl e ↦ rw (f, e) (same, inr (inr (reason e none_live, refl, login_shown)))
      | inr e ↦
          rw (f, e) (same, inr (inl (users ∙ no_user s.tables.auth_users e, refl, first_run_shown)))
    ]
  ]
    where
      users : t.auth_users ≡ s.tables.auth_users
      users = ap (λ (x : Tables). x.auth_users) (sym same)

      reason :
          any (λ (r : UserRow). true) s.tables.auth_users ≡ true
          → SomeFails w ⊎ NoSession t now cookie
          → SomeFails w ⊎ ((t.auth_users ≢ []) × NoSession t now cookie)
      reason e (inl f) = inl f
      reason e (inr n) = inr (λ z. some_user s.tables.auth_users e (sym users ∙ z), n)

  Judged-Lands :
      (token : String) (p : Result User × Db)
      → cookie ≡ some token
      → Judged w t now token p
      → Lands w t now cookie (redirected (redirect_verified w h p))
  Judged-Lands token (ok u, s) e (given, live, same) =
      (same, inl (token, u, e, given, live, refl, home_shown))
  Judged-Lands token (err x, s) e (inl f, same) = known-Lands s same (inl f)
  Judged-Lands token (err x, s) e (inr r, same) =
      known-Lands s same (inr (λ k q. subst (λ v. Refused t now v) (ground (arith, e, q)) r))

-- Let every session belong to an account. A request of the root is then redirected, and changes no
-- table: to /home, where the cookie is the token of a stored session that has not expired; to
-- /first-run, where there is no account; or to /login, where a statement fails, or there is an
-- account and every stored session with the cookie's token has expired, or there is no cookie or
-- an empty one. Each of these paths shows a page without a session, so no further redirect
-- follows.
pub serve_page-Lands :
    (w : World) (h : Hashing) (cookie : Option String) (s : Db)
    → Owned s.tables
    → Lands w s.tables (w.now s.tick) cookie (serve_page w h "/" cookie s)
unfolding serve_page root_redirect
serve_page-Lands w h none s owned =
    known-Lands w h s.tables (w.now s.tick) none s refl (inr (λ k q. absurd (ground (arith, q))))
serve_page-Lands w h (some token) s owned =
    Judged-Lands w h s.tables (w.now s.tick) (some token) token (verify w h token s) refl
      (verify-Judged w h token s owned)
