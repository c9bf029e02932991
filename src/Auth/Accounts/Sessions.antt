-- ===== src/Auth/Accounts/Sessions.antt =====
-- internal/auth/store.go: what a session is, from Login over Verify to Logout.
use mathlib.Core.List.{Memᴰ}
use safe_play_guardian.Prelude.{
  ℕ, ◌+◌, ◌<◌, ◌≡◌, ◌≢◌, refl, ◌==◌, ◌&&◌, not, ltb, nat_eq, string_eq, eq_iff, String, Bool, true,
  Bool-cases, Option-cases, inl, inr, none, some, List, [], ◌∷◌, arith,
}
use safe_play_guardian.Device.Rows.{first_where, where_}
use safe_play_guardian.Store.Tables.{UserRow, SessionRow, Tables}
use safe_play_guardian.Store.Exec.{World, Result, ok, err, Db, query, exec, clock}
use safe_play_guardian.Auth.Accounts.{
  User, user_of, session_user, verify, logout, delete_session, Hashing,
}

pub first_where-mem :
    {A : Type 0} (p : A → Bool) (rows : List A) {x : A}
    → first_where p rows ≡ some x
    → Memᴰ x rows × (p x ≡ true)
unfolding first_where
first_where-mem p [] h = cc
first_where-mem p (y ∷ rows) {x} h = elim (Bool-cases (p y)) [
  | inl e ↦ let same : y ≡ x = ground arith in (Memᴰ.head (ground arith), rw same at e)
  | inr e ↦ let (m, q) = first_where-mem p rows {x = x} (ground arith) in (Memᴰ.tail m, q)
]

-- The token is that of a stored session which expires after `now` and belongs to the user.
pub record Live (t : Tables) (now : ℕ) (token : String) (user : User) : Type 0 where
  pub session : SessionRow
  pub stored : Memᴰ session t.auth_sessions
  pub has_token : session.token ≡ token
  pub unexpired : now < session.expires_at
  pub row : UserRow
  pub registered : Memᴰ row t.auth_users
  pub owns : session.user_id ≡ row.id
  pub is_user : user ≡ user_of row

pub session_user-Live :
    (token : String) (now : ℕ) (t : Tables) (user : User)
    → session_user token now t ≡ some user
    → Live t now token user
unfolding session_user
session_user-Live token now t user h =
    elim (Option-cases (
      first_where (λ (s : SessionRow). s.token == token && ltb now s.expires_at) t.auth_sessions)) [
        | inl e ↦ absurd (ground arith)
        | inr (x, e) ↦
            elim (Option-cases (first_where (λ (u : UserRow). u.id == x.user_id) t.auth_users)) [
              | inl f ↦ absurd (ground arith)
              | inr (u, f) ↦
                  let (m, p) = first_where-mem _ t.auth_sessions e in
                  let (n, q) = first_where-mem _ t.auth_users f in
                  record {
                    session = x;
                    stored = m;
                    has_token = ground (arith, eq_iff x.token token);
                    unexpired = ground arith;
                    row = u;
                    registered = n;
                    owns = ground (arith, eq_iff u.id x.user_id);
                    is_user = ground arith;
                  }
            ]
      ]

-- A success of Verify names a live session, and changes no table.
abbrev pub Verified : Tables → ℕ → String → Result User × Db → Type 0
Verified t now token (ok user, s) = (token ≢ "") × Live t now token user × (s.tables ≡ t)
Verified t now token (err _, s) = s.tables ≡ t

module _ (w : World) (h : Hashing) where
  -- Verify answers with a user only for a token that is not empty and is that of a stored session
  -- of that user which has not expired; on an error as on a success it changes no table.
  pub verify_sound :
      (token : String) (s : Db) → Verified s.tables (w.now s.tick) token (verify w h token s)
  unfolding verify clock query
  verify_sound token s = elim (Bool-cases (token == "")) [
    | inl e ↦ rw e refl
    | inr e ↦ elim (Bool-cases (w.fails (s.tick + 1))) [
      | inl f ↦ rw (e, f) refl
      | inr f ↦ elim (Option-cases (session_user token (w.now s.tick) s.tables)) [
        | inl g ↦ rw (e, f, g) refl
        | inr (u, g) ↦
            rw (e, f, g)
              (ground (arith, eq_iff token ""), session_user-Live token _ s.tables u g, refl)
      ]
    ]
  ]

-- No stored session has the token.
abbrev pub Forgotten : String → List SessionRow → Type 0
Forgotten token rows = first_where (λ (x : SessionRow). x.token == token) rows ≡ none

delete-Forgotten :
    (token : String) (rows : List SessionRow)
    → Forgotten token (where_ (λ (x : SessionRow). not (x.token == token)) rows)
unfolding where_ first_where
delete-Forgotten token [] = refl
delete-Forgotten token (x ∷ rows) = ground (arith, delete-Forgotten token rows)

Forgotten-not_found :
    (token : String) (now : ℕ) (rows : List SessionRow)
    → Forgotten token rows
    → first_where (λ (x : SessionRow). x.token == token && ltb now x.expires_at) rows ≡ none
unfolding first_where
Forgotten-not_found token now [] f = refl
Forgotten-not_found token now (x ∷ rows) f = elim (Bool-cases (x.token == token)) [
  | inl e ↦ absurd (ground arith)
  | inr e ↦ ground (arith, Forgotten-not_found token now rows)
]

session_user-none :
    (token : String) (now : ℕ) (t : Tables)
    → Forgotten token t.auth_sessions
    → session_user token now t ≡ none
unfolding session_user
session_user-none token now t f =
    rw (Forgotten-not_found token now t.auth_sessions f, session_user) refl

-- The program did not answer with a value.
abbrev pub IsRefused : {A : Type 0} → Result A × Db → Type 0
IsRefused (ok a, s) = ⊥
IsRefused (err _, s) = Unit

module _ (w : World) (h : Hashing) where
  verify-Forgotten :
      (token : String) (s : Db)
      → Forgotten token s.tables.auth_sessions
      → IsRefused (verify w h token s)
  unfolding verify clock query
  verify-Forgotten token s f = elim (Bool-cases (token == "")) [
    | inl e ↦ rw e tt
    | inr e ↦ elim (Bool-cases (w.fails (s.tick + 1))) [
      | inl g ↦ rw (e, g) tt
      | inr g ↦ rw (e, g, session_user-none token (w.now s.tick) s.tables f) tt
    ]
  ]

  abbrev pub LoggedOut : String → Result (Unit {0}) × Db → Type 0
  LoggedOut token (ok _, s) = IsRefused (verify w h token s)
  LoggedOut token (err _, s) = Unit

  -- Where Logout of a token succeeds, Verify of that token is refused in the state it leaves,
  -- whichever statements fail there.
  pub logout-verify : (token : String) (s : Db) → LoggedOut token (logout w h token s)
  unfolding logout exec delete_session
  logout-verify token s = elim (Bool-cases (w.fails s.tick)) [
    | inl e ↦ rw e tt
    | inr e ↦ rw e (verify-Forgotten token _ (delete-Forgotten token s.tables.auth_sessions))
  ]
