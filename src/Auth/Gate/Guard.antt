-- ===== src/Auth/Gate/Guard.antt =====
-- What a request on a protected path must carry to be served.
use safe_play_guardian.Prelude.{ℕ, ◌≡◌, refl, String, true, Option, none, some}
use safe_play_guardian.Store.Tables.{Tables}
use safe_play_guardian.Store.Exec.{World, Result, ok, err, Db}
use safe_play_guardian.Auth.Accounts.{User, Hashing, verify}
use safe_play_guardian.Auth.Accounts.Sessions.{Live, Verified, verify_sound}
use safe_play_guardian.Auth.Gate.{
  Passage, unauthorized, served, passage_of, requires_auth, auth_gate,
}

-- A request that is served carries the token of a live session, and is served with its user.
abbrev pub Guarded : Tables → ℕ → Option String → Passage × Db → Type 0
Guarded t now cookie (unauthorized, s) = s.tables ≡ t
Guarded t now cookie (served user, s) =
    (token : String) × (u : User) × (cookie ≡ some token)
    × (user ≡ some u)
    × Live t now token u
    × (s.tables ≡ t)

passage-Guarded :
    (t : Tables) (now : ℕ) (token : String) (p : Result User × Db)
    → Verified t now token p
    → Guarded t now (some token) (passage_of p)
passage-Guarded t now token (ok u, s) (given, live, same) = (token, u, refl, refl, live, same)
passage-Guarded t now token (err e, s) same = same

-- On every path that requires authentication the gate serves a request only if its session cookie
-- is the token of a stored session which has not expired, and with the user of that session; it
-- changes no table.
pub auth_gate-Guarded :
    (w : World) (h : Hashing) (path : String) (cookie : Option String) (s : Db)
    → requires_auth path ≡ true
    → Guarded s.tables (w.now s.tick) cookie (auth_gate (verify w h) path cookie s)
unfolding auth_gate
auth_gate-Guarded w h path none s p = rw p refl
auth_gate-Guarded w h path (some token) s p =
    rw p (
      passage-Guarded s.tables (w.now s.tick) token (verify w h token s) (verify_sound w h token s))
