-- ===== src/Api/Router/Sessions.antt =====
-- What a request to a protected handler must carry.
use safe_play_guardian.Prelude.{
  ◌≡◌, refl, ◌∙◌, sym, String, true, false, string_eq, Bool-cases, inl, inr, Option, none, List,
  arith, ℕ,
}
use safe_play_guardian.Store.Tables.{Tables}
use safe_play_guardian.Store.Exec.{World, Db}
use safe_play_guardian.Auth.Accounts.{Hashing, verify}
use safe_play_guardian.Auth.Gate.{Passage, unauthorized, served, requires_auth, auth_gate}
use safe_play_guardian.Auth.Gate.Guard.{Guarded, auth_gate-Guarded}
use safe_play_guardian.Api.Router.{
  Endpoint, Target, endpoint, spa_shell, not_allowed, target, path_of, Served, refused, sent,
  sent_to, handle,
}
use safe_play_guardian.Api.Router.Guarded.{needs_session, target-requires_auth}

-- A request that a handler which needs a session serves carries the token of a live session, and is
-- served with its user; a refused one changed nothing.
abbrev pub Protected : Tables → ℕ → Option String → Served × Db → Type 0
Protected t now cookie (refused, s) = s.tables ≡ t
Protected t now cookie (sent (endpoint e) user, s) =
    needs_session e ≡ true → Guarded t now cookie (served user, s)
Protected t now cookie (sent other user, s) = Unit

sent_to-Protected :
    (t : Tables) (now : ℕ) (cookie : Option String) (g : Target) (p : Passage × Db)
    → Guarded t now cookie p
    → Protected t now cookie (sent_to g p)
sent_to-Protected t now cookie g (unauthorized, s) h = h
sent_to-Protected t now cookie (endpoint e) (served u, s) h = λ _. h
sent_to-Protected t now cookie spa_shell (served u, s) h = tt
sent_to-Protected t now cookie not_allowed (served u, s) h = tt

open-Protected :
    (t : Tables) (now : ℕ) (cookie : Option String) (g : Target) (s : Db)
    → ((e : Endpoint) → g ≡ endpoint e → needs_session e ≡ false)
    → Protected t now cookie (sent g none, s)
open-Protected t now cookie (endpoint e) s f = λ h. absurd (let k = f e refl in ground arith)
open-Protected t now cookie spa_shell s f = tt
open-Protected t now cookie not_allowed s f = tt

-- The server sends a request to a handler of the devices, people, policies, overrides, enforcement
-- or reports only if its session cookie is the token of a stored session that has not expired, with
-- the user of that session; and where it refuses a request it changes no table.
pub handle-Protected :
    (w : World) (h : Hashing) (method : String) (segments : List String) (cookie : Option String)
    (s : Db)
    → Protected s.tables (w.now s.tick) cookie (handle (verify w h) method segments cookie s)
unfolding handle auth_gate
handle-Protected w h method segments cookie s =
    elim (Bool-cases (requires_auth (path_of segments))) [
      | inl y ↦
          sent_to-Protected s.tables (w.now s.tick) cookie (target method segments)
            (auth_gate (verify w h) (path_of segments) cookie s)
            (auth_gate-Guarded w h (path_of segments) cookie s y)
      | inr n ↦
          rw (n, auth_gate)
            (open-Protected s.tables (w.now s.tick) cookie (target method segments) s
              (λ e q. sym (target-requires_auth method segments e q) ∙ n))
    ]
