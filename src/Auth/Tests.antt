-- ===== src/Auth/Tests.antt =====
-- Sessions and the gate at concrete tokens.
use safe_play_guardian.Prelude.{◌≡◌, ◌≢◌, ◌+◌, refl, true, some, [], ◌==◌, string_eq, has_prefix}
use safe_play_guardian.Device.Rows.{first_where}
use safe_play_guardian.Store.Exec.{Db}
use safe_play_guardian.Samples.{calm, plain, home, home_db}
use safe_play_guardian.Auth.Accounts.{verify, login, logout, session_lifetime}
use safe_play_guardian.Auth.Accounts.Sessions.{Verified, verify_sound, LoggedOut, logout-verify}
use safe_play_guardian.Auth.Accounts.Login.{Opens, login-verify}
use safe_play_guardian.Store.Tables.{UserRow}
use safe_play_guardian.Store.Runs.{Done}
use safe_play_guardian.Auth.Gate.{requires_auth, auth_gate}
use safe_play_guardian.Auth.Gate.Guard.{Guarded, auth_gate-Guarded}

verify_sound_example : Verified home (calm.now 0) "t" (verify calm plain "t" home_db)
verify_sound_example = verify_sound calm plain "t" home_db

logout-verify_example : LoggedOut calm plain "t" (logout calm plain "t" home_db)
logout-verify_example = logout-verify calm plain "t" home_db

devices_require_auth : requires_auth "/api/devices" ≡ true
unfolding requires_auth has_prefix
devices_require_auth = refl

auth_gate-Guarded_example :
    Guarded home
      (calm.now 0)
      (some "t")
      (auth_gate (verify calm plain) "/api/devices" (some "t") home_db)
auth_gate-Guarded_example =
    auth_gate-Guarded calm plain "/api/devices" (some "t") home_db devices_require_auth

abbrev parent_row : UserRow
parent_row = record { id = "u"; username = "parent"; pw_hash = "secret99" }

token_given : calm.random 1 ≢ ""
token_given e = cc

-- The household before its first session.
abbrev closed_db : Db
closed_db = record { tick = 0; tables = record home { auth_sessions = [] } }

parent_by_name :
    first_where (λ (r : UserRow). r.username == "parent") closed_db.tables.auth_users
    ≡ some parent_row
unfolding first_where
parent_by_name = refl

parent_by_id :
    first_where (λ (r : UserRow). r.id == "u") closed_db.tables.auth_users ≡ some parent_row
unfolding first_where
parent_by_id = refl

login-verify_example :
    Done
      (Opens calm (λ n. refl) plain parent_row (calm.now 2 + session_lifetime) closed_db.tables)
      (login calm plain "parent" "secret99" closed_db)
login-verify_example =
    login-verify calm (λ n. refl) plain "parent" "secret99" parent_row closed_db parent_by_name
      parent_by_id refl token_given refl
