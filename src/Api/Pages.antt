-- ===== src/Api/Pages.antt =====
-- internal/api/spa.go: the pages of the dashboard.
pub mod Landing
use safe_play_guardian.Prelude.{
  String, Bool, true, ◌==◌, string_eq, Option, none, some, List, [], ◌∷◌, if◌then◌else◌,
}
use safe_play_guardian.Auth.Accounts.{Hashing}
use safe_play_guardian.Store.Exec.{World, Db}
use safe_play_guardian.Api.Accounts.{root_redirect}
use safe_play_guardian.Api.Router.{joined}

-- pageRoutes
unfoldable pub page_routes : List (String × String)
page_routes =
    ("/home", "home.html")
    ∷ ("/devices", "devices.html")
    ∷ ("/child", "child.html")
    ∷ ("/reports", "reports.html")
    ∷ ("/policy-time", "policy-time.html")
    ∷ ("/policy-schedule", "policy-schedule.html")
    ∷ ("/policy-monitoring", "policy-monitoring.html")
    ∷ ("/first-run", "first-run.html")
    ∷ ("/login", "login.html")
    ∷ []

unfoldable pub file_in : String → List (String × String) → Option String
file_in path [] = none
file_in path ((p, file) ∷ rest) = if p == path then some file else file_in path rest

-- A redirect, or a path for the file server of the embedded files.
pub data PageAnswer : Type 0 where
  redirect : String → PageAnswer
  file : String → PageAnswer

unfoldable pub file_of : String → PageAnswer
unfolding file_in page_routes joined
file_of path = elim (file_in path page_routes) [
  | some name ↦ file (joined "/" name)
  | none ↦ file path
]

abbrev pub redirected : String × Db → PageAnswer × Db
redirected (path, s) = (redirect path, s)

-- spaHandler, where there is a store of accounts.
unfoldable pub serve_page : World → Hashing → String → Option String → Db → PageAnswer × Db
unfolding file_of
serve_page w h path cookie s =
    if path == "/" then redirected (root_redirect w h cookie s) else (file_of path, s)
