-- ===== src/Api/Router.antt =====
-- internal/api/router.go: the routes of the server whose components are all there, and the session
-- gate before them.
pub mod Guarded
pub mod Sessions
use Prim.Native.String.{[] as no_text, ◌∷◌ as ◌◂◌}
use safe_play_guardian.Prelude.{
  String, Bool, true, false, ◌&&◌, ◌||◌, not, ◌==◌, string_eq, Option, none, some, List, [], ◌∷◌,
  if◌then◌else◌,
}
use safe_play_guardian.Device.Rows.{first_where}
use safe_play_guardian.Auth.Accounts.{User}
use safe_play_guardian.Auth.Gate.{Passage, unauthorized, served, auth_gate}
use safe_play_guardian.Store.Exec.{Db, M}

-- The handlers, by the methods of router.go's handler structs.
pub data Endpoint : Type 0 where
  healthz : Endpoint
  devices_list : Endpoint
  devices_create : Endpoint
  devices_get : Endpoint
  devices_patch : Endpoint
  people_list : Endpoint
  people_create : Endpoint
  people_get : Endpoint
  policy_get : Endpoint
  policy_put : Endpoint
  override_get : Endpoint
  override_put : Endpoint
  policy_resolved : Endpoint
  enforce_trigger : Endpoint
  reports_screen_time : Endpoint
  reports_by_device : Endpoint
  reports_blocks : Endpoint
  reports_events : Endpoint
  auth_me : Endpoint
  auth_setup : Endpoint
  auth_login : Endpoint
  auth_logout : Endpoint
  agent_register : Endpoint
  agent_checkin : Endpoint

-- A segment of a pattern of net/http's ServeMux: a text, or {id}.
pub data Segment : Type 0 where
  lit : String → Segment
  id_segment : Segment

pub record Route : Type 0 where
  pub method : String
  pub pattern : List Segment
  pub endpoint : Endpoint

abbrev api : String → List Segment → List Segment
api s rest = lit "api" ∷ lit s ∷ rest

abbrev route : String → List Segment → Endpoint → Route
route m p e = record { method = m; pattern = p; endpoint = e }

-- Routes, but for its last one, "GET /".
unfoldable pub routes : List Route
routes =
    route "GET" (lit "healthz" ∷ []) healthz
    ∷ route "GET" (api "devices" []) devices_list
    ∷ route "POST" (api "devices" []) devices_create
    ∷ route "GET" (api "devices" (id_segment ∷ [])) devices_get
    ∷ route "PATCH" (api "devices" (id_segment ∷ [])) devices_patch
    ∷ route "GET" (api "people" []) people_list
    ∷ route "POST" (api "people" []) people_create
    ∷ route "GET" (api "people" (id_segment ∷ [])) people_get
    ∷ route "GET" (api "people" (id_segment ∷ lit "policy" ∷ [])) policy_get
    ∷ route "PUT" (api "people" (id_segment ∷ lit "policy" ∷ [])) policy_put
    ∷ route "GET" (api "devices" (id_segment ∷ lit "override" ∷ [])) override_get
    ∷ route "PUT" (api "devices" (id_segment ∷ lit "override" ∷ [])) override_put
    ∷ route "GET" (api "devices" (id_segment ∷ lit "resolved" ∷ [])) policy_resolved
    ∷ route "POST" (api "devices" (id_segment ∷ lit "enforce" ∷ [])) enforce_trigger
    ∷ route "GET" (api "reports" (lit "screen-time" ∷ [])) reports_screen_time
    ∷ route "GET" (api "reports" (lit "by-device" ∷ [])) reports_by_device
    ∷ route "GET" (api "reports" (lit "blocks" ∷ [])) reports_blocks
    ∷ route "GET" (api "events" []) reports_events
    ∷ route "GET" (api "auth" (lit "me" ∷ [])) auth_me
    ∷ route "POST" (api "auth" (lit "setup" ∷ [])) auth_setup
    ∷ route "POST" (api "auth" (lit "login" ∷ [])) auth_login
    ∷ route "POST" (api "auth" (lit "logout" ∷ [])) auth_logout
    ∷ route "POST" (api "agent" (lit "register" ∷ [])) agent_register
    ∷ route "POST" (api "agent" (lit "checkin" ∷ [])) agent_checkin
    ∷ []

abbrev pub segment_matches : Segment → String → Bool
segment_matches (lit s) x = x == s
segment_matches id_segment x = not (x == "")

unfoldable pub matches : List Segment → List String → Bool
matches [] [] = true
matches [] (_ ∷ _) = false
matches (_ ∷ _) [] = false
matches (p ∷ ps) (x ∷ xs) = segment_matches p x && matches ps xs

-- A pattern for GET serves HEAD too.
abbrev pub method_matches : String → String → Bool
method_matches m given = given == m || (m == "GET" && given == "HEAD")

-- Where the mux sends a request; no two patterns of one method match the same path.
pub data Target : Type 0 where
  endpoint : Endpoint → Target
  spa_shell : Target
  not_allowed : Target

abbrev target_of : String → Option Route → Target
target_of method (some r) = endpoint r.endpoint
target_of method none = if method_matches "GET" method then spa_shell else not_allowed

-- The route of a request, of its method and the segments of its path.
unfoldable pub find_route : String → List String → Option Route
unfolding routes matches first_where
find_route method segments =
    first_where (λ (r : Route). method_matches r.method method && matches r.pattern segments) routes

unfoldable pub target : String → List String → Target
unfolding find_route
target method segments = target_of method (find_route method segments)

-- s + t, computed by the characters of s
unfoldable pub joined : String → String → String
joined no_text t = t
joined (c ◂ s) t = c ◂ joined s t

-- URL.Path, of its segments after decoding, which may hold any text.
unfoldable pub path_of : List String → String
unfolding joined
path_of [] = ""
path_of (s ∷ ss) = joined "/" (joined s (path_of ss))

-- What the server does with a request: 401, or a target with the user of the session.
pub data Served : Type 0 where
  refused : Served
  sent : Target → Option User → Served

abbrev pub sent_to : Target → Passage × Db → Served × Db
sent_to t (unauthorized, s) = (refused, s)
sent_to t (served u, s) = (sent t u, s)

-- The handler that Routes returns, over the store's Verify.
unfoldable pub handle : (String → M User) → String → List String → Option String → Db → Served × Db
unfolding target path_of
handle verify method segments cookie s =
    sent_to (target method segments) (auth_gate verify (path_of segments) cookie s)
