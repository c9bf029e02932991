-- ===== src/Api/Tests.antt =====
-- The handlers at concrete requests.
use Prim.Native.String
use mathlib.Core.List.{Memᴰ}
use safe_play_guardian.Prelude.{
  ℕ, ◌≡◌, ◌≢◌, ◌≤◌, refl, String, string_eq, eq_refl, none, some, List, [], ◌∷◌, trim_space, arith,
}
use safe_play_guardian.Samples.{calm, faulty, plain, home, home_db}
use safe_play_guardian.Store.Tables.{Tables}
use safe_play_guardian.Store.Exec.{Db, Error}
use safe_play_guardian.Auth.Accounts.{verify}
use safe_play_guardian.Api.Reply.Leaves.{Leaves}
use safe_play_guardian.Api.Accounts.{Credentials, setup, AccountRequest, setup_request}
use safe_play_guardian.Api.Accounts.Claim.{Verifies, Claims, Strands, setup-Claims, setup-Strands}
use safe_play_guardian.Api.Accounts.Once.{Single, serve_all, serve_all-Single}
use safe_play_guardian.Api.Agents.{RegisterRequest, register}
use safe_play_guardian.Api.Agents.Issued.{Issued, register-Issued}
use safe_play_guardian.Api.Devices.{PatchDeviceRequest, patch_device}
use safe_play_guardian.Api.Devices.Confined.{Answered, patch_device-Answered}
use safe_play_guardian.Policy.Model.{Override}
use safe_play_guardian.Policy.Store.{Codec}
use safe_play_guardian.Api.Policies.{put_device_override}
use safe_play_guardian.Api.Policies.Overrides.{PutAndRead, put_device_override-PutAndRead}
use safe_play_guardian.Api.Pages.{serve_page}
use safe_play_guardian.Api.Pages.Landing.{Lands, serve_page-Lands}
use safe_play_guardian.Api.Reports.{EventsQuery, list_events}
use safe_play_guardian.Api.Reports.Listed.{Listed, list_events-Listed}
use safe_play_guardian.Api.Router.{policy_put, endpoint, target, path_of, handle}
use safe_play_guardian.Auth.Gate.{requires_auth}
use safe_play_guardian.Api.Router.Guarded.{needs_session, target-requires_auth}
use safe_play_guardian.Api.Router.Sessions.{Protected, handle-Protected}

-- A household before its first account.
abbrev new_home : Tables
new_home = record home { auth_users = []; auth_sessions = [] }

abbrev new_db : Db
new_db = record { tick = 0; tables = new_home }

abbrev error_text : Error → String
error_text e = "error"

abbrev parent : Credentials
parent = record { username = "parent"; password = "secret99" }

abbrev spaced_parent : Credentials
spaced_parent = record { username = "parent "; password = "secret99" }

parent_named : trim_space "parent" ≢ ""
unfolding trim_space
parent_named e = cc

parent_bare : trim_space "parent" ≡ "parent"
unfolding trim_space
parent_bare = refl

spaced_parent_named : trim_space "parent " ≢ ""
unfolding trim_space
spaced_parent_named e = cc

parent_spaced : trim_space "parent " ≢ "parent "
unfolding trim_space
parent_spaced e = cc

long_enough : 8 ≤ String.len "secret99"
long_enough = ground arith

plain-Verifies : Verifies plain
plain-Verifies password salt = eq_refl password

calm-random : (n : ℕ) → calm.random n ≢ ""
calm-random n e = cc

setup-Claims_example :
    Leaves
      (Claims calm (λ n. refl) plain parent 0)
      (setup calm plain error_text (some parent) new_db)
setup-Claims_example =
    setup-Claims calm (λ n. refl) plain error_text parent new_db refl parent_named long_enough
      parent_bare refl plain-Verifies calm-random

setup-Strands_example :
    Leaves
      (Strands calm (λ n. refl) plain spaced_parent 0)
      (setup calm plain error_text (some spaced_parent) new_db)
setup-Strands_example =
    setup-Strands calm (λ n. refl) plain error_text spaced_parent new_db refl spaced_parent_named
      long_enough parent_spaced

abbrev two_setups : List AccountRequest
two_setups = setup_request (some parent) ∷ setup_request (some spaced_parent) ∷ []

serve_all-Single_example : Single (serve_all faulty plain error_text two_setups new_db).tables
serve_all-Single_example = serve_all-Single faulty plain error_text two_setups new_db (ground arith)

abbrev new_agent : RegisterRequest
new_agent = record {
  device_id = "agent-1";
  label = "Tablet";
  kind = "tablet";
  caps = [];
  mac = "3c:22:fb:00:00:02";
  hostname = "tablet";
  agent_token = "";
}

register-Issued_example : Leaves Issued (register calm none (some new_agent) home_db)
register-Issued_example = register-Issued calm none (some new_agent) home_db

abbrev rename : PatchDeviceRequest
rename = record { label = some "Phone"; kind = none; person_id = none; state = some "paused" }

abbrev IsNamed : String → Type 0
IsNamed s = s ≢ ""

IsNamed-phone : IsNamed "phone"
IsNamed-phone e = cc

patch_device-Answered_example :
    Leaves (Answered "phone" rename home) (patch_device calm "phone" (some rename) home_db)
patch_device-Answered_example = patch_device-Answered "phone" rename calm home_db IsNamed-phone

abbrev phone_events : EventsQuery
phone_events = record { device_id = "phone"; person_id = ""; kind = ""; limit = "1000" }

list_events-Listed_example :
    Listed calm phone_events home_db (list_events calm phone_events home_db)
list_events-Listed_example = list_events-Listed calm phone_events home_db

abbrev policy_path : List String
policy_path = "api" ∷ "people" ∷ "ann" ∷ "policy" ∷ []

policy_routed : target "PUT" policy_path ≡ endpoint policy_put
unfolding target
policy_routed = refl

target-requires_auth_example : requires_auth (path_of policy_path) ≡ needs_session policy_put
target-requires_auth_example = target-requires_auth "PUT" policy_path policy_put policy_routed

handle-Protected_example :
    Protected home
      (calm.now 0)
      (some "t")
      (handle (verify calm plain) "PUT" policy_path (some "t") home_db)
handle-Protected_example = handle-Protected calm plain "PUT" policy_path (some "t") home_db

serve_page-Lands_example :
    Lands calm home (calm.now 0) (some "t") (serve_page calm plain "/" (some "t") home_db)
serve_page-Lands_example =
    serve_page-Lands calm plain (some "t") home_db
      ((record { id = "u"; username = "parent"; pw_hash = "secret99" }, Memᴰ.head refl, refl), tt)

-- An override that asks for metadata.
abbrev watched : Override
watched = record {
  timezone = none;
  time_budget = none;
  schedule = none;
  content = none;
  monitoring = some "metadata";
}

abbrev watched_codec : Codec Override
watched_codec = record { marshal = λ o. "watched"; unmarshal = λ json. some watched }

put_device_override-PutAndRead_example :
    PutAndRead calm watched_codec "phone" watched home_db
      (put_device_override calm watched_codec "phone" (some watched) home_db)
put_device_override-PutAndRead_example =
    put_device_override-PutAndRead calm (λ n. refl) watched_codec "phone" watched home_db refl
