-- ===== src/Device/Model.antt =====
-- internal/device/model.go: devices, their network identities and observations of them.
use safe_play_guardian.Prelude.{ℕ, String, Option, List}

-- Named string types: any text may come from JSON or from the database.
abbrev pub DeviceState : Type 0
DeviceState = String

abbrev pub state_discovered : DeviceState
state_discovered = "discovered"

abbrev pub state_active : DeviceState
state_active = "active"

abbrev pub state_paused : DeviceState
state_paused = "paused"

abbrev pub state_retired : DeviceState
state_retired = "retired"

abbrev pub IdentityKind : Type 0
IdentityKind = String

abbrev pub identity_mac : IdentityKind
identity_mac = "mac"

abbrev pub identity_ip : IdentityKind
identity_ip = "ip"

abbrev pub identity_hostname : IdentityKind
identity_hostname = "hostname"

abbrev pub identity_agent : IdentityKind
identity_agent = "agent_id"

abbrev pub Capability : Type 0
Capability = String

abbrev pub cap_screen_lock : Capability
cap_screen_lock = "screen_lock"

abbrev pub cap_time_budget : Capability
cap_time_budget = "time_budget"

abbrev pub cap_app_block : Capability
cap_app_block = "app_block"

abbrev pub cap_domain_block : Capability
cap_domain_block = "domain_block"

abbrev pub cap_schedule_block : Capability
cap_schedule_block = "schedule_block"

-- Times are nanoseconds since Go's zero time; a nil pointer is `none`.
pub record NetworkIdentity : Type 0 where
  pub kind : IdentityKind
  pub value : String
  pub last_seen : Option ℕ

pub record Device : Type 0 where
  pub id : String
  pub person_id : Option String
  pub label : String
  pub kind : String
  pub agent_token : Option String
  pub state : DeviceState
  pub last_seen : Option ℕ
  pub identities : List NetworkIdentity
  pub caps : List Capability

-- One sighting of a device; `seen_at` is 0 for the zero time.
pub record Observation : Type 0 where
  pub source : String
  pub seen_at : ℕ
  pub agent_token : String
  pub agent_id : String
  pub mac : String
  pub ip : String
  pub hostname : String
  pub caps : List Capability
  pub label : String
  pub kind : String
