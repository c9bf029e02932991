-- ===== src/Enforce/Agent.antt =====
-- internal/enforce/agent/agent.go: the backend that queues a slice for the next check-in.
pub mod Queue
use safe_play_guardian.Prelude.{
  String, Bool, false, not, ◌||◌, ◌==◌, string_eq, Option, none, some, List, [], ◌∷◌, map,
  if◌then◌else◌,
}
use safe_play_guardian.Device.Model.{
  Capability, Device, cap_screen_lock, cap_time_budget, cap_app_block, cap_domain_block,
  cap_schedule_block,
}
use safe_play_guardian.Enforce.Enforcer.{Slice, PerRule, rule_applied, Enforcer}

-- The map from a device to its queued slice: the newest entry of a key counts.
abbrev pub Pending : Type 0
Pending = List (String × Slice)

unfoldable pub load : String → Pending → Option Slice
load id [] = none
load id ((k, v) ∷ m) = if k == id then some v else load id m

unfoldable pub delete : String → Pending → Pending
delete id [] = []
delete id ((k, v) ∷ m) = if k == id then delete id m else (k, v) ∷ delete id m

-- sync.Map.Store
unfoldable pub store : String → Slice → Pending → Pending
unfolding delete
store id slice m = (id, slice) ∷ delete id m

unfoldable pub capabilities : Capability → Bool
capabilities c =
    c == cap_screen_lock
    || c == cap_time_budget
    || c == cap_app_block
    || c == cap_domain_block
    || c == cap_schedule_block

unfoldable pub can_handle : Device → Bool
can_handle d = elim d.agent_token [ none ↦ false | some t ↦ not (t == "") ]

abbrev pub queued : Capability → PerRule
queued c = record {
  capability = c;
  outcome = rule_applied;
  error = "";
  note = "queued for agent pickup";
}

-- Apply
unfoldable pub apply : String → Slice → Pending → List PerRule × Pending
unfolding store
apply device_id slice pending = (map queued slice.caps, store device_id slice pending)

-- Revoke
unfoldable pub revoke : String → Pending → Pending
unfolding delete
revoke device_id pending = delete device_id pending

-- PullPending
unfoldable pub pull_pending : String → Pending → Option Slice × Pending
unfolding load delete
pull_pending device_id pending = (load device_id pending, delete device_id pending)

-- The backend as an Enforcer.
unfoldable pub backend : Enforcer Pending
unfolding capabilities can_handle apply
backend = record {
  name = "agent";
  capabilities = capabilities;
  can_handle = can_handle;
  apply = apply;
}
