-- ===== src/Policy/Model.antt =====
-- internal/policy/model.go: the rules a parent sets, and the flattened policy of a device.
pub mod Caps
use safe_play_guardian.Prelude.{
  ℕ, ℤ, ltb, is_positive, String, Bool, false, true, ◌||◌, Option, none, some, List, [], ◌∷◌, ◌++◌,
  length, any, if◌then◌else◌,
}
use safe_play_guardian.Device.Model.{
  Capability, cap_schedule_block, cap_time_budget, cap_domain_block, cap_app_block,
}

-- A named string type: any text may come from JSON.
abbrev pub MonitoringLevel : Type 0
MonitoringLevel = String

abbrev pub monitoring_enforcement_only : MonitoringLevel
monitoring_enforcement_only = "enforcement_only"

abbrev pub monitoring_metadata : MonitoringLevel
monitoring_metadata = "metadata"

abbrev pub monitoring_granular : MonitoringLevel
monitoring_granular = "granular"

-- time.Weekday
pub data Weekday : Type 0 where
  sunday monday tuesday wednesday thursday friday saturday : Weekday

-- int(w)
abbrev pub weekday_index : Weekday → ℕ
weekday_index sunday = 0
weekday_index monday = 1
weekday_index tuesday = 2
weekday_index wednesday = 3
weekday_index thursday = 4
weekday_index friday = 5
weekday_index saturday = 6

-- The array of seven minutes is a function of its index.
pub record TimeBudget : Type 0 where
  pub minutes_by_weekday : Weekday → ℤ

pub record ScheduleBlock : Type 0 where
  pub kind : String
  pub weekdays : List ℤ
  pub start : String
  pub end : String

pub record Schedule : Type 0 where
  pub blocks : List ScheduleBlock

-- A slice that may be nil is an `Option`.
pub record Content : Type 0 where
  pub blocked_domains : Option (List String)
  pub blocked_apps : Option (List String)
  pub blocked_categories : Option (List String)

pub record Policy : Type 0 where
  pub timezone : String
  pub time_budget : Option TimeBudget
  pub schedule : Option Schedule
  pub content : Option Content
  pub monitoring : Option MonitoringLevel

pub record Override : Type 0 where
  pub timezone : Option String
  pub time_budget : Option TimeBudget
  pub schedule : Option Schedule
  pub content : Option Content
  pub monitoring : Option MonitoringLevel

-- `at` is a time in nanoseconds since Go's zero time.
pub record ResolvedPolicy : Type 0 where
  pub device_id : String
  pub at : ℕ
  pub person_id : Option String
  pub screen_locked : Bool
  pub lock_reason : String
  pub blocked_domains : List String
  pub blocked_apps : List String
  pub blocked_categories : List String
  pub log_level : MonitoringLevel
  pub time_budget_minutes : ℤ
  pub time_budget_used_mins : ℕ
  pub required_caps : List Capability

-- len of a slice that may be nil is positive
abbrev pub has_items {ℓ} : {A : Type ℓ} → Option (List A) → Bool
has_items none = false
has_items (some []) = false
has_items (some (_ ∷ _)) = true

abbrev pub weekdays : List Weekday
weekdays = sunday ∷ monday ∷ tuesday ∷ wednesday ∷ thursday ∷ friday ∷ saturday ∷ []

-- The loop over the seven minutes, which breaks at the first positive one.
abbrev pub any_minutes : TimeBudget → Bool
any_minutes b = any (λ day. is_positive (b.minutes_by_weekday day)) weekdays

abbrev pub schedule_caps : Option Schedule → List Capability
schedule_caps none = []
schedule_caps (some s) = if ltb 0 (length s.blocks) then cap_schedule_block ∷ [] else []

abbrev pub budget_caps : Option TimeBudget → List Capability
budget_caps none = []
budget_caps (some b) = if any_minutes b then cap_time_budget ∷ [] else []

abbrev pub content_caps : Option Content → List Capability
content_caps none = []
content_caps (some c) =
    (if has_items c.blocked_domains then cap_domain_block ∷ [] else [])
    ++ (if has_items c.blocked_apps then cap_app_block ∷ [] else [])

-- RequiredCaps; the nil slice and the empty one are the same list.
unfoldable pub required_caps : Option Policy → List Capability
required_caps none = []
required_caps (some p) =
    schedule_caps p.schedule ++ (budget_caps p.time_budget ++ content_caps p.content)
