-- ===== src/Policy/Resolver.antt =====
-- internal/policy/resolver.go: Merge and Resolve.
pub mod Verdict
pub mod Required
use safe_play_guardian.Prelude.{
  ℕ, Stamp, ◌/◌, ℤ, pos, is_positive, le_nat, ◌==◌, string_eq, String, Bool, true, false, ◌&&◌, not,
  Option, none, some, [], if◌then◌else◌,
}
use safe_play_guardian.Device.Model.{Device}
use safe_play_guardian.Policy.Model.{
  MonitoringLevel, monitoring_enforcement_only, TimeBudget, Content, Policy, Override,
  ResolvedPolicy, required_caps,
}
use safe_play_guardian.Policy.Schedule.{LocalTime, eval_schedule}

-- The errors that Resolve passes on: the registry's two, and those of the policy store.
pub data ResolveError : Type 0 where
  get_device : ResolveError
  device_not_found : ResolveError
  get_policy : ResolveError
  get_override : ResolveError

-- A value, or the error a call returned.
pub data Result {ℓ} (E : Type 0) (A : Type ℓ) : Type ℓ where
  ok : A → Result E A
  err : E → Result E A

-- Package time's zones, which the program loads by name: none is an unknown name.
pub record Zones : Type 1 where
  pub Location : Type 0
  pub utc : Location
  pub load_location : String → Option Location
  pub local_time : Location → ℕ → LocalTime
  pub start_of_day : Location → ℕ → Stamp

-- What Resolve calls: DeviceLookup, the two reads of the policy store, and UsageQuery, which may be
-- nil; the usage is in nanoseconds.
pub record Sources : Type 0 where
  pub get : String → Result ResolveError Device
  pub get_person_policy : String → Option (Option Policy)
  pub get_device_override : String → Option (Option Override)
  pub usage : Option (String → Stamp → Option ℕ)

abbrev pub or_else {ℓ} : {A : Type ℓ} → Option A → Option A → Option A
or_else (some a) o = some a
or_else none o = o

abbrev pub value_or {ℓ} : {A : Type ℓ} → Option A → A → A
value_or (some a) d = a
value_or none d = d

-- `var out Policy`
abbrev pub zero_policy : Policy
zero_policy = record {
  timezone = "";
  time_budget = none;
  schedule = none;
  content = none;
  monitoring = none;
}

unfoldable pub apply_override : Policy → Override → Policy
apply_override out o = record {
  timezone = value_or o.timezone out.timezone;
  time_budget = or_else o.time_budget out.time_budget;
  schedule = or_else o.schedule out.schedule;
  content = or_else o.content out.content;
  monitoring = or_else o.monitoring out.monitoring;
}

-- Merge: a nil pointer is `none`.
unfoldable pub merge : Option Policy → Option Override → Option Policy
merge none none = none
merge none (some o) = some (apply_override zero_policy o)
merge (some p) none = some p
merge (some p) (some o) = some (apply_override p o)

-- The result before any rule has spoken.
abbrev pub initial : String → ℕ → ResolvedPolicy
initial device_id at = record {
  device_id = device_id;
  at = at;
  person_id = none;
  screen_locked = false;
  lock_reason = "";
  blocked_domains = [];
  blocked_apps = [];
  blocked_categories = [];
  log_level = monitoring_enforcement_only;
  time_budget_minutes = pos 0;
  time_budget_used_mins = 0;
  required_caps = [];
}

abbrev pub apply_schedule : Bool × String → ResolvedPolicy → ResolvedPolicy
apply_schedule (true, reason) result = record result { screen_locked = true; lock_reason = reason }
apply_schedule (false, reason) result = result

-- int(used.Minutes()) of a duration in nanoseconds
abbrev pub minutes_of : ℕ → ℕ
minutes_of used = used / 60_000_000_000

-- The body under `allowed > 0`.
unfoldable pub spend_budget : ℤ → ℕ → ResolvedPolicy → ResolvedPolicy
spend_budget allowed used_mins result =
    if le_nat allowed used_mins && not result.screen_locked
    then record result {
      time_budget_minutes = allowed;
      time_budget_used_mins = used_mins;
      screen_locked = true;
      lock_reason = "time_budget_exceeded";
    }
    else record result { time_budget_minutes = allowed; time_budget_used_mins = used_mins }

unfoldable pub apply_budget : ℤ → ℕ → ResolvedPolicy → ResolvedPolicy
unfolding spend_budget
apply_budget allowed used_mins result =
    if is_positive allowed then spend_budget allowed used_mins result else result

unfoldable pub apply_content : Option Content → ResolvedPolicy → ResolvedPolicy
apply_content none result = result
apply_content (some c) result = record result {
  blocked_domains = value_or c.blocked_domains result.blocked_domains;
  blocked_apps = value_or c.blocked_apps result.blocked_apps;
  blocked_categories = value_or c.blocked_categories result.blocked_categories;
}

unfoldable pub apply_monitoring : Option MonitoringLevel → ResolvedPolicy → ResolvedPolicy
apply_monitoring none result = result
apply_monitoring (some level) result = record result { log_level = level }

module _ (z : Zones) (r : Sources) where
  open z use {Location, utc, load_location, local_time, start_of_day}

  -- The location of a policy: UTC unless its time zone is set and known.
  pub location : String → Location
  location timezone = if timezone == "" then utc else value_or (load_location timezone) utc

  abbrev used_by : Option (String → Stamp → Option ℕ) → String → Stamp → ℕ
  used_by none device_id start = 0
  used_by (some u) device_id start = value_or (u device_id start) 0

  -- The minutes used since the start of the local day; an error counts as no use.
  pub used_minutes : String → Location → ℕ → ℕ
  used_minutes device_id loc at = minutes_of (used_by r.usage device_id (start_of_day loc at))

  unfoldable pub budget_rule :
      Option TimeBudget → String → Location → ℕ → ResolvedPolicy → ResolvedPolicy
  unfolding apply_budget used_minutes
  budget_rule none device_id loc at result = result
  budget_rule (some b) device_id loc at result =
      apply_budget (b.minutes_by_weekday (local_time loc at).weekday)
        (used_minutes device_id loc at) result

  -- All rules of a merged policy, in the order of the source.
  unfoldable pub apply_rules : Policy → String → ℕ → ResolvedPolicy → ResolvedPolicy
  unfolding budget_rule apply_content apply_monitoring
  apply_rules merged device_id at result =
      let loc = location merged.timezone in
      let capped = record result { required_caps = required_caps (some merged) } in
      let scheduled = apply_schedule (eval_schedule merged.schedule (local_time loc at)) capped in
      let budgeted = budget_rule merged.time_budget device_id loc at scheduled in
      apply_monitoring merged.monitoring (apply_content merged.content budgeted)

  resolve_merged : Option Policy → String → ℕ → ResolvedPolicy → ResolvedPolicy
  unfolding apply_rules
  resolve_merged none device_id at result = result
  resolve_merged (some merged) device_id at result = apply_rules merged device_id at result

  -- After the device and its person are known.
  resolve_person : String → String → ℕ → ResolvedPolicy → Result ResolveError ResolvedPolicy
  unfolding resolve_merged merge
  resolve_person person device_id at result = elim (r.get_person_policy person) [
    | none ↦ err get_policy
    | some p ↦ elim (r.get_device_override device_id) [
      | none ↦ err get_override
      | some o ↦ ok (resolve_merged (merge p o) device_id at result)
    ]
  ]

  resolve_device : Device → String → ℕ → Result ResolveError ResolvedPolicy
  unfolding resolve_person
  resolve_device dev device_id at = elim dev.person_id [
    | none ↦ ok (initial device_id at)
    | some person ↦
        resolve_person person device_id at
          (record (initial device_id at) { person_id = some person })
  ]

  -- Resolve; the partial result beside an error is not used by any caller.
  unfoldable pub resolve : String → ℕ → Result ResolveError ResolvedPolicy
  unfolding resolve_device
  resolve device_id at = elim (r.get device_id) [
    | err e ↦ err e
    | ok dev ↦ resolve_device dev device_id at
  ]
