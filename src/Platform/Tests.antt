-- ===== src/Platform/Tests.antt =====
-- The wired components at a concrete household.
use safe_play_guardian.Prelude.{
  utc_stamp, ◌≡◌, refl, none, some, [], ◌∷◌, count, pos, true, false, string_eq,
}
use safe_play_guardian.Samples.{
  calm, home_db, home-IsConsistent, tablet_seen, phone_device, family, utc_only, house_rules,
}
use safe_play_guardian.Api.Agents.{CheckinRequest}
use safe_play_guardian.Api.Agents.Checkin.{checkin}
use safe_play_guardian.Api.Agents.Trust.{Trusted}
use safe_play_guardian.Event.Model.{kind_block}
use safe_play_guardian.Event.Logger.{append}
use safe_play_guardian.Policy.Schedule.{eval_schedule}
use safe_play_guardian.Policy.Resolver.{Sources, ok, resolve}
use safe_play_guardian.Store.Exec.{Db}
use safe_play_guardian.Platform.Assignment.{taken, told, enforce-taken}
use safe_play_guardian.Platform.Checkins.{platform_checkin-Trusted}
use safe_play_guardian.Device.Model.{cap_schedule_block, cap_time_budget, cap_domain_block}
use safe_play_guardian.Device.Consistent.{IsConsistent}
use safe_play_guardian.Device.Registry.Integrity.{IsThere}
use safe_play_guardian.Device.Reconcile.{reconcile}
use safe_play_guardian.Event.Logger.Levels.{lookup_of}
use safe_play_guardian.Policy.Model.{ResolvedPolicy, required_caps, monitoring_enforcement_only}
use safe_play_guardian.Store.Keeps.{Post}
use safe_play_guardian.Enforce.Agent.{can_handle}
use safe_play_guardian.Enforce.Coordinator.{sort_caps, enforce, enforce_resolved}
use safe_play_guardian.Enforce.Coordinator.Coverage.{reported}
use safe_play_guardian.Platform.Hooks.{observe_hook, on_rule, platform_backends}
use safe_play_guardian.Platform.Wiring.{platform_reconcile-IsConsistent, platform_enforce-count}

platform_reconcile-IsConsistent_example : Post IsConsistent IsThere (
    reconcile calm
      (some (observe_hook calm (some (lookup_of family)) (λ text. text)))
      tablet_seen
      home_db)
platform_reconcile-IsConsistent_example =
    platform_reconcile-IsConsistent calm (some (lookup_of family)) (λ text. text) tablet_seen
      home_db home-IsConsistent

abbrev day_rules : ResolvedPolicy
day_rules = record {
  device_id = "phone";
  at = 1;
  person_id = some "ann";
  screen_locked = false;
  lock_reason = "";
  blocked_domains = [];
  blocked_apps = [];
  blocked_categories = [];
  log_level = monitoring_enforcement_only;
  time_budget_minutes = pos 60;
  time_budget_used_mins = 0;
  required_caps = cap_time_budget ∷ cap_schedule_block ∷ [];
}

platform_enforce-count_example :
    count cap_time_budget (
      reported
        (enforce_resolved
          (platform_backends (λ n. "n") (λ n. "n"))
          (some (on_rule calm (some (lookup_of family)) (λ text. text)))
          "phone"
          phone_device
          day_rules
          ([], home_db)).0)
    ≡ count cap_time_budget day_rules.required_caps
platform_enforce-count_example =
    platform_enforce-count (λ n. "n") (λ n. "n") calm (some (lookup_of family)) (λ text. text)
      "phone" phone_device day_rules ([], home_db) cap_time_budget

-- The family without a bedtime.
abbrev late_family : Sources
late_family = record family {
  get_person_policy = λ id. some (some (record house_rules { schedule = none }));
}

-- What its rules give for the phone.
abbrev phone_rules : ResolvedPolicy
phone_rules = record day_rules {
  at = 1000;
  screen_locked = true;
  lock_reason = "time_budget_exceeded";
  blocked_domains = "example.org" ∷ [];
  log_level = "metadata";
  time_budget_used_mins = 120;
  required_caps = cap_time_budget ∷ cap_domain_block ∷ [];
}

phone_able : can_handle phone_device ≡ true
unfolding can_handle
phone_able = refl

phone_resolved : resolve utc_only late_family "phone" 1000 ≡ ok phone_rules
unfolding resolve eval_schedule required_caps
phone_resolved = refl

-- The phone has an agent token, and its family's rules require two capabilities.
enforce-taken_example :
    taken
      (λ n. "n")
      (λ n. "n")
      phone_device
      phone_able
      calm
      none
      (λ text. text)
      "phone"
      (enforce utc_only late_family
        (platform_backends (λ n. "n") (λ n. "n"))
        (some (on_rule calm none (λ text. text)))
        "phone"
        1000
        ([], home_db)).1.0
    ≡ told
        (λ n. "n")
        (λ n. "n")
        phone_device
        phone_able
        calm
        none
        (λ text. text)
        "phone"
        (sort_caps phone_rules.required_caps)
        (taken (λ n. "n") (λ n. "n") phone_device phone_able calm none (λ text. text) "phone" [])
enforce-taken_example =
    enforce-taken (λ n. "n") (λ n. "n") phone_device phone_able calm none (λ text. text) "phone"
      utc_only late_family 1000 phone_rules [] home_db refl phone_resolved

abbrev no_policies : Db → Sources
no_policies s = family

abbrev checkin_body : CheckinRequest
checkin_body = record {
  device_id = "agent-1";
  identities = ("mac", "3c:22:fb:00:00:01") ∷ [];
  caps = [];
  agent_clock = none;
  events = record { kind = kind_block; at = utc_stamp 7; attrs = none } ∷ [];
}

platform_checkin-Trusted_example : Trusted "token" (
    checkin calm
      (some (observe_hook calm none (λ text. text)))
      (some (append calm none))
      utc_only
      no_policies
      (platform_backends (λ n. "n") (λ n. "n"))
      (some (on_rule calm none (λ text. text)))
      "token"
      (some checkin_body)
      ([], home_db))
platform_checkin-Trusted_example =
    platform_checkin-Trusted calm none (λ text. text) utc_only no_policies (λ n. "n") (λ n. "n")
      "token" (some checkin_body) ([], home_db)
