-- ===== src/Policy/Tests.antt =====
-- The schedule, the resolver and the capabilities at concrete rules.
use mathlib.Core.List.{Memᴰ}
use safe_play_guardian.Prelude.{
  string_eq, ◌==◌, if◌then◌else◌, ◌<◌, ◌≡◌, ◌↔◌, refl, true, some, none, nat_eq, arith, split_once,
  atoi,
}
use safe_play_guardian.Store.Exec.{◌>>◌}
use safe_play_guardian.Store.Runs.{Done}
use safe_play_guardian.Policy.Store.{Codec, get_person_policy, set_person_policy}
use safe_play_guardian.Policy.Store.RoundTrip.{ReadsBack, set_person_policy-get_person_policy}
use safe_play_guardian.Samples.{
  calm, home, home_db, utc_only, family, house_rules, nights, phone_device,
}
use safe_play_guardian.Device.Model.{cap_time_budget}
use safe_play_guardian.Policy.Model.{Policy, saturday, required_caps, ResolvedPolicy}
use safe_play_guardian.Policy.Model.Caps.{Needs, required_caps_iff}
use safe_play_guardian.Policy.Schedule.{LocalTime, eval_schedule, parse_hm}
use safe_play_guardian.Policy.Schedule.Clock.{parse_hm-lt, parse_hm-format_hm, format_hm}
use safe_play_guardian.Policy.Schedule.Locking.{eval_schedule_iff, LocksAt}
use safe_play_guardian.Policy.Resolver.{ok, resolve, merge}
use safe_play_guardian.Policy.Resolver.Verdict.{
  Found, verdict, resolve-verdict, schedule_locks, budget_spent,
}

-- A minute before six on the morning after.
abbrev early : LocalTime
early = record { weekday = saturday; hour = 5; minute = 59 }

eval_schedule_iff_example : ((eval_schedule (some nights) early).0 ≡ true) ↔ LocksAt nights early
eval_schedule_iff_example = eval_schedule_iff nights early (omega arith) (omega arith)

test_half_past_nine : parse_hm "21:30" ≡ some 1290
unfolding parse_hm atoi split_once
test_half_past_nine = refl

parse_hm-lt_example : 1290 < 1440
parse_hm-lt_example = parse_hm-lt "21:30" test_half_past_nine

parse_hm-format_hm_example : parse_hm (format_hm 21 30) ≡ some 1290
parse_hm-format_hm_example = parse_hm-format_hm 21 30 (omega arith) (omega arith)

required_caps_iff_example :
    Memᴰ cap_time_budget (required_caps (some house_rules)) ↔ Needs house_rules cap_time_budget
required_caps_iff_example = required_caps_iff house_rules cap_time_budget

house_rules-merged : merge (some house_rules) none ≡ some house_rules
unfolding merge
house_rules-merged = refl

abbrev phone_found : Found family "phone" house_rules
phone_found = record {
  dev = phone_device;
  get_dev = refl;
  person = "ann";
  owned = refl;
  policy = some house_rules;
  get_policy = refl;
  override = none;
  get_override = refl;
  merges = house_rules-merged;
}

-- Monday noon: the budget of an hour is used up, and the schedule does not lock.
resolve-verdict_example :
    (res : ResolvedPolicy) × (resolve utc_only family "phone" 43_200_000_000_000 ≡ ok res)
    × (res.screen_locked
        ≡ (verdict
            (schedule_locks utc_only family "phone" 43_200_000_000_000 house_rules)
            (budget_spent utc_only family "phone" 43_200_000_000_000 house_rules)).0)
    × (res.lock_reason
        ≡ (verdict
            (schedule_locks utc_only family "phone" 43_200_000_000_000 house_rules)
            (budget_spent utc_only family "phone" 43_200_000_000_000 house_rules)).1)
resolve-verdict_example =
    resolve-verdict utc_only family "phone" 43_200_000_000_000 house_rules phone_found

-- A codec of the one policy of the family.
abbrev house_codec : Codec Policy
house_codec = record {
  marshal = λ p. "house";
  unmarshal = λ text. if text == "house" then some house_rules else none;
}

house_rules-decode :
    (q : Policy)
    → some house_rules ≡ some q
    → house_codec.unmarshal (house_codec.marshal q) ≡ some q
house_rules-decode q e = e

set_person_policy-get_person_policy_example : Done (ReadsBack "ann" (some house_rules) home) (
    (set_person_policy calm house_codec "ann" (some house_rules)
        >> get_person_policy calm house_codec "ann")
      home_db)
set_person_policy-get_person_policy_example =
    set_person_policy-get_person_policy calm (λ n. refl) house_codec "ann" (some house_rules)
      home_db house_rules-decode refl
