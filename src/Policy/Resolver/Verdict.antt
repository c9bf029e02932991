-- ===== src/Policy/Resolver/Verdict.antt =====
-- When Resolve locks the screen, and with which reason.
use safe_play_guardian.Prelude.{
  ℕ, ◌≡◌, refl, some, none, Option, Bool, true, false, ◌&&◌, arith, String, is_positive, le_nat,
}
use safe_play_guardian.Device.Model.{Device}
use safe_play_guardian.Policy.Model.{
  Policy, Override, ResolvedPolicy, TimeBudget, Schedule, Weekday, required_caps,
}
use safe_play_guardian.Policy.Schedule.{LocalTime, eval_schedule}
use safe_play_guardian.Policy.Resolver.{
  Zones, Sources, ok, merge, initial, location, used_minutes, apply_rules, apply_schedule,
  budget_rule, resolve, resolve_device, resolve_person, resolve_merged,
}

-- The lock and its reason, from two questions: does the schedule lock, and is the budget spent?
abbrev pub verdict : Bool → Bool → Bool × String
verdict true spent = (true, "schedule")
verdict false true = (true, "time_budget_exceeded")
verdict false false = (false, "")

-- The budget of the weekday is positive and used up.
abbrev pub is_spent : Option TimeBudget → Weekday → ℕ → Bool
is_spent none day used = false
is_spent (some b) day used =
    is_positive (b.minutes_by_weekday day) && le_nat (b.minutes_by_weekday day) used

-- The person's and the device's rules that Resolve finds for a device, and their merge.
pub record Found (r : Sources) (device_id : String) (merged : Policy) : Type 0 where
  pub dev : Device
  pub get_dev : r.get device_id ≡ ok dev
  pub person : String
  pub owned : dev.person_id ≡ some person
  pub policy : Option Policy
  pub get_policy : r.get_person_policy person ≡ some policy
  pub override : Option Override
  pub get_override : r.get_device_override device_id ≡ some override
  pub merges : merge policy override ≡ some merged

eval_schedule-verdict :
    (s : Option Schedule) (at : LocalTime)
    → eval_schedule s at ≡ verdict (eval_schedule s at).0 false
unfolding eval_schedule
eval_schedule-verdict none at = refl
eval_schedule-verdict (some s) at = ground arith

apply_schedule-verdict :
    (p : Bool × String) (result : ResolvedPolicy)
    → p ≡ verdict p.0 false
    → result.screen_locked ≡ false
    → result.lock_reason ≡ ""
    → ((apply_schedule p result).screen_locked ≡ (verdict p.0 false).0)
      × ((apply_schedule p result).lock_reason ≡ (verdict p.0 false).1)
apply_schedule-verdict (true, reason) result e h k = ground arith
apply_schedule-verdict (false, reason) result e h k = ground arith

module _ (z : Zones) (r : Sources) (device_id : String) (at : ℕ) (merged : Policy) where
  open z use {local_time}

  abbrev pub start_result : String → ResolvedPolicy
  start_result person = record (initial device_id at) { person_id = some person }

  -- What Resolve answers for a device whose rules are found.
  pub resolve_of_Found :
      (f : Found r device_id merged)
      → resolve z r device_id at ≡ ok (apply_rules z r merged device_id at (start_result f.person))
  unfolding resolve resolve_device resolve_person resolve_merged
  resolve_of_Found f = ground (arith, f.get_dev, f.owned, f.get_policy, f.get_override, f.merges)

  abbrev pub schedule_locks : Bool
  schedule_locks = (eval_schedule merged.schedule (local_time (location z r merged.timezone) at)).0

  abbrev pub budget_spent : Bool
  budget_spent =
      is_spent merged.time_budget (local_time (location z r merged.timezone) at).weekday
        (used_minutes z r device_id (location z r merged.timezone) at)

  lock_of_budget :
      (b : Option TimeBudget) (loc : z.Location) (result : ResolvedPolicy) (locks : Bool)
      → result.screen_locked ≡ (verdict locks false).0
      → result.lock_reason ≡ (verdict locks false).1
      → let after = budget_rule z r b device_id loc at result in
        let spent = is_spent b (local_time loc at).weekday (used_minutes z r device_id loc at) in
        (after.screen_locked ≡ (verdict locks spent).0)
        × (after.lock_reason ≡ (verdict locks spent).1)
  unfolding budget_rule
  lock_of_budget none loc result locks h k = ground arith
  lock_of_budget (some b) loc result locks h k = ground arith

  apply_rules-verdict :
      (result : ResolvedPolicy)
      → result.screen_locked ≡ false
      → result.lock_reason ≡ ""
      → let after = apply_rules z r merged device_id at result in
        (after.screen_locked ≡ (verdict schedule_locks budget_spent).0)
        × (after.lock_reason ≡ (verdict schedule_locks budget_spent).1)
  unfolding apply_rules
  apply_rules-verdict result h k =
      let loc = location z r merged.timezone in
      let capped = record result { required_caps = required_caps (some merged) } in
      let scheduled =
        apply_schedule-verdict (eval_schedule merged.schedule (local_time loc at)) capped
          (eval_schedule-verdict merged.schedule (local_time loc at)) h k in
      let budgeted =
        lock_of_budget merged.time_budget loc
          (apply_schedule (eval_schedule merged.schedule (local_time loc at)) capped) schedule_locks
          scheduled.0 scheduled.1 in
      ground (arith, budgeted.0, budgeted.1)

  -- For a device whose person's rules and own override merge into a policy, Resolve succeeds; the
  -- screen is locked exactly when the schedule locks at the local time of the policy's zone or a
  -- positive budget of that weekday is used up, and the reason is the schedule wherever the
  -- schedule locks, the budget where only the budget does, and empty where neither does.
  pub resolve-verdict :
      (f : Found r device_id merged)
      → (res : ResolvedPolicy) × (resolve z r device_id at ≡ ok res)
        × (res.screen_locked ≡ (verdict schedule_locks budget_spent).0)
        × (res.lock_reason ≡ (verdict schedule_locks budget_spent).1)
  resolve-verdict f =
      let (locked, reason) = apply_rules-verdict (start_result f.person) refl refl in
      (
        apply_rules z r merged device_id at (start_result f.person),
        resolve_of_Found f,
        locked,
        reason,
      )
