-- ===== src/Enforce/Tests.antt =====
-- The queue of the agent backend, and the coordinator, at concrete slices.
use safe_play_guardian.Prelude.{◌≡◌, true, none, some, [], ◌∷◌, count, pos, string_eq}
use safe_play_guardian.Samples.{phone_device}
use safe_play_guardian.Device.Model.{cap_schedule_block, cap_time_budget}
use safe_play_guardian.Policy.Model.{ResolvedPolicy, monitoring_enforcement_only}
use safe_play_guardian.Enforce.Enforcer.{Slice}
use safe_play_guardian.Enforce.Agent.{apply, backend}
use safe_play_guardian.Enforce.Agent.Queue.{HandsOver, apply-HandsOver, agent-Answers}
use safe_play_guardian.Enforce.Coordinator.{enforce_resolved}
use safe_play_guardian.Enforce.Coordinator.Coverage.{enforce_resolved-count, reported}

abbrev locked : ResolvedPolicy
locked = record {
  device_id = "phone";
  at = 1;
  person_id = some "ann";
  screen_locked = true;
  lock_reason = "schedule";
  blocked_domains = [];
  blocked_apps = [];
  blocked_categories = [];
  log_level = monitoring_enforcement_only;
  time_budget_minutes = pos 60;
  time_budget_used_mins = 0;
  required_caps = cap_time_budget ∷ cap_schedule_block ∷ [];
}

abbrev slice : Slice
slice = record { policy = locked; caps = cap_schedule_block ∷ cap_time_budget ∷ [] }

abbrev older : Slice
older = record { policy = locked; caps = cap_time_budget ∷ [] }

apply-HandsOver_example :
    HandsOver "phone" slice
      (("phone", older) ∷ ("tablet", older) ∷ [])
      (apply "phone" slice (("phone", older) ∷ ("tablet", older) ∷ [])).1
apply-HandsOver_example = apply-HandsOver "phone" slice (("phone", older) ∷ ("tablet", older) ∷ [])

enforce_resolved-count_example :
    count cap_time_budget
      (reported (enforce_resolved (backend ∷ []) none "phone" phone_device locked []).0)
    ≡ count cap_time_budget locked.required_caps
enforce_resolved-count_example =
    enforce_resolved-count (backend ∷ []) (agent-Answers, tt) none "phone" phone_device locked []
      cap_time_budget
