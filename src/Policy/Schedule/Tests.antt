-- ===== src/Policy/Schedule/Tests.antt =====
-- The schedule at a concrete bedtime.
use safe_play_guardian.Prelude.{◌≡◌, refl, true, false, pos, [], ◌∷◌, some, split_once, atoi}
use safe_play_guardian.Policy.Model.{Schedule, saturday}
use safe_play_guardian.Policy.Schedule.{
  eval_schedule, block_locks, window, is_locking_kind, parse_hm, ints_contain,
}

abbrev bedtime : Schedule
bedtime = record {
  blocks = record { kind = "bedtime"; weekdays = pos 5 ∷ []; start = "21:30"; end = "06:00" } ∷ [];
}

test_before_six :
    eval_schedule (some bedtime) (record { weekday = saturday; hour = 5; minute = 59 })
    ≡ (true, "schedule")
unfolding eval_schedule block_locks window is_locking_kind parse_hm atoi split_once ints_contain
test_before_six = refl

test_at_six :
    eval_schedule (some bedtime) (record { weekday = saturday; hour = 6; minute = 0 }) ≡ (false, "")
unfolding eval_schedule block_locks window is_locking_kind parse_hm atoi split_once ints_contain
test_at_six = refl
