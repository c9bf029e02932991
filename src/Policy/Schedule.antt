-- ===== src/Policy/Schedule.antt =====
-- The schedule of internal/policy/resolver.go: evalSchedule, parseHM and intsContain.
pub mod Clock
pub mod Windows
pub mod Locking
mod Tests
use safe_play_guardian.Prelude.{
  ℕ, ◌+◌, ◌*◌, ◌%◌, ℤ, pos, negsuc, ltb, leb, ◌==◌, nat_eq, int_eq, string_eq, String, Bool, true,
  false, ◌&&◌, ◌||◌, Option, none, some, List, [], ◌∷◌, if◌then◌else◌, split_once, atoi, any, ◌≡◌,
  refl,
}
use safe_play_guardian.Policy.Model.{Weekday, weekday_index, ScheduleBlock, Schedule, saturday}

-- A time of day in a time zone, as Go's Weekday, Hour and Minute read it.
pub record LocalTime : Type 0 where
  pub weekday : Weekday
  pub hour : ℕ
  pub minute : ℕ

-- The result of Atoi, if it lies in 0..limit.
abbrev pub in_range : ℕ → Option ℤ → Option ℕ
in_range limit none = none
in_range limit (some (pos n)) = if leb n limit then some n else none
in_range limit (some (negsuc _)) = none

abbrev pub hour_minute : Option ℕ → Option ℕ → Option ℕ
hour_minute none m = none
hour_minute (some h) none = none
hour_minute (some h) (some m) = some (h * 60 + m)

abbrev pub parse_parts : Option (String × String) → Option ℕ
parse_parts none = none
parse_parts (some (h, m)) = hour_minute (in_range 23 (atoi h)) (in_range 59 (atoi m))

-- parseHM: `none` stands for (0, false).
unfoldable pub parse_hm : String → Option ℕ
parse_hm s = parse_parts (split_once b':' s)

pub ints_contain : List ℤ → ℤ → Bool
ints_contain [] x = false
ints_contain (v ∷ xs) x = v == x || ints_contain xs x

pub is_locking_kind : String → Bool
is_locking_kind kind = kind == "blocked" || kind == "bedtime"

-- The two windows of a block: inside one day, or past midnight.
pub window : List ℤ → ℕ → ℕ → ℕ → ℕ → ℕ → Bool
window weekdays wd prev_wd cur start end =
    if start == end
    then false
    else if ltb start end
    then ints_contain weekdays (pos wd) && leb start cur && ltb cur end
    else (ints_contain weekdays (pos wd) && leb start cur)
      || (ints_contain weekdays (pos prev_wd) && ltb cur end)

abbrev pub parsed_window : List ℤ → ℕ → ℕ → ℕ → Option ℕ → Option ℕ → Bool
parsed_window weekdays wd prev_wd cur (some start) (some end) =
    window weekdays wd prev_wd cur start end
parsed_window weekdays wd prev_wd cur (some start) none = false
parsed_window weekdays wd prev_wd cur none end = false

-- One round of the loop: does the block lock the screen?
pub block_locks : ℕ → ℕ → ScheduleBlock → Bool
block_locks wd cur b =
    is_locking_kind b.kind
    && parsed_window b.weekdays wd ((wd + 6) % 7) cur (parse_hm b.start) (parse_hm b.end)

-- evalSchedule: the pair of the lock and its reason.
unfoldable pub eval_schedule : Option Schedule → LocalTime → Bool × String
eval_schedule none at = (false, "")
eval_schedule (some s) at =
    if any (block_locks (weekday_index at.weekday) (at.hour * 60 + at.minute)) s.blocks
    then (true, "schedule")
    else (false, "")
