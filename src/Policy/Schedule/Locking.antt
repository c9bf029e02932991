-- ===== src/Policy/Schedule/Locking.antt =====
-- When a schedule locks the screen, stated without the code's case split on midnight.
use mathlib.Core.List.{Memᴰ}
use safe_play_guardian.Prelude.{
  ℕ, ◌+◌, ◌*◌, ◌<◌, ◌≡◌, ◌↔◌, ◌⊎◌, inl, inr, some, true, Option-cases, eq_iff, arith, any_sound,
  any_complete, String,
}
use safe_play_guardian.Policy.Model.{
  ScheduleBlock, Schedule, weekday_index, Weekday, sunday, monday, tuesday, wednesday, thursday,
  friday, saturday,
}
use safe_play_guardian.Policy.Schedule.{
  LocalTime, parse_hm, is_locking_kind, block_locks, eval_schedule,
}
use safe_play_guardian.Policy.Schedule.Clock.{parse_hm-lt}
use safe_play_guardian.Policy.Schedule.Windows.{Covers, window_sound, window_complete}

-- A block locks at minute `cur` of day `wd`: it is of a kind that locks, both its times can be
-- read, and the minute lies in the window of a day that it lists.
pub record Locks (wd cur : ℕ) (b : ScheduleBlock) : Type 0 where
  pub kind : (b.kind ≡ "blocked") ⊎ (b.kind ≡ "bedtime")
  pub start : ℕ
  pub start_read : parse_hm b.start ≡ some start
  pub end : ℕ
  pub end_read : parse_hm b.end ≡ some end
  pub covers : Covers b.weekdays wd cur start end

is_locking_kind_sound : (k : String) → is_locking_kind k ≡ true → (k ≡ "blocked") ⊎ (k ≡ "bedtime")
unfolding is_locking_kind
is_locking_kind_sound k h = ground (arith, eq_iff k "blocked", eq_iff k "bedtime")

is_locking_kind_complete :
    (k : String) → (k ≡ "blocked") ⊎ (k ≡ "bedtime") → is_locking_kind k ≡ true
unfolding is_locking_kind
is_locking_kind_complete k h = ground (arith, eq_iff k "blocked", eq_iff k "bedtime")

module _ (wd cur : ℕ) (is_wd : wd < 7) (is_cur : cur < 1440) where
  block_locks_sound : (b : ScheduleBlock) → block_locks wd cur b ≡ true → Locks wd cur b
  unfolding block_locks
  block_locks_sound b h = elim (Option-cases (parse_hm b.start)) [
    | inl p ↦ absurd (ground arith)
    | inr (start, p) ↦ elim (Option-cases (parse_hm b.end)) [
      | inl q ↦ absurd (ground arith)
      | inr (end, q) ↦ record {
        kind = is_locking_kind_sound b.kind (ground arith);
        start = start;
        start_read = p;
        end = end;
        end_read = q;
        covers =
            window_sound b.weekdays wd cur start end is_wd is_cur (parse_hm-lt b.start p)
              (parse_hm-lt b.end q) (ground arith);
      }
    ]
  ]

  block_locks_complete : (b : ScheduleBlock) → Locks wd cur b → block_locks wd cur b ≡ true
  unfolding block_locks
  block_locks_complete b l = ground (
    arith,
    is_locking_kind_complete b.kind l.kind,
    l.start_read,
    l.end_read,
    window_complete b.weekdays wd cur l.start l.end is_wd is_cur (parse_hm-lt b.start l.start_read)
        (parse_hm-lt b.end l.end_read) l.covers,
  )

weekday_index-lt : (w : Weekday) → weekday_index w < 7
weekday_index-lt sunday = omega arith
weekday_index-lt monday = omega arith
weekday_index-lt tuesday = omega arith
weekday_index-lt wednesday = omega arith
weekday_index-lt thursday = omega arith
weekday_index-lt friday = omega arith
weekday_index-lt saturday = omega arith

-- Some block of the schedule locks at this local time.
abbrev pub LocksAt : Schedule → LocalTime → Type 0
LocksAt s at =
    (b : ScheduleBlock) × Memᴰ b s.blocks
    × Locks (weekday_index at.weekday) (at.hour * 60 + at.minute) b

-- At every local time whose hour is below 24 and whose minute is below 60, the schedule locks the
-- screen exactly when one of its blocks is of kind blocked or bedtime, has a start and an end that
-- can be read, and lists a weekday from which the present minute lies at a distance below the
-- window's length, counted forward round the week.
pub eval_schedule_iff :
    (s : Schedule) (at : LocalTime)
    → at.hour < 24
    → at.minute < 60
    → ((eval_schedule (some s) at).0 ≡ true) ↔ LocksAt s at
unfolding eval_schedule
eval_schedule_iff s at p q =
    let wd = weekday_index at.weekday in
    let cur = at.hour * 60 + at.minute in
    let is_wd : wd < 7 = weekday_index-lt at.weekday in
    let is_cur : cur < 1440 = omega arith in
    (
      λ h.
          let (b, m, e) = any_sound (block_locks wd cur) s.blocks (ground arith) in
          (b, m, block_locks_sound wd cur is_wd is_cur b e),
      λ (b, m, l). ground (
        arith,
        any_complete (block_locks wd cur) s.blocks m (block_locks_complete wd cur is_wd is_cur b l),
      ),
    )
