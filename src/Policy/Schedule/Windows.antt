-- ===== src/Policy/Schedule/Windows.antt =====
-- The schedule decides a window on the circle of the week: a block that starts on day k at `start`
-- covers the minutes at a distance below its length, counted forward round the week.
use mathlib.Core.List.{Memᴰ}
use safe_play_guardian.Prelude.{
  ℕ, ◌+◌, ◌-◌, ◌*◌, ◌%◌, ◌<◌, ◌≤◌, ◌&&◌, ◌≡◌, sym, ap, ◌⊎◌, inl, inr, ℤ, pos, int_beq_iff, true,
  Bool-cases, List, [], ◌∷◌, arith, ◌==◌, int_eq, leb,
}
use safe_play_guardian.Policy.Schedule.{ints_contain, window}

ints_contain_sound : (xs : List ℤ) (x : ℤ) → ints_contain xs x ≡ true → Memᴰ x xs
unfolding ints_contain
ints_contain_sound [] x h = cc
ints_contain_sound (v ∷ xs) x h = elim (Bool-cases (v == x)) [
  | inl e ↦ Memᴰ.head (sym ((int_beq_iff v x).0 e))
  | inr e ↦ Memᴰ.tail (ints_contain_sound xs x (ground arith))
]

ints_contain_complete : {x : ℤ} {xs : List ℤ} → Memᴰ x xs → ints_contain xs x ≡ true
unfolding ints_contain
ints_contain_complete {x = x} (Memᴰ.head {x = v} e) = ground (arith, int_beq_iff v x, e)
ints_contain_complete (Memᴰ.tail m) = ground (arith, ints_contain_complete m)

-- The minute of the week.
abbrev pub week_minute : ℕ → ℕ → ℕ
week_minute day minute = day * 1440 + minute

-- How far `now` lies behind `from`, forward round the week.
abbrev pub since : ℕ → ℕ → ℕ
since now from = (now + 10080 - from) % 10080

-- The length of a window, past midnight if need be; an empty window has length 0.
abbrev pub window_length : ℕ → ℕ → ℕ
window_length start end = (end + 1440 - start) % 1440

-- Some listed day starts a window that covers the minute `cur` of day `wd`.
pub record Covers (weekdays : List ℤ) (wd cur start end : ℕ) : Type 0 where
  pub day : ℕ
  pub is_day : day < 7
  pub listed : Memᴰ (pos day) weekdays
  pub inside : since (week_minute wd cur) (week_minute day start) < window_length start end

since_same_day :
    (wd cur start : ℕ)
    → cur < 1440
    → start ≤ cur
    → since (week_minute wd cur) (week_minute wd start) ≡ cur - start
since_same_day wd cur start a b = omega arith

since_day_before :
    (wd cur start : ℕ)
    → wd < 7
    → cur < start
    → start < 1440
    → since (week_minute wd cur) (week_minute ((wd + 6) % 7) start) ≡ cur + 1440 - start
since_day_before wd cur start a b c = omega arith

-- Below a day's distance the window started today or the day before.
day_cases :
    (day wd cur start : ℕ)
    → day < 7
    → wd < 7
    → cur < 1440
    → start < 1440
    → since (week_minute wd cur) (week_minute day start) < 1440
    → ((day ≡ wd) × (start ≤ cur)) ⊎ ((day ≡ (wd + 6) % 7) × (cur < start))
day_cases day wd cur start a b c d e = omega arith

module _ (ds : List ℤ) (wd cur start end : ℕ) (is_wd : wd < 7) (is_cur : cur < 1440)
    (is_start : start < 1440) (is_end : end < 1440) where
  Covers-today :
      ints_contain ds (pos wd) ≡ true
      → start ≤ cur
      → cur - start < window_length start end
      → Covers ds wd cur start end
  Covers-today m a b = record {
    day = wd;
    is_day = is_wd;
    listed = ints_contain_sound ds (pos wd) m;
    inside = rw (since_same_day wd cur start is_cur a) b;
  }

  Covers-before :
      ints_contain ds (pos ((wd + 6) % 7)) ≡ true
      → cur < end
      → end < start
      → Covers ds wd cur start end
  Covers-before m a b = record {
    day = (wd + 6) % 7;
    is_day = omega arith;
    listed = ints_contain_sound ds (pos ((wd + 6) % 7)) m;
    inside = rw (since_day_before wd cur start is_wd (omega arith) is_start) (omega arith);
  }

  pub window_sound : window ds wd ((wd + 6) % 7) cur start end ≡ true → Covers ds wd cur start end
  unfolding window
  window_sound h = elim (Bool-cases (ints_contain ds (pos wd) && leb start cur)) [
    | inl today ↦
        Covers-today (ground arith) (ground arith) (ground (arith, λ (e : start ≡ end). e))
    | inr other ↦ Covers-before (ground arith) (ground arith) (ground arith)
  ]

  pub window_complete :
      Covers ds wd cur start end → window ds wd ((wd + 6) % 7) cur start end ≡ true
  unfolding window
  window_complete c =
      elim (day_cases c.day wd cur start c.is_day is_wd is_cur is_start (omega (arith, c.inside))) [
        | inl (e, a) ↦
            let m : ints_contain ds (pos wd) ≡ true = rw e at (ints_contain_complete c.listed) in
            let i : cur - start < window_length start end = omega (
              arith,
              since_same_day wd cur start is_cur a,
              c.inside,
              ap (λ (d : ℕ). since (week_minute wd cur) (week_minute d start)) e,
            ) in
            ground (arith, i)
        | inr (e, a) ↦
            let m : ints_contain ds (pos ((wd + 6) % 7)) ≡ true =
              rw e at (ints_contain_complete c.listed) in
            let i : cur + 1440 - start < window_length start end = omega (
              arith,
              since_day_before wd cur start is_wd a is_start,
              c.inside,
              ap (λ (d : ℕ). since (week_minute wd cur) (week_minute d start)) e,
            ) in
            ground (arith, i)
      ]
