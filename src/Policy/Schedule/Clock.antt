-- ===== src/Policy/Schedule/Clock.antt =====
-- Reading a time of day: parseHM accepts exactly times below 24:00, and reads HH:MM back.
use Prim.Native.String.{[], ◌∷◌}
use native.Mathlib.Omega.{arith}
use safe_play_guardian.Prelude.{
  ℕ, ◌+◌, ◌*◌, ◌/◌, ◌%◌, ◌<◌, ◌≡◌, refl, ℤ, pos, negsuc, some, none, Option, String, to_char,
  code-to_char, split_once, atoi, Option-cases, inl, inr,
}
use safe_play_guardian.Policy.Schedule.{in_range, hour_minute, parse_hm}

in_range_bound : (limit : ℕ) (o : Option ℤ) {n : ℕ} → in_range limit o ≡ some n → n < limit + 1
in_range_bound limit none h = cc
in_range_bound limit (some (pos n)) h = ground arith
in_range_bound limit (some (negsuc n)) h = cc

hour_minute_bound :
    (h m : Option ℕ) {v : ℕ}
    → ((n : ℕ) → h ≡ some n → n < 24)
    → ((n : ℕ) → m ≡ some n → n < 60)
    → hour_minute h m ≡ some v
    → v < 1440
hour_minute_bound none m p q e = cc
hour_minute_bound (some h) none p q e = cc
hour_minute_bound (some h) (some m) p q e = ground (arith, p h refl, q m refl)

-- A time that parseHM accepts is a minute of the day.
pub parse_hm-lt : (s : String) {v : ℕ} → parse_hm s ≡ some v → v < 1440
unfolding parse_hm
parse_hm-lt s e = elim (Option-cases (split_once b':' s)) [
  | inl p ↦ ground arith
  | inr (hm, p) ↦
      hour_minute_bound (in_range 23 (atoi hm.0)) (in_range 59 (atoi hm.1))
        (λ n. in_range_bound 23 (atoi hm.0)) (λ n. in_range_bound 59 (atoi hm.1)) (ground arith)
]

-- The text of a number below 100 in two digits.
abbrev pub two_digits : ℕ → String → String
two_digits n rest = to_char (n / 10 + 48) ∷ to_char (n % 10 + 48) ∷ rest

-- The text HH:MM.
abbrev pub format_hm : ℕ → ℕ → String
format_hm h m = two_digits h (to_char 58 ∷ two_digits m [])

split_once-two_digits :
    (n : ℕ) (s : String)
    → n < 100
    → split_once b':' (two_digits n (to_char 58 ∷ s)) ≡ some (two_digits n [], s)
unfolding split_once
split_once-two_digits n s h = ground (
  arith,
  code-to_char (n / 10 + 48) (omega arith),
  code-to_char (n % 10 + 48) (omega arith),
  code-to_char 58 (omega arith),
)

atoi-two_digits : (n : ℕ) → n < 100 → atoi (two_digits n []) ≡ some (pos n)
unfolding atoi
atoi-two_digits n h =
    ground
      (arith, code-to_char (n / 10 + 48) (omega arith), code-to_char (n % 10 + 48) (omega arith))

-- Every time of day, written as HH:MM, is read back as its minute of the day.
pub parse_hm-format_hm : (h m : ℕ) → h < 24 → m < 60 → parse_hm (format_hm h m) ≡ some (h * 60 + m)
unfolding parse_hm
parse_hm-format_hm h m p q =
    rw
      (
        split_once-two_digits h (two_digits m []) (omega arith),
        atoi-two_digits h (omega arith),
        atoi-two_digits m (omega arith),
      )
      (ground arith)
