-- ===== src/Prelude/Text.antt =====
-- What the program uses of Go's packages strings, strconv and unicode, on texts of code points.
use Prim.Native.Nat.{ℕ, zero, suc, ◌+◌, ◌-◌, ◌*◌, ◌^◌, ◌<◌, ◌≤◌, compare}
use Prim.Native.Char.{Char, code, char, nul, IsScalar}
use Prim.Native.String.{String, [], ◌∷◌}
use mathlib.Core.Path.{◌≡◌, refl}
use mathlib.Core.Logic.{dite}
use mathlib.Core.Bool.{Bool, true, false, ◌&&◌, ◌||◌}
use mathlib.Core.Option.{Option, none, some}
use mathlib.Core.List.{List, [], ◌∷◌}
use native.Mathlib.Omega.{arith}
use native.Mathlib.Decide.{dec_lt}
use safe_play_guardian.Prelude.Tests.{ltb, leb, nat_beq, ◌==◌, string_eq, if◌then◌else◌}
use safe_play_guardian.Prelude.Int.{ℤ, pos, negsuc}

pub IsScalar-of_lt : (n : ℕ) → n < 55296 → IsScalar n
IsScalar-of_lt n h = rw (lem) tt
  where
    lem : compare n 55296 ≡ Prim.Native.Nat.Ordering.lt
    lem = ground arith

-- The character of a code point below the surrogates.
pub to_char : ℕ → Char
unfolding dec_lt
to_char n = dite (dec_lt n 55296) (λ h. char n (IsScalar-of_lt n h)) (λ _. nul)

pub code-to_char : (n : ℕ) → n < 55296 → code (to_char n) ≡ n
unfolding to_char
code-to_char n h = ground arith

-- unicode.IsSpace
pub is_space : ℕ → Bool
is_space c =
    (leb 9 c && leb c 13)
    || nat_beq c 32
    || nat_beq c 133
    || nat_beq c 160
    || nat_beq c 5760
    || (leb 8192 c && leb c 8202)
    || nat_beq c 8232
    || nat_beq c 8233
    || nat_beq c 8239
    || nat_beq c 8287
    || nat_beq c 12288

trim_left : String → String
trim_left [] = []
trim_left (c ∷ s) = if is_space (code c) then trim_left s else c ∷ s

abbrev cons_trimmed : Char → String → String
cons_trimmed c [] = if is_space (code c) then [] else c ∷ []
cons_trimmed c (d ∷ s) = c ∷ d ∷ s

trim_right : String → String
trim_right [] = []
trim_right (c ∷ s) = cons_trimmed c (trim_right s)

-- strings.TrimSpace
unfoldable pub trim_space : String → String
unfolding trim_left trim_right is_space
trim_space s = trim_right (trim_left s)

test_trim : trim_space " a b\n" ≡ "a b"
unfolding trim_space
test_trim = refl

-- strings.ToLower on the letters A to Z; other characters stay.
unfoldable pub to_lower : String → String
unfolding to_char dec_lt
to_lower [] = []
to_lower (c ∷ s) =
    (if leb 65 (code c) && leb (code c) 90 then to_char (code c + 32) else c) ∷ to_lower s

test_lower : to_lower "AbZ" ≡ "abz"
unfolding to_lower
test_lower = refl

abbrev grow_before : Char → Option (String × String) → Option (String × String)
grow_before c none = none
grow_before c (some (a, b)) = some (c ∷ a, b)

-- strings.SplitN(s, sep, 2) for a one-character separator: what stands before the first one and
-- after it, if there is one.
unfoldable pub split_once : ℕ → String → Option (String × String)
split_once sep [] = none
split_once sep (c ∷ s) =
    if nat_beq (code c) sep then some ([], s) else grow_before c (split_once sep s)

abbrev grow_first : Char → List String → List String
grow_first c [] = (c ∷ []) ∷ []
grow_first c (p ∷ ps) = (c ∷ p) ∷ ps

-- strings.Split(s, sep) for a one-character separator; never empty.
unfoldable pub split : ℕ → String → List String
split sep [] = [] ∷ []
split sep (c ∷ s) = if nat_beq (code c) sep then [] ∷ split sep s else grow_first c (split sep s)

-- strings.Contains for one character
unfoldable pub contains_char : ℕ → String → Bool
contains_char x [] = false
contains_char x (c ∷ s) = nat_beq (code c) x || contains_char x s

-- strings.HasPrefix
unfoldable pub has_prefix : String → String → Bool
has_prefix s [] = true
has_prefix [] (_ ∷ _) = false
has_prefix (c ∷ s) (d ∷ p) = nat_beq (code c) (code d) && has_prefix s p

-- strings.HasSuffix
unfoldable pub has_suffix : String → String → Bool
has_suffix [] p = p == []
has_suffix (c ∷ s) p = p == c ∷ s || has_suffix s p

-- strings.Contains
unfoldable pub contains : String → String → Bool
unfolding has_prefix
contains [] p = has_prefix [] p
contains (c ∷ s) p = has_prefix (c ∷ s) p || contains s p

abbrev pub is_digit : ℕ → Bool
is_digit c = leb b'0' c && leb c b'9'

-- The digits of a number, after those that make up `acc`.
unfoldable pub digits_from : ℕ → String → Option ℕ
digits_from acc [] = some acc
digits_from acc (c ∷ s) =
    let rest = digits_from (acc * 10 + (code c - b'0')) s in
    if is_digit (code c) then rest else none

unfoldable pub digits : String → Option ℕ
unfolding digits_from
digits [] = none
digits (c ∷ s) = digits_from 0 (c ∷ s)

-- The results of strconv.Atoi that fit 64 bits.
abbrev in_int64 : Bool → Option ℕ → Option ℤ
in_int64 minus none = none
in_int64 false (some n) = if ltb n (2 ^ 63) then some (pos n) else none
in_int64 true (some zero) = some (pos 0)
in_int64 true (some (suc n)) = if ltb n (2 ^ 63) then some (negsuc n) else none

-- strconv.Atoi: an optional sign and at least one decimal digit; `none` is an error.
unfoldable pub atoi : String → Option ℤ
unfolding digits
atoi [] = none
atoi (c ∷ s) =
    if nat_beq (code c) b'-'
    then in_int64 true (digits s)
    else if nat_beq (code c) b'+'
    then in_int64 false (digits s)
    else in_int64 false (digits (c ∷ s))

test_atoi : atoi "-12" ≡ some (negsuc 11)
unfolding atoi
test_atoi = refl
