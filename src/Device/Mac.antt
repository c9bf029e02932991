-- ===== src/Device/Mac.antt =====
-- internal/device/mac.go: is a MAC address locally administered?
mod Tests
use safe_play_guardian.Prelude.{
  ℕ, ◌+◌, ◌-◌, ◌*◌, ◌/◌, ◌%◌, leb, ltb, ◌==◌, nat_eq, string_eq, code, String, Bool, true, false,
  ◌&&◌, not, Option, none, some, List, [], ◌∷◌, if◌then◌else◌, trim_space, contains_char, split,
  ◌≡◌, refl,
}
use Prim.Native.String.{[], ◌∷◌}

-- The value of one hexadecimal digit.
unfoldable pub hex_value : ℕ → Option ℕ
hex_value c =
    if leb b'0' c && leb c b'9'
    then some (c - b'0')
    else if leb b'a' c && leb c b'f'
    then some (c - b'a' + 10)
    else if leb b'A' c && leb c b'F'
    then some (c - b'A' + 10)
    else none

hex_step : Option ℕ → ℕ → Option ℕ
unfolding hex_value
hex_step none c = none
hex_step (some acc) c = elim (hex_value c) [ none ↦ none | some d ↦ some (acc * 16 + d) ]

hex_from : Option ℕ → String → Option ℕ
unfolding hex_step
hex_from acc [] = acc
hex_from acc (c ∷ s) = hex_from (hex_step acc (code c)) s

abbrev in_byte : Option ℕ → Option ℕ
in_byte none = none
in_byte (some n) = if ltb n 256 then some n else none

-- strconv.ParseUint(s, 16, 8); `none` is an error.
unfoldable pub parse_hex_byte : String → Option ℕ
unfolding hex_from
parse_hex_byte [] = none
parse_hex_byte (c ∷ s) = in_byte (hex_from (some 0) (c ∷ s))

abbrev separator : String → ℕ
separator mac = if not (contains_char b':' mac) && contains_char b'-' mac then b'-' else b':'

-- byte(b)&0x02 != 0
abbrev pub is_local_byte : ℕ → Bool
is_local_byte b = b / 2 % 2 == 1

abbrev first_octet : List String → Bool
first_octet [] = false
first_octet (p ∷ _) = elim (parse_hex_byte p) [ none ↦ false | some b ↦ is_local_byte b ]

trimmed_is_randomized : String → Bool
unfolding contains_char split parse_hex_byte
trimmed_is_randomized mac = if mac == "" then false else first_octet (split (separator mac) mac)

-- IsRandomizedMAC
unfoldable pub is_randomized_mac : String → Bool
unfolding trimmed_is_randomized trim_space
is_randomized_mac mac = trimmed_is_randomized (trim_space mac)
