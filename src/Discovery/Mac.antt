-- ===== src/Discovery/Mac.antt =====
-- internal/discovery/scanner.go: NormalizeMAC, isHex and IsNonHostMAC.
mod Tests
use Prim.Native.String
use Prim.Native.String.{[], ◌∷◌}
use safe_play_guardian.Prelude.{
  ℕ, leb, nat_beq, nat_eq, string_eq, ◌==◌, String, Bool, true, not, ◌&&◌, ◌||◌, code, to_char,
  List, [], ◌∷◌, length, if◌then◌else◌, trim_space, to_lower, contains, contains_char, split,
  has_prefix, ◌≡◌, refl,
}

unfoldable pub is_hex : ℕ → Bool
is_hex r = (leb b'0' r && leb r b'9') || (leb b'a' r && leb r b'f')

unfoldable pub all_hex : String → Bool
unfolding is_hex
all_hex [] = true
all_hex (c ∷ s) = is_hex (code c) && all_hex s

-- One octet in two digits; "" is a failure. A part of other than one or two hexadecimal digits
-- fails, whether its length is counted in bytes or in characters.
unfoldable pub pad_octet : String → String
unfolding all_hex
pad_octet [] = []
pad_octet (c ∷ []) = if is_hex (code c) then to_char b'0' ∷ c ∷ [] else []
pad_octet (c ∷ d ∷ []) = if is_hex (code c) && is_hex (code d) then c ∷ d ∷ [] else []
pad_octet (c ∷ d ∷ e ∷ s) = []

unfoldable pub octets_ok : List String → Bool
unfolding pad_octet
octets_ok [] = true
octets_ok (p ∷ ps) = not (pad_octet p == "") && octets_ok ps

-- The padded octets with a colon between two.
unfoldable pub join_octets : List String → String
unfolding pad_octet
join_octets [] = []
join_octets (p ∷ []) = pad_octet p
join_octets (p ∷ q ∷ ps) = String.◌++◌ (pad_octet p) (to_char b':' ∷ join_octets (q ∷ ps))

abbrev pub separator : String → ℕ
separator s = if not (contains_char b':' s) && contains_char b'-' s then b'-' else b':'

-- The loop over the parts, if there are six.
unfoldable pub from_parts : List String → String
unfolding octets_ok join_octets
from_parts parts = if nat_beq (length parts) 6 && octets_ok parts then join_octets parts else ""

unfoldable pub normalize_trimmed : String → String
unfolding from_parts contains contains_char split
normalize_trimmed s =
    if s == "" || contains s "incomplete" then "" else from_parts (split (separator s) s)

-- NormalizeMAC
unfoldable pub normalize_mac : String → String
unfolding normalize_trimmed trim_space to_lower
normalize_mac s = normalize_trimmed (trim_space (to_lower s))

-- IsNonHostMAC
unfoldable pub is_non_host_mac : String → Bool
unfolding has_prefix
is_non_host_mac mac =
    mac == "ff:ff:ff:ff:ff:ff" || has_prefix mac "01:00:5e:" || has_prefix mac "33:33:"
