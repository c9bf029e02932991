-- ===== src/Discovery/Mac/Tests.antt =====
-- NormalizeMAC at concrete texts.
use safe_play_guardian.Prelude.{◌≡◌, refl}
use safe_play_guardian.Discovery.Mac.{normalize_mac}

test_normalize : normalize_mac " 1:2:A:b:5:F0 " ≡ "01:02:0a:0b:05:f0"
unfolding normalize_mac
test_normalize = refl

test_incomplete : normalize_mac "(incomplete)" ≡ ""
unfolding normalize_mac
test_incomplete = refl
