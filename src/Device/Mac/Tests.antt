-- ===== src/Device/Mac/Tests.antt =====
-- IsRandomizedMAC at concrete texts.
use safe_play_guardian.Prelude.{◌≡◌, refl, true, false}
use safe_play_guardian.Device.Mac.{is_randomized_mac}

test_randomized : is_randomized_mac " da-a1-19-00-00-01" ≡ true
unfolding is_randomized_mac
test_randomized = refl

test_burned_in : is_randomized_mac "3c:22:fb:00:00:01" ≡ false
unfolding is_randomized_mac
test_burned_in = refl
