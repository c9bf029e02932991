-- ===== src/Samples.antt =====
-- Data for the tests: an outside world without faults, a family of one child with a phone, and a
-- time zone without offset.
use Prim.Native.String.{[] as no_text, ◌∷◌ as ◌◂◌}
use safe_play_guardian.Prelude.{
  ℕ, zero, suc, String, utc_stamp, ◌+◌, ◌/◌, ◌%◌, ◌-◌, ◌==◌, nat_eq, string_eq, false, none, some,
  [], ◌∷◌, refl, to_char, pos, if◌then◌else◌,
}
use safe_play_guardian.Store.Tables.{DeviceRow, Tables}
use safe_play_guardian.Store.Exec.{World, Db}
use safe_play_guardian.Device.Model.{
  Device, Observation, state_active, identity_mac, identity_ip, cap_schedule_block,
}
use safe_play_guardian.Device.Consistent.{IsConsistent}
use safe_play_guardian.Event.Model.{Event, kind_device_seen, kind_block}
use safe_play_guardian.Policy.Model.{
  Weekday, sunday, monday, tuesday, wednesday, thursday, friday, saturday, Policy, Schedule,
  monitoring_metadata,
}
use safe_play_guardian.Policy.Resolver.{Zones, Sources, ok}
use safe_play_guardian.Auth.Accounts.{Hashing}

-- No statement fails; the clock and the random source depend on the call.
abbrev pub calm : World
calm = record {
  fails = λ n. false;
  now = λ n. 5_000_000_000_000 + n;
  random = λ n. to_char (n + 97) ◂ no_text;
  visit = λ n keys. keys;
  time_text = λ t. t.zone;
}

-- One character for each nanosecond, a text in the order of the times.
unfoldable pub ones : ℕ → String
ones zero = no_text
ones (suc n) = to_char 97 ◂ ones n

-- The texts of the times are in their order.
abbrev pub sorted_calm : World
sorted_calm = record calm { time_text = λ t. ones t.instant }

-- The fourth call fails.
abbrev pub faulty : World
faulty = record calm { fails = λ n. n == 3 }

abbrev pub phone : DeviceRow
phone = record {
  id = "phone";
  person_id = some "ann";
  label = "Ann's phone";
  kind = "phone";
  agent_token = some "token";
  state = state_active;
  last_seen = none;
}

abbrev pub sighting_at : ℕ → Event
sighting_at at = record {
  id = "e";
  at = utc_stamp at;
  recorded_at = at;
  kind = kind_device_seen;
  person_id = some "ann";
  device_id = "phone";
  severity = "info";
  attrs = none;
}

abbrev pub home : Tables
home = record {
  people = record { id = "ann"; name = "Ann"; created_at = 1 } ∷ [];
  devices = phone ∷ [];
  network_identities =
      record {
        device_id = "phone";
        kind = identity_mac;
        value = "3c:22:fb:00:00:01";
        last_seen = none;
      }
      ∷ record { device_id = "phone"; kind = identity_ip; value = "10.0.0.5"; last_seen = none }
      ∷ [];
  device_capabilities = record { device_id = "phone"; capability = cap_schedule_block } ∷ [];
  pending_merges = [];
  policies = [];
  device_overrides = [];
  events = sighting_at 1000 ∷ sighting_at 2000 ∷ [];
  auth_users = record { id = "u"; username = "parent"; pw_hash = "secret99" } ∷ [];
  auth_sessions = record { token = "t"; user_id = "u"; expires_at = 9_000_000_000_000 } ∷ [];
}

pub home-IsConsistent : IsConsistent home
home-IsConsistent = record {
  device_keys = (refl, tt);
  device_owners = (refl, tt);
  identity_keys = (refl, (refl, tt));
  identity_owners = (refl, (refl, tt));
  capability_keys = (refl, tt);
  capability_owners = (refl, tt);
  pending_sources = tt;
}

abbrev pub home_db : Db
home_db = record { tick = 0; tables = home }

-- A hash that is the password itself.
abbrev pub plain : Hashing
plain = record { hash_password = λ p salt. p; verify_password = λ p h. p == h }

-- A sighting of an unknown tablet, and one of the phone.
abbrev pub tablet_seen : Observation
tablet_seen = record {
  source = "scan";
  seen_at = 0;
  agent_token = "";
  agent_id = "";
  mac = "3c:22:fb:00:00:02";
  ip = "10.0.0.6";
  hostname = "tablet";
  caps = [];
  label = "";
  kind = "";
}

abbrev pub phone_seen : Observation
phone_seen = record tablet_seen { mac = "3c:22:fb:00:00:01"; hostname = "phone" }

abbrev pub phone_device : Device
phone_device = record {
  id = "phone";
  person_id = some "ann";
  label = "Ann's phone";
  kind = "phone";
  agent_token = some "token";
  state = state_active;
  last_seen = none;
  identities = [];
  caps = [];
}

-- Days from the zero time, a Monday.
abbrev day_name : ℕ → Weekday
day_name n =
    if n == 0
    then monday
    else if n == 1
    then tuesday
    else if n == 2
    then wednesday
    else if n == 3
    then thursday
    else if n == 4
    then friday
    else if n == 5
    then saturday
    else sunday

abbrev pub utc_only : Zones
utc_only = record {
  Location = Unit;
  utc = tt;
  load_location = λ name. none;
  local_time = λ loc at. record {
    weekday = day_name (at / 86_400_000_000_000 % 7);
    hour = at / 3_600_000_000_000 % 24;
    minute = at / 60_000_000_000 % 60;
  };
  start_of_day = λ loc at. utc_stamp (at - at % 86_400_000_000_000);
}

-- Bedtime from half past nine on Fridays.
abbrev pub nights : Schedule
nights = record {
  blocks = record { kind = "bedtime"; weekdays = pos 5 ∷ []; start = "21:30"; end = "06:00" } ∷ [];
}

abbrev pub house_rules : Policy
house_rules = record {
  timezone = "";
  time_budget = some (record { minutes_by_weekday = λ day. pos 60 });
  schedule = some nights;
  content = some (record {
    blocked_domains = some ("example.org" ∷ []);
    blocked_apps = none;
    blocked_categories = none;
  });
  monitoring = some monitoring_metadata;
}

-- The stores of the family; the phone was used for two hours.
abbrev pub family : Sources
family = record {
  get = λ id. ok phone_device;
  get_person_policy = λ id. some (some house_rules);
  get_device_override = λ id. some none;
  usage = some (λ id start. some 7_200_000_000_000);
}

abbrev pub blocked_visit : Event
blocked_visit = record (sighting_at 0) {
  id = "";
  kind = kind_block;
  attrs = some (("capability", "domain_block") ∷ ("host", "example.org") ∷ []);
}
