-- ===== src/Platform/Reads.antt =====
-- cmd/platform/main.go: what the resolver reads from the stores of the platform.
use safe_play_guardian.Prelude.{ℕ, ◌+◌, Option, none, some}
use safe_play_guardian.Device.Model.{Device}
use safe_play_guardian.Device.Registry.{get}
use safe_play_guardian.Event.Usage.{usage_since}
use safe_play_guardian.Policy.Model.{Policy, Override}
use safe_play_guardian.Policy.Resolver
use safe_play_guardian.Policy.Resolver.{Sources, ResolveError}
use safe_play_guardian.Policy.Store.{Codec, get_person_policy, get_device_override}
use safe_play_guardian.Store.Exec
use safe_play_guardian.Store.Exec.{World, Error, Db}

-- The two types of the policy store, as JSON.
pub record Codecs : Type 0 where
  pub policies : Codec Policy
  pub overrides : Codec Override

abbrev device_read : Exec.Result Device × Db → Resolver.Result ResolveError Device
device_read (Exec.ok d, s) = Resolver.ok d
device_read (Exec.err Error.device_not_found, s) = Resolver.err ResolveError.device_not_found
device_read (Exec.err e, s) = Resolver.err ResolveError.get_device

abbrev read : {A : Type 0} → Exec.Result A × Db → Option A
read (Exec.ok a, s) = some a
read (Exec.err e, s) = none

-- The state in which a later one of the reads stands: no read changes the tables.
abbrev pub later : ℕ → Db → Db
later n s = record s { tick = s.tick + n }

-- Resolver's Devices, Store and Usage (eventUsage) at one state; each read is a call of its own,
-- and Get makes three.
unfoldable pub sources_at : World → Codecs → Db → Sources
sources_at w c s = record {
  get = λ id. device_read (get w id s);
  get_person_policy = λ id. read (get_person_policy w c.policies id (later 3 s));
  get_device_override = λ id. read (get_device_override w c.overrides id (later 4 s));
  usage = some (λ id start. read (usage_since w id start (later 5 s)));
}
