-- ===== src/Event/Logger.antt =====
-- internal/event/log.go: the Logger, which redacts by the effective level and then inserts.
pub mod Levels
use safe_play_guardian.Prelude.{Option, none, some, String}
use safe_play_guardian.Policy.Model.{MonitoringLevel, monitoring_enforcement_only, Policy, Override}
use safe_play_guardian.Policy.Resolver.{merge}
use safe_play_guardian.Event.Model.{Event}
use safe_play_guardian.Event.Redact.{redact}
use safe_play_guardian.Event.Log.{insert}
use safe_play_guardian.Store.Exec.{World, M}

-- PolicyLookup: `none` is an error.
pub record PolicyLookup : Type 0 where
  pub get_person_policy : String → Option (Option Policy)
  pub get_device_override : String → Option (Option Override)

abbrev pub level_of : Option Policy → MonitoringLevel
level_of none = monitoring_enforcement_only
level_of (some p) = elim p.monitoring [ none ↦ monitoring_enforcement_only | some level ↦ level ]

-- The error of the override is dropped, with the nil override that comes with it.
abbrev pub override_or_nil : Option (Option Override) → Option Override
override_or_nil none = none
override_or_nil (some o) = o

abbrev pub person_level : PolicyLookup → String → Option (Option Policy) → MonitoringLevel
person_level l device_id none = monitoring_enforcement_only
person_level l device_id (some p) =
    level_of (merge p (override_or_nil (l.get_device_override device_id)))

abbrev pub lookup_level : PolicyLookup → Event → Option String → MonitoringLevel
lookup_level l ev none = monitoring_enforcement_only
lookup_level l ev (some person) = person_level l ev.device_id (l.get_person_policy person)

-- effectiveLevel; the lookup may be nil.
unfoldable pub effective_level : Option PolicyLookup → Event → MonitoringLevel
effective_level none ev = monitoring_enforcement_only
effective_level (some l) ev = lookup_level l ev ev.person_id

-- Append
unfoldable pub append : World → Option PolicyLookup → Event → M (Unit {0})
append w lookup ev = insert w (redact ev (effective_level lookup ev))
