-- ===== src/Event/Model.antt =====
-- internal/event/model.go: the kinds of events, and the record of one.
use safe_play_guardian.Prelude.{Stamp, ℕ, String, Bool, ◌||◌, ◌==◌, string_eq, Option, List}

abbrev pub Kind : Type 0
Kind = String

abbrev pub kind_device_seen : Kind
kind_device_seen = "device_seen"

abbrev pub kind_policy_applied : Kind
kind_policy_applied = "policy_applied"

abbrev pub kind_policy_failed : Kind
kind_policy_failed = "policy_failed"

abbrev pub kind_policy_unenforceable : Kind
kind_policy_unenforceable = "policy_unenforceable"

abbrev pub kind_block : Kind
kind_block = "block"

abbrev pub kind_session_start : Kind
kind_session_start = "session_start"

abbrev pub kind_session_stop : Kind
kind_session_stop = "session_stop"

abbrev pub kind_schedule_transition : Kind
kind_schedule_transition = "schedule_transition"

-- Valid: a look-up in the map of the eight kinds.
unfoldable pub valid : Kind → Bool
valid k =
    k == kind_device_seen
    || k == kind_policy_applied
    || k == kind_policy_failed
    || k == kind_policy_unenforceable
    || k == kind_block
    || k == kind_session_start
    || k == kind_session_stop
    || k == kind_schedule_transition

abbrev pub Severity : Type 0
Severity = String

abbrev pub severity_info : Severity
severity_info = "info"

abbrev pub severity_warn : Severity
severity_warn = "warn"

abbrev pub severity_error : Severity
severity_error = "error"

-- A map from names to values of any type, each value as its JSON text; no name occurs twice.
abbrev pub Attrs : Type 0
Attrs = List (String × String)

-- `attrs` is `none` for the nil map; a time is 0 for the zero time.
pub record Event : Type 0 where
  pub id : String
  pub at : Stamp
  pub recorded_at : ℕ
  pub kind : Kind
  pub person_id : Option String
  pub device_id : String
  pub severity : Severity
  pub attrs : Option Attrs
