-- ===== src/Event/Redact.antt =====
-- internal/event/log.go: Redact, which strips an event before it is written.
pub mod Privacy
use safe_play_guardian.Prelude.{
  String, Bool, true, false, not, ◌||◌, ◌==◌, string_eq, Option, none, some, List, [], ◌∷◌,
  if◌then◌else◌,
}
use safe_play_guardian.Policy.Model.{
  MonitoringLevel, monitoring_enforcement_only, monitoring_metadata,
}
use safe_play_guardian.Event.Model.{Attrs, Event, kind_block}

-- m[key]
unfoldable pub attr : String → Attrs → Option String
attr key [] = none
attr key ((k, v) ∷ m) = if k == key then some v else attr key m

-- delete(m, key)
unfoldable pub delete_attr : String → Attrs → Attrs
delete_attr key [] = []
delete_attr key ((k, v) ∷ m) = if k == key then delete_attr key m else (k, v) ∷ delete_attr key m

-- Reading the nil map finds nothing.
abbrev pub attrs_of : Option Attrs → Attrs
attrs_of none = []
attrs_of (some m) = m

abbrev pub only_capability : Option String → Attrs
only_capability none = []
only_capability (some c) = ("capability", c) ∷ []

-- The three deletions; deleting from the nil map leaves it nil.
abbrev pub without_details : Option Attrs → Option Attrs
without_details none = none
without_details (some m) = some (delete_attr "host" (delete_attr "url" (delete_attr "value" m)))

-- The switch on the level; a level that is none of the two strips nothing.
unfoldable pub redact_attrs : MonitoringLevel → Option Attrs → Option Attrs
unfolding attr delete_attr
redact_attrs level m =
    if level == monitoring_enforcement_only
    then some (only_capability (attr "capability" (attrs_of m)))
    else if level == monitoring_metadata
    then without_details m
    else m

-- Redact
unfoldable pub redact : Event → MonitoringLevel → Event
unfolding redact_attrs
redact ev level =
    if not (ev.kind == kind_block) then ev else record ev { attrs = redact_attrs level ev.attrs }
