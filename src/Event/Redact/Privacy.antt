-- ===== src/Event/Redact/Privacy.antt =====
-- What Redact leaves of an event, attribute by attribute.
use safe_play_guardian.Prelude.{
  ◌≡◌, refl, String, Bool, false, not, ◌&&◌, ◌||◌, ◌==◌, string_eq, eq_iff, Bool-cases, inl, inr,
  Option, none, some, [], ◌∷◌, if◌then◌else◌, arith,
}
use safe_play_guardian.Policy.Model.{
  MonitoringLevel, monitoring_enforcement_only, monitoring_metadata,
}
use safe_play_guardian.Event.Model.{Attrs, Event, kind_block}
use safe_play_guardian.Event.Redact.{
  attr, delete_attr, attrs_of, only_capability, without_details, redact_attrs, redact,
}

attr-delete_attr :
    (key del : String) (m : Attrs)
    → attr key (delete_attr del m) ≡ (if del == key then none else attr key m)
unfolding attr delete_attr
attr-delete_attr key del [] = ground arith
attr-delete_attr key del ((k, v) ∷ m) =
    ground (arith, attr-delete_attr key del m, eq_iff k del, eq_iff k key, eq_iff del key)

-- What a monitoring level must not let reach the disk of a block event: all but the capability at
-- enforcement_only, and the value, url and host at metadata.
abbrev pub hidden : MonitoringLevel → String → Bool
hidden level key =
    if level == monitoring_enforcement_only
    then not (key == "capability")
    else if level == monitoring_metadata
    then key == "value" || key == "url" || key == "host"
    else false

attr-only_capability :
    (key : String) (o : Option String)
    → attr key (only_capability o) ≡ (if key == "capability" then o else none)
unfolding attr
attr-only_capability key none = ground arith
attr-only_capability key (some c) = ground (arith, eq_iff "capability" key, eq_iff key "capability")

attr-without_details :
    (key : String) (m : Option Attrs)
    → attr key (attrs_of (without_details m))
      ≡ (if key == "value" || key == "url" || key == "host" then none else attr key (attrs_of m))
unfolding attr
attr-without_details key none = ground arith
attr-without_details key (some m) = ground (
  arith,
  attr-delete_attr key "host" (delete_attr "url" (delete_attr "value" m)),
  attr-delete_attr key "url" (delete_attr "value" m),
  attr-delete_attr key "value" m,
  eq_iff "host" key,
  eq_iff "url" key,
  eq_iff "value" key,
  eq_iff key "host",
  eq_iff key "url",
  eq_iff key "value",
)

pub attr-redact_attrs :
    (key level : String) (m : Option Attrs)
    → attr key (attrs_of (redact_attrs level m))
      ≡ (if hidden level key then none else attr key (attrs_of m))
unfolding redact_attrs
attr-redact_attrs key level m = elim (Bool-cases (level == monitoring_enforcement_only)) [
  | inl e ↦ rw e (
      ground
        (arith, attr-only_capability key (attr "capability" (attrs_of m)), eq_iff key "capability"))
  | inr e ↦ elim (Bool-cases (level == monitoring_metadata)) [
    | inl d ↦ rw (e, d) (attr-without_details key m)
    | inr d ↦ rw (e, d) refl
  ]
]

-- Redact leaves an event that is no block event as it was, and of a block event it removes
-- exactly the attributes that the level hides: each other attribute keeps its value.
pub redact_lem :
    (ev : Event) (level : MonitoringLevel) (key : String)
    → attr key (attrs_of (redact ev level).attrs)
      ≡ (if ev.kind == kind_block && hidden level key then none else attr key (attrs_of ev.attrs))
unfolding redact
redact_lem ev level key = elim (Bool-cases (ev.kind == kind_block)) [
  | inl e ↦ rw e (attr-redact_attrs key level ev.attrs)
  | inr e ↦ rw e refl
]
