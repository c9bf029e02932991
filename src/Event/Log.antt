-- ===== src/Event/Log.antt =====
-- internal/event/store.go and retention.go: Insert, Recent, DeleteOlderThan and the sweep.
pub mod Journal
pub mod Keeps
use safe_play_guardian.Prelude.{
  ℕ, zero, suc, Stamp, utc_stamp, ◌+◌, ◌-◌, ltb, leb, nat_eq, string_eq, ◌==◌, String, Bool, true,
  false, not, ◌&&◌, ◌||◌, Option, none, some, List, [], ◌∷◌, ◌++◌, any, length, if◌then◌else◌,
}
use safe_play_guardian.Event.Model.{Kind, Event, valid, severity_info, Attrs}
use safe_play_guardian.Event.Redact.{attrs_of}
use safe_play_guardian.Device.Rows.{text_le, where_, order_by}
use safe_play_guardian.Store.Tables.{Tables}
use safe_play_guardian.Store.Exec.{
  World, Result, ok, err, Db, M, ◌>>=◌, return, raise, query, exec, clock, draw, invalid_kind,
  missing_device_id,
}

-- An event's identity is the table's primary key.
unfoldable pub insert_row : Event → Tables → Option Tables
insert_row ev t =
    if any (λ (e : Event). e.id == ev.id) t.events
    then none
    else some (record t { events = t.events ++ ev ∷ [] })

unfoldable pub delete_older : ℕ → Tables → Option Tables
delete_older cutoff t =
    some (record t { events = where_ (λ (e : Event). leb cutoff e.recorded_at) t.events })

module _ (w : World) where
  -- A fresh identity, and the clock, for the fields at their zero values.
  unfoldable pub event_id : Event → M String
  event_id ev = if ev.id == "" then draw w else return ev.id

  unfoldable pub event_time : Event → M Stamp
  event_time ev =
      if ev.at.instant == 0 then (clock w >>= λ now. return (utc_stamp now)) else return ev.at

  -- The row as Insert writes it.
  abbrev pub completed : Event → String → Stamp → ℕ → Event
  completed ev id at recorded_at = record ev {
    id = id;
    at = at;
    recorded_at = recorded_at;
    severity = if ev.severity == "" then severity_info else ev.severity;
    attrs = some (attrs_of ev.attrs);
  }

  -- Insert; json.Marshal does not fail on attributes that came from JSON or are texts.
  unfoldable pub insert : Event → M (Unit {0})
  unfolding event_id event_time
  insert ev =
      if not (valid ev.kind)
      then raise invalid_kind
      else if ev.device_id == ""
      then raise missing_device_id
      else (event_id ev >>= λ id. event_time ev >>= λ at.
          clock w >>= λ recorded_at. exec w (insert_row (completed ev id at recorded_at)))

  abbrev pub rows_affected : ℕ → Result (Unit {0}) × Db → Result ℕ × Db
  rows_affected n (ok u, s) = (ok n, s)
  rows_affected n (err e, s) = (err e, s)

  -- DeleteOlderThan; its count is that of the rows deleted.
  unfoldable pub delete_older_than : ℕ → M ℕ
  delete_older_than cutoff s =
      rows_affected (length (where_ (λ (e : Event). ltb e.recorded_at cutoff) s.tables.events))
        (exec w (delete_older cutoff) s)

  -- The sweep of RunRetention: what is older than the window goes.
  unfoldable pub sweep : ℕ → M ℕ
  unfolding delete_older_than
  sweep window = clock w >>= λ now. delete_older_than (now - window)

-- RecentFilter; the empty text, the empty list and 0 do not filter.
pub record RecentFilter : Type 0 where
  pub device_id : String
  pub person_id : String
  pub kinds : List Kind
  pub since : Stamp
  pub limit : ℕ

abbrev pub person_is : String → Option String → Bool
person_is id none = false
person_is id (some p) = p == id

abbrev pub is_empty {ℓ} : {A : Type ℓ} → List A → Bool
is_empty [] = true
is_empty (_ ∷ _) = false

-- at >= ?, which compares the texts that the driver wrote.
abbrev pub not_before : World → Stamp → Event → Bool
not_before w since e = text_le (w.time_text since) (w.time_text e.at)

-- ORDER BY at, and ORDER BY at DESC
abbrev pub earlier_first : World → Event → Event → Bool
earlier_first w a b = text_le (w.time_text a.at) (w.time_text b.at)

abbrev pub later_first : World → Event → Event → Bool
later_first w a b = text_le (w.time_text b.at) (w.time_text a.at)

-- The WHERE clause that Recent builds.
unfoldable pub matches : World → RecentFilter → Event → Bool
matches w f e =
    (f.device_id == "" || e.device_id == f.device_id)
    && ((f.person_id == "" || person_is f.person_id e.person_id)
        && ((is_empty f.kinds || any (λ k. e.kind == k) f.kinds)
            && (f.since.instant == 0 || not_before w f.since e)))

unfoldable pub take {ℓ} : {A : Type ℓ} → ℕ → List A → List A
take zero xs = []
take (suc n) [] = []
take (suc n) (x ∷ xs) = x ∷ take n xs

abbrev pub limited {ℓ} : {A : Type ℓ} → ℕ → List A → List A
limited n xs = if n == 0 then xs else take n xs

unfoldable pub recent_rows : World → RecentFilter → List Event → List Event
unfolding matches take
recent_rows w f events = limited f.limit (order_by (later_first w) (where_ (matches w f) events))

-- Recent
unfoldable pub recent : World → RecentFilter → M (List Event)
unfolding recent_rows
recent w f = query w (λ t. recent_rows w f t.events)
