-- ===== src/Event/Log/Journal.antt =====
-- The log grows by one redacted event at a time, and only the sweep takes events away.
use safe_play_guardian.Prelude.{
  Stamp, ℕ, ◌-◌, ◌≤◌, ◌≡◌, ◌≢◌, refl, ap, ◌∙◌, String, Bool, true, ◌&&◌, ◌==◌, leb, string_eq,
  nat_eq, ltb, length, ◌+◌, eq_iff, Bool-cases, inl, inr, Option, none, List, [], ◌∷◌, ◌++◌, any,
  All, if◌then◌else◌, arith,
}
use safe_play_guardian.Policy.Model.{MonitoringLevel}
use safe_play_guardian.Event.Model.{Event, valid}
use safe_play_guardian.Event.Redact.{attr, attrs_of, redact}
use safe_play_guardian.Event.Redact.Privacy.{hidden, redact_lem}
use safe_play_guardian.Event.Log.{
  insert_row, delete_older, event_id, event_time, completed, insert, delete_older_than, sweep,
}
use safe_play_guardian.Event.Logger.{PolicyLookup, effective_level, append}
use mathlib.Core.List.{Memᴰ}
use safe_play_guardian.Device.Rows.{where_}
use safe_play_guardian.Store.Exec.{World, Result, ok, err, Db, exec, draw, clock}

-- The row e is the event as it was given, its attributes apart, with the fields completed.
pub record Writes (ev e : Event) : Type 0 where
  pub kind : e.kind ≡ ev.kind
  pub is_valid : valid e.kind ≡ true
  pub device : e.device_id ≡ ev.device_id
  pub has_device : e.device_id ≢ ""
  pub person : e.person_id ≡ ev.person_id
  pub attrs : attrs_of e.attrs ≡ attrs_of ev.attrs

-- On success one row is added at the end; on an error the log is as it was.
abbrev pub Inserted : Event → List Event → Result (Unit {0}) × Db → Type 0
Inserted ev es (ok _, s) = (e : Event) × (s.tables.events ≡ es ++ e ∷ []) × Writes ev e
Inserted ev es (err _, s) = s.tables.events ≡ es

module _ (w : World) (ev : Event) (id : String) (at : Stamp) (recorded : ℕ) where
  exec-Inserted :
      (s : Db)
      → valid ev.kind ≡ true
      → ev.device_id ≢ ""
      → Inserted ev s.tables.events (exec w (insert_row (completed w ev id at recorded)) s)
  unfolding exec insert_row
  exec-Inserted s v d = elim (Bool-cases (w.fails s.tick)) [
    | inl e ↦ rw e refl
    | inr e ↦ elim (Bool-cases (any (λ (r : Event). r.id == id) s.tables.events)) [
      | inl f ↦ rw (e, f) refl
      | inr f ↦
          rw (e, f)
            (
              completed w ev id at recorded,
              refl,
              record {
                kind = refl;
                is_valid = v;
                device = refl;
                has_device = d;
                person = refl;
                attrs = refl;
              },
            )
    ]
  ]

module _ (w : World) (ev : Event) where
  insert-Inserted : (s : Db) → Inserted ev s.tables.events (insert w ev s)
  unfolding insert event_id event_time draw clock
  insert-Inserted s = elim (Bool-cases (valid ev.kind)) [
    | inr v ↦ rw v refl
    | inl v ↦ elim (Bool-cases (ev.device_id == "")) [
      | inl d ↦ rw (v, d) refl
      | inr d ↦
          let given : ev.device_id ≢ "" = ground (arith, eq_iff ev.device_id "") in
          elim (Bool-cases (ev.id == "")) [
            | inl i ↦ elim (Bool-cases (ev.at.instant == 0)) [
              | inl a ↦ rw (v, d, i, a) (exec-Inserted w ev _ _ _ _ v given)
              | inr a ↦ rw (v, d, i, a) (exec-Inserted w ev _ _ _ _ v given)
            ]
            | inr i ↦ elim (Bool-cases (ev.at.instant == 0)) [
              | inl a ↦ rw (v, d, i, a) (exec-Inserted w ev _ _ _ _ v given)
              | inr a ↦ rw (v, d, i, a) (exec-Inserted w ev _ _ _ _ v given)
            ]
          ]
    ]
  ]

-- The row e is the event, less what the level hides of a block event.
pub record Logs (level : MonitoringLevel) (ev e : Event) : Type 0 where
  pub kind : e.kind ≡ ev.kind
  pub is_valid : valid e.kind ≡ true
  pub device : e.device_id ≡ ev.device_id
  pub has_device : e.device_id ≢ ""
  pub person : e.person_id ≡ ev.person_id
  pub attrs :
      (key : String)
      → attr key (attrs_of e.attrs)
        ≡ (if ev.kind == "block" && hidden level key then none else attr key (attrs_of ev.attrs))

abbrev pub Appended : MonitoringLevel → Event → List Event → Result (Unit {0}) × Db → Type 0
Appended level ev es (ok _, s) = (e : Event) × (s.tables.events ≡ es ++ e ∷ []) × Logs level ev e
Appended level ev es (err _, s) = s.tables.events ≡ es

redact-keeps :
    (ev : Event) (level : MonitoringLevel)
    → ((redact ev level).kind ≡ ev.kind)
      × ((redact ev level).device_id ≡ ev.device_id)
      × ((redact ev level).person_id ≡ ev.person_id)
unfolding redact
redact-keeps ev level = ground arith

Appended-of_Inserted :
    (level : MonitoringLevel) (ev : Event) (es : List Event) (p : Result (Unit {0}) × Db)
    → Inserted (redact ev level) es p
    → Appended level ev es p
Appended-of_Inserted level ev es (err x, s) h = h
Appended-of_Inserted level ev es (ok u, s) (e, grown, w) =
    let (kind, device, person) = redact-keeps ev level in
    (
      e,
      grown,
      record {
        kind = w.kind ∙ kind;
        is_valid = w.is_valid;
        device = w.device ∙ device;
        has_device = w.has_device;
        person = w.person ∙ person;
        attrs = λ key. ap (λ m. attr key m) w.attrs ∙ redact_lem ev level key;
      },
    )

-- Append adds exactly one row at the end of the log, or, where it fails, leaves the log as it was.
-- The row has a valid kind, a device, and the event's kind, person and device, and of a block event
-- it lacks exactly the attributes that the effective monitoring level hides.
pub append-Appended :
    (w : World) (lookup : Option PolicyLookup) (ev : Event) (s : Db)
    → Appended (effective_level lookup ev) ev s.tables.events (append w lookup ev s)
unfolding append
append-Appended w lookup ev s =
    Appended-of_Inserted (effective_level lookup ev) ev s.tables.events _
      (insert-Inserted w (redact ev (effective_level lookup ev)) s)

module _ (cutoff : ℕ) where
  abbrev fresh : Event → Bool
  fresh e = leb cutoff e.recorded_at

  abbrev stale : Event → Bool
  stale e = ltb e.recorded_at cutoff

  where_-fresh : (es : List Event) → All (λ (e : Event). cutoff ≤ e.recorded_at) (where_ fresh es)
  unfolding where_
  where_-fresh [] = tt
  where_-fresh (e ∷ es) = elim (Bool-cases (leb cutoff e.recorded_at)) [
    | inl h ↦ rw h (ground arith, where_-fresh es)
    | inr h ↦ rw h (where_-fresh es)
  ]

  length-where_ :
      (es : List Event) → length (where_ fresh es) + length (where_ stale es) ≡ length es
  unfolding where_
  length-where_ [] = omega arith
  length-where_ (e ∷ es) = ground (arith, length-where_ es)

  mem-where_ :
      {e : Event} (es : List Event) → Memᴰ e es → cutoff ≤ e.recorded_at → Memᴰ e (where_ fresh es)
  unfolding where_
  mem-where_ [] m h = elim m [ ]
  mem-where_ (x ∷ es) (Memᴰ.head p) h =
      let kept : leb cutoff x.recorded_at ≡ true =
        ground (arith, ap (λ (y : Event). y.recorded_at) p) in
      rw kept (Memᴰ.head p)
  mem-where_ (x ∷ es) (Memᴰ.tail m) h = elim (Bool-cases (leb cutoff x.recorded_at)) [
    | inl k ↦ rw k (Memᴰ.tail (mem-where_ es m h))
    | inr k ↦ rw k (mem-where_ es m h)
  ]

-- What a sweep leaves: no event older than the cutoff, each of the others, and the count that it
-- returns is that of the events gone.
pub record Swept (cutoff n : ℕ) (before after : List Event) : Type 0 where
  pub young : All (λ (e : Event). cutoff ≤ e.recorded_at) after
  pub kept : (e : Event) → Memᴰ e before → cutoff ≤ e.recorded_at → Memᴰ e after
  pub counted : length after + n ≡ length before

abbrev pub SweepPost : ℕ → List Event → Result ℕ × Db → Type 0
SweepPost cutoff es (ok n, s) = Swept cutoff n es s.tables.events
SweepPost cutoff es (err _, s) = s.tables.events ≡ es

-- A sweep that succeeds at time `now` leaves no event recorded before `now` less the window, keeps
-- every other event, and returns the number of events gone; one that fails changes nothing.
pub sweep-Swept :
    (w : World) (window : ℕ) (s : Db)
    → SweepPost (w.now s.tick - window) s.tables.events (sweep w window s)
unfolding sweep delete_older_than clock exec delete_older
sweep-Swept w window s = elim (Bool-cases (w.fails (s.tick + 1))) [
  | inl e ↦ rw e refl
  | inr e ↦ rw e (record {
    young = where_-fresh (w.now s.tick - window) s.tables.events;
    kept = λ x m h. mem-where_ (w.now s.tick - window) s.tables.events m h;
    counted = length-where_ (w.now s.tick - window) s.tables.events;
  })
]
