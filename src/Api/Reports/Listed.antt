-- ===== src/Api/Reports/Listed.antt =====
-- What the list of recent events holds.
use mathlib.Core.List.{Memᴰ}
use safe_play_guardian.Prelude.{
  ℕ, ◌≤◌, ℤ, pos, negsuc, ◌≡◌, refl, ap, ◌==◌, ◌||◌, string_eq, nat_eq, eq_iff, eq_refl, String,
  Bool, true, false, Bool-cases, ◌⊎◌, inl, inr, Option, none, some, List, [], ◌∷◌, any, All, length,
  arith, and_true, or_true, ltb, if◌then◌else◌,
}
use safe_play_guardian.Device.Rows.{text_le, where_, order_by}
use safe_play_guardian.Device.Rows.Sorted.{
  All-under, take-All, length-take, Ordered, take-Ordered, take-mem, order_by-All, order_by-mem,
  order_by-Ordered, where_-All, where_-mem,
}
use safe_play_guardian.Device.Rows.TextOrder.{text_le-total, text_le_trans}
use safe_play_guardian.Event.Model.{Event}
use safe_play_guardian.Event.Log.{
  matches, later_first, person_is, is_empty, take, limited, recent_rows, recent,
}
use safe_play_guardian.Store.Exec.{World, Db, query}
use safe_play_guardian.Api.Reply.{Reply, write_json, write_error}
use safe_play_guardian.Api.Reports.{
  EventsQuery, int_of, limit_within, event_limit, events_filter, list_events,
}

-- The event is one that the query asks for; the empty text asks for all.
abbrev pub Fits : EventsQuery → Event → Type 0
Fits q e =
    ((q.device_id ≡ "") ⊎ (e.device_id ≡ q.device_id))
    × ((q.person_id ≡ "") ⊎ (e.person_id ≡ some q.person_id))
    × ((q.kind ≡ "") ⊎ (e.kind ≡ q.kind))

-- A limit of 1 to 500 counts; any other number stands for 100.
abbrev pub LimitOf : ℤ → ℕ → Type 0
LimitOf d n =
    ((d ≡ pos n) × (1 ≤ n) × (n ≤ 500)) ⊎ ((n ≡ 100) × ((m : ℕ) → d ≡ pos m → (m ≡ 0) ⊎ (501 ≤ m)))

-- The stored text of the second event's time is not above that of the first.
abbrev pub NotAfter : World → Event → Event → Type 0
NotAfter w e x = text_le (w.time_text x.at) (w.time_text e.at) ≡ true

abbrev pub Lists : World → EventsQuery → List Event → List Event → Type 0
Lists w q log es =
    (n : ℕ) × LimitOf (int_of q.limit) n
    × (length es ≤ n)
    × All (λ e. Fits q e × Memᴰ e log) es
    × Ordered (NotAfter w) es
    × ((e : Event)
        → Fits q e
        → Memᴰ e log
        → Memᴰ e es ⊎ ((length es ≡ n) × All (λ x. NotAfter w x e) es))

-- The handler's answer, and the tables it leaves.
abbrev pub Listed : World → EventsQuery → Db → Reply (List Event) × Db → Type 0
Listed w q s p =
    (p.1.tables ≡ s.tables)
    × (((w.fails s.tick ≡ true) × (p.0 ≡ write_error 500 "events"))
        ⊎ ((es : List Event) × (p.0 ≡ write_json 200 es) × Lists w q s.tables.events es))

event_limit-LimitOf : (s : String) → LimitOf (int_of s) (event_limit s)
unfolding event_limit
event_limit-LimitOf s = cases (int_of s)
  where
    cases : (d : ℤ) → LimitOf d (limit_within d)
    cases (pos n) = elim (Bool-cases (n == 0)) [
      | inl e ↦ rw e (inr (refl, λ m h. inl (ground (arith, e, h))))
      | inr e ↦ elim (Bool-cases (ltb 500 n)) [
        | inl f ↦ rw (e, f) (inr (refl, λ m h. inr (ground (arith, f, h))))
        | inr f ↦ rw (e, f) (inl (refl, ground (arith, e), ground (arith, f)))
      ]
    ]
    cases (negsuc n) = inr (refl, λ m h. absurd (ground (arith, h)))

-- The three tests of the filter, one by one.
text_test : String → String → Bool
text_test x field = x == "" || field == x

text_test-fits : (x field : String) → text_test x field ≡ true → (x ≡ "") ⊎ (field ≡ x)
unfolding text_test
text_test-fits x field h = elim (or_true (x == "") (field == x) h) [
  | inl e ↦ inl ((eq_iff x "").0 e)
  | inr e ↦ inr ((eq_iff field x).0 e)
]

fits-text_test : (x field : String) → (x ≡ "") ⊎ (field ≡ x) → text_test x field ≡ true
unfolding text_test
fits-text_test x field (inl e) = rw (e, eq_refl "") refl
fits-text_test x field (inr e) = rw (e, eq_refl x) (ground arith)

person_test : String → Option String → Bool
person_test x field = x == "" || person_is x field

person_test-fits :
    (x : String) (field : Option String) → person_test x field ≡ true → (x ≡ "") ⊎ (field ≡ some x)
unfolding person_test
person_test-fits x none h = elim (or_true (x == "") false h) [
  | inl e ↦ inl ((eq_iff x "").0 e)
  | inr e ↦ absurd (ground (arith, e))
]
person_test-fits x (some p) h = elim (or_true (x == "") (p == x) h) [
  | inl e ↦ inl ((eq_iff x "").0 e)
  | inr e ↦ inr (ap some ((eq_iff p x).0 e))
]

fits-person_test :
    (x : String) (field : Option String) → (x ≡ "") ⊎ (field ≡ some x) → person_test x field ≡ true
unfolding person_test
fits-person_test x field (inl e) = rw (e, eq_refl "") refl
fits-person_test x field (inr e) = rw (e, eq_refl x) (ground arith)

kind_test : String → String → Bool
kind_test x field =
    let kinds = if x == "" then [] else x ∷ [] in is_empty kinds || any (λ k. field == k) kinds

kind_test-fits : (x field : String) → kind_test x field ≡ true → (x ≡ "") ⊎ (field ≡ x)
unfolding kind_test
kind_test-fits x field h = elim (Bool-cases (x == "")) [
  | inl e ↦ inl ((eq_iff x "").0 e)
  | inr e ↦ inr ((eq_iff field x).0 (ground (arith, e, h)))
]

fits-kind_test : (x field : String) → (x ≡ "") ⊎ (field ≡ x) → kind_test x field ≡ true
unfolding kind_test
fits-kind_test x field (inl e) = rw (e, eq_refl "") refl
fits-kind_test x field (inr e) = elim (Bool-cases (x == "")) [
  | inl f ↦ rw f refl
  | inr f ↦ rw (e, f) (ground (arith, eq_refl x))
]

module _ (w : World) (q : EventsQuery) where
  matches-Fits : (e : Event) → matches w (events_filter q) e ≡ true → Fits q e
  unfolding matches events_filter text_test person_test kind_test
  matches-Fits e h =
      let (d, more) = and_true (text_test q.device_id e.device_id) _ h in
      let (p, last) = and_true (person_test q.person_id e.person_id) _ more in
      let (k, since) = and_true (kind_test q.kind e.kind) _ last in
      (
        text_test-fits q.device_id e.device_id d,
        person_test-fits q.person_id e.person_id p,
        kind_test-fits q.kind e.kind k,
      )

  Fits-matches : (e : Event) → Fits q e → matches w (events_filter q) e ≡ true
  unfolding matches events_filter text_test person_test kind_test
  Fits-matches e (d, p, k) =
      let d' = fits-text_test q.device_id e.device_id d in
      let p' = fits-person_test q.person_id e.person_id p in
      let k' = fits-kind_test q.kind e.kind k in rw (d', p', k') refl

  limited-take : (n : ℕ) (es : List Event) → 1 ≤ n → limited n es ≡ take n es
  limited-take n es h = ground arith

  LimitOf-positive : (d : ℤ) (n : ℕ) → LimitOf d n → 1 ≤ n
  LimitOf-positive d n (inl (e, l, m)) = l
  LimitOf-positive d n (inr (e, f)) = omega (arith, e)

  recent_rows-Lists : (log : List Event) → Lists w q log (recent_rows w (events_filter q) log)
  unfolding recent_rows events_filter
  recent_rows-Lists log =
      let n = event_limit q.limit in
      let found = where_ (matches w (events_filter q)) log in
      let rows = order_by (later_first w) found in
      let fitting : All (λ e. Fits q e × Memᴰ e log) found =
        All-under (λ e. (matches w (events_filter q) e ≡ true) × Memᴰ e log)
          (λ e. Fits q e × Memᴰ e log) found (λ e (h, m). (matches-Fits e h, m))
          (where_-All (matches w (events_filter q)) log) in
      let sorted : Ordered (NotAfter w) rows =
        order_by-Ordered (later_first w) (NotAfter w) (λ a b h. h)
          (λ a b h. text_le-total (w.time_text b.at) (w.time_text a.at) h)
          (λ a b c h k. text_le_trans (w.time_text c.at) (w.time_text b.at) (w.time_text a.at) k h)
          found in
      rw (limited-take n rows (LimitOf-positive (int_of q.limit) n (event_limit-LimitOf q.limit))) (
        n,
        event_limit-LimitOf q.limit,
        length-take n rows,
        take-All (λ e. Fits q e × Memᴰ e log) n rows
            (order_by-All (later_first w) (λ e. Fits q e × Memᴰ e log) found fitting),
        take-Ordered (NotAfter w) n rows sorted,
        λ e h m. take-mem (NotAfter w) n rows sorted (
            order_by-mem (later_first w) found
              (where_-mem (matches w (events_filter q)) log (Fits-matches e h) m)),
      )

-- The list of recent events changes no table. It answers with an error only where its statement
-- fails, and else with a list for a limit: the query's, where that is a number of 1 to 500, and
-- else 100. The list holds at most as many events as the limit; each is in the log and has the
-- device, the person and the kind that the query names, if it names one; the stored text of no
-- event's time is above that of one before it; and each event of the log that the query asks for
-- is listed, or as many as the limit are, none of which has a text below its.
pub list_events-Listed : (w : World) (q : EventsQuery) (s : Db) → Listed w q s (list_events w q s)
unfolding list_events recent query
list_events-Listed w q s = elim (Bool-cases (w.fails s.tick)) [
  | inl e ↦ rw e (refl, inl (refl, refl))
  | inr e ↦ rw e (refl, inr (_, refl, recent_rows-Lists w q s.tables.events))
]
