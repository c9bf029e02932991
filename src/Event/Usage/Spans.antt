-- ===== src/Event/Usage/Spans.antt =====
-- UsageSince counts the time between sightings, less the gaps of five minutes and more.
use mathlib.Core.List.{Memᴰ}
use safe_play_guardian.Prelude.{
  ℕ, Stamp, ◌+◌, ◌-◌, ◌*◌, ◌≤◌, ◌<◌, ◌≡◌, refl, sym, ◌∙◌, String, Bool, true, ◌&&◌, ◌==◌, leb,
  string_eq, eq_iff, eq_refl, nat_eq, List, [], ◌∷◌, map, All, arith, if◌then◌else◌, and_true,
}
use safe_play_guardian.Device.Rows.{text_le, where_, order_by}
use safe_play_guardian.Device.Rows.Sorted.{
  All-under, All-mem, Ordered, Ordered-under, order_by-All, order_by-mem, order_by-Ordered,
  where_-All, where_-mem,
}
use safe_play_guardian.Device.Rows.TextOrder.{text_le-total, text_le_trans}
use safe_play_guardian.Event.Model.{Event, kind_device_seen}
use safe_play_guardian.Event.Log.{not_before, earlier_first}
use safe_play_guardian.Event.Usage.{chain, sightings, usage}
use safe_play_guardian.Store.Exec.{World}

-- A time in UTC before the year 10000, given in nanoseconds from the year 1.
abbrev pub IsPlain : Stamp → Type 0
IsPlain t = (t.zone ≡ "UTC") × (t.instant < 315_537_897_600_000_000_000)

-- The driver's texts of such times are in the order of the times.
abbrev pub SortsPlain : World → Type 0
SortsPlain w =
    (a b : Stamp)
    → IsPlain a
    → IsPlain b
    → text_le (w.time_text a) (w.time_text b) ≡ leb a.instant b.instant

abbrev pub InOrder : Event → Event → Type 0
InOrder a b = a.at.instant ≤ b.at.instant

-- A sighting of the device from the start on.
abbrev pub IsSighting : String → Stamp → Event → Type 0
IsSighting id start e =
    (e.device_id ≡ id) × (e.kind ≡ "device_seen") × (start.instant ≤ e.at.instant)

-- The time of the last event, and the sum of the gaps of at least five minutes, after a time.
abbrev pub last_from : ℕ → List Event → ℕ
last_from prev [] = prev
last_from prev (e ∷ es) = last_from e.at.instant es

abbrev pub idle_from : ℕ → List Event → ℕ
idle_from prev [] = 0
idle_from prev (e ∷ es) =
    (if leb (5 * 60 * 1_000_000_000) (e.at.instant - prev) then e.at.instant - prev else 0)
    + idle_from e.at.instant es

-- The whole of the time from the first event to the last, less the long gaps, is n.
abbrev pub Spans : ℕ → List Event → Type 0
Spans n [] = n ≡ 0
Spans n (e ∷ es) = n + idle_from e.at.instant es + e.at.instant ≡ last_from e.at.instant es

instants : List Event → List ℕ
instants es = map (λ (e : Event). e.at.instant) es

chain-spans :
    (total prev : ℕ) (es : List Event)
    → 1 ≤ prev
    → All (λ e. prev ≤ e.at.instant) es
    → Ordered InOrder es
    → chain total prev (instants es) + idle_from prev es + prev ≡ total + last_from prev es
unfolding chain instants Ordered
chain-spans total prev [] p a h = ground arith
chain-spans total prev (e ∷ es) p (q, a) (k, h) =
    let next : 1 ≤ e.at.instant = ground arith in
    let more = chain-spans (total + (e.at.instant - prev)) e.at.instant es next k h in
    let same = chain-spans total e.at.instant es next k h in ground arith

chain_from_zero-Spans :
    (es : List Event)
    → All (λ e. 1 ≤ e.at.instant) es
    → Ordered InOrder es
    → Spans (chain 0 0 (instants es)) es
unfolding chain instants Ordered
chain_from_zero-Spans [] a h = refl
chain_from_zero-Spans (e ∷ es) (p, a) (k, h) =
    let k' = chain-spans 0 e.at.instant es p k h in omega (arith, k')

module _ (w : World) (sorts : SortsPlain w) (id : String) (start : Stamp)
    (plain : IsPlain start) where
  seen_since : Event → Bool
  seen_since e = e.device_id == id && (e.kind == kind_device_seen && not_before w start e)

  seen_since-IsSighting : (e : Event) → IsPlain e.at → seen_since e ≡ true → IsSighting id start e
  unfolding seen_since
  seen_since-IsSighting e p h =
      let order = sorts start e.at plain p in
      let (d, rest) = and_true (e.device_id == id) _ h in
      let (k, l) = and_true (e.kind == kind_device_seen) _ rest in
      (
        (eq_iff e.device_id id).0 d,
        (eq_iff e.kind kind_device_seen).0 k,
        ground (arith, sym order ∙ l),
      )

  IsSighting-seen_since : (e : Event) → IsPlain e.at → IsSighting id start e → seen_since e ≡ true
  unfolding seen_since
  IsSighting-seen_since e p (d, k, l) =
      let order = sorts start e.at plain p in
      let late : leb start.instant e.at.instant ≡ true = ground (arith, l) in
      rw (d, k, eq_refl id, eq_refl "device_seen", order) late

  -- Let the log and the start be in UTC and before the year 10000, the start not the zero time,
  -- and the driver's texts of such times in the order of the times. Then there is a list in
  -- ascending order that holds exactly the sightings of the device from the start on, such that
  -- the screen time counted is the time from the first to the last of them, less every gap of five
  -- minutes or more.
  pub usage-Spans :
      (log : List Event)
      → 1 ≤ start.instant
      → All (λ e. IsPlain e.at) log
      → (es : List Event) × All (λ e. IsSighting id start e × Memᴰ e log) es
        × ((e : Event) → IsSighting id start e → Memᴰ e log → Memᴰ e es)
        × Ordered InOrder es
        × Spans (usage w id start log) es
  unfolding usage sightings instants seen_since
  usage-Spans log late all =
      let found = where_ seen_since log in
      let seen : All (λ e. IsSighting id start e × Memᴰ e log) found =
        All-under (λ e. (seen_since e ≡ true) × Memᴰ e log)
          (λ e. IsSighting id start e × Memᴰ e log) found
          (λ e (h, m). (seen_since-IsSighting e (All-mem (λ x. IsPlain x.at) log all m) h, m))
          (where_-All seen_since log) in
      let es = order_by (earlier_first w) found in
      let listed : All (λ e. IsSighting id start e × Memᴰ e log) es =
        order_by-All (earlier_first w) (λ e. IsSighting id start e × Memᴰ e log) found seen in
      let sorted : Ordered InOrder es =
        Ordered-under (λ e. IsPlain e.at) (λ a b. earlier_first w a b ≡ true) InOrder es
          (λ a b p q h. in_order a b p q h)
          (All-under (λ e. IsSighting id start e × Memᴰ e log) (λ e. IsPlain e.at) es
            (λ e (h, m). All-mem (λ x. IsPlain x.at) log all m) listed)
          (order_by-Ordered (earlier_first w) (λ a b. earlier_first w a b ≡ true) (λ a b h. h)
            (λ a b h. text_le-total (w.time_text a.at) (w.time_text b.at) h)
            (λ a b c h k.
              text_le_trans (w.time_text a.at) (w.time_text b.at) (w.time_text c.at) h k)
            found) in
      (
        es,
        listed,
        λ e h m. order_by-mem (earlier_first w) found (
            where_-mem seen_since log
              (IsSighting-seen_since e (All-mem (λ x. IsPlain x.at) log all m) h) m),
        sorted,
        chain_from_zero-Spans es
            (All-under (λ e. IsSighting id start e × Memᴰ e log) (λ e. 1 ≤ e.at.instant) es
              (λ e ((d, k, l), m). omega (arith, late, l)) listed)
            sorted,
      )
    where
      in_order :
          (a b : Event) → IsPlain a.at → IsPlain b.at → earlier_first w a b ≡ true → InOrder a b
      in_order a b p q h = let order = sorts a.at b.at p q in ground (arith, sym order ∙ h)
