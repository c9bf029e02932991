-- ===== src/Event/Usage.antt =====
-- internal/event/store.go: UsageSince, which chains sightings less than five minutes apart.
pub mod Spans
use safe_play_guardian.Prelude.{
  ℕ, Stamp, ◌+◌, ◌-◌, ltb, leb, nat_eq, string_eq, ◌==◌, String, Bool, not, ◌&&◌, List, [], ◌∷◌,
  map, if◌then◌else◌,
}
use safe_play_guardian.Event.Model.{Event, kind_device_seen}
use safe_play_guardian.Event.Log.{not_before, earlier_first}
use safe_play_guardian.Device.Rows.{where_, order_by}
use safe_play_guardian.Store.Exec.{World, M, query}

-- Five minutes, in nanoseconds.
abbrev pub gap : ℕ
gap = 300_000_000_000

-- The loop over the rows, from the total and the previous time (0 for the zero time).
unfoldable pub chain : ℕ → ℕ → List ℕ → ℕ
chain total prev [] = total
chain total prev (at ∷ ats) =
    chain
      (if not (prev == 0) && (ltb prev at && ltb (at - prev) gap)
        then total + (at - prev)
        else total)
      at ats

unfoldable pub sightings : World → String → Stamp → List Event → List ℕ
sightings w device_id start events =
    map (λ (e : Event). e.at.instant)
      (order_by (earlier_first w) (
        where_
          (λ (e : Event).
            e.device_id == device_id && (e.kind == kind_device_seen && not_before w start e))
          events))

unfoldable pub usage : World → String → Stamp → List Event → ℕ
unfolding chain sightings
usage w device_id start events = chain 0 0 (sightings w device_id start events)

-- UsageSince
unfoldable pub usage_since : World → String → Stamp → M ℕ
unfolding usage
usage_since w device_id start = query w (λ t. usage w device_id start t.events)
