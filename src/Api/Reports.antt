-- ===== src/Api/Reports.antt =====
-- internal/api/reports.go: the list of recent events, and the report of blocks.
pub mod Listed
use safe_play_guardian.Prelude.{
  ℕ, utc_stamp, ◌-◌, ◌^◌, ltb, ℤ, pos, negsuc, String, Bool, true, false, not, ◌||◌, ◌==◌,
  string_eq, nat_eq, Option, none, some, List, [], ◌∷◌, atoi, if◌then◌else◌,
}
use safe_play_guardian.Event.Model.{Event, Kind}
use safe_play_guardian.Event.Log.{RecentFilter, recent}
use safe_play_guardian.Event.Blocks.{BlockRow, top_blocks}
use safe_play_guardian.Store.Exec.{World}
use safe_play_guardian.Api.Reply.{Reply, write_json, write_error, Handler, finish, attempt}

-- The query of a request: the empty text for a key that is not there.
pub record EventsQuery : Type 0 where
  pub device_id : String
  pub person_id : String
  pub kind : String
  pub limit : String

-- strconv.Atoi with its error dropped: 0 for a text that is no number, and the end of the range of
-- an int for a number beyond it.
abbrev clamped : Option ℤ → ℤ
clamped none = pos 0
clamped (some (pos n)) = pos (if ltb n (2 ^ 63) then n else 2 ^ 63 - 1)
clamped (some (negsuc n)) = negsuc (if ltb n (2 ^ 63) then n else 2 ^ 63 - 1)

unfoldable pub int_of : String → ℤ
unfolding atoi
int_of s = clamped (atoi s)

abbrev within : ℕ → ℕ
within n = if n == 0 || ltb 500 n then 100 else n

abbrev limit_within : ℤ → ℕ
limit_within (pos n) = within n
limit_within (negsuc n) = 100

unfoldable pub event_limit : String → ℕ
unfolding int_of
event_limit s = limit_within (int_of s)

unfoldable pub events_filter : EventsQuery → RecentFilter
unfolding event_limit
events_filter q = record {
  device_id = q.device_id;
  person_id = q.person_id;
  kinds = if q.kind == "" then [] else q.kind ∷ [];
  since = utc_stamp 0;
  limit = event_limit q.limit;
}

-- Events
unfoldable pub list_events : World → EventsQuery → Handler (Reply (List Event))
unfolding events_filter
list_events w q =
    attempt (recent w (events_filter q)) (λ _. write_error 500 "events")
      (λ events. finish (write_json 200 events))

-- Blocks, of the texts of the days and the limit.
unfoldable pub list_blocks :
    (String → String) → World → String → String → Handler (Reply (List BlockRow))
unfolding int_of
list_blocks extract w days limit =
    attempt (top_blocks extract w (int_of days) (int_of limit)) (λ _. write_error 500 "blocks")
      (λ rows. finish (write_json 200 rows))
