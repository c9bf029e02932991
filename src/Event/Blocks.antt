-- ===== src/Event/Blocks.antt =====
-- internal/event/store.go: TopBlocks, the report of what was blocked.
pub mod Groups
pub mod Tallies
pub mod Counted
use safe_play_guardian.Prelude.{
  ℕ, Stamp, utc_stamp, ◌+◌, ◌-◌, ◌*◌, ◌%◌, ◌^◌, ltb, leb, ℤ, pos, negsuc, nat_eq, string_eq, ◌==◌,
  String, Bool, true, false, ◌&&◌, Option, none, some, List, [], ◌∷◌, if◌then◌else◌,
}
use safe_play_guardian.Event.Model.{Event, Attrs, kind_block}
use safe_play_guardian.Event.Redact.{attr, attrs_of}
use safe_play_guardian.Event.Log.{take, not_before}
use safe_play_guardian.Device.Rows.{where_, order_by}
use safe_play_guardian.Store.Exec.{World, M, ◌>>=◌, clock, query}

pub record BlockRow : Type 0 where
  pub capability : String
  pub value : String
  pub count : ℕ

abbrev pub same_key : String → String → BlockRow → Bool
same_key c v r = r.capability == c && r.value == v

-- One more event of a group.
unfoldable pub tally : String → String → List BlockRow → List BlockRow
tally c v [] = record { capability = c; value = v; count = 1 } ∷ []
tally c v (r ∷ rows) =
    if same_key c v r then record r { count = r.count + 1 } ∷ rows else r ∷ tally c v rows

-- A positive number of the query, or else the default.
abbrev pub positive_or : ℕ → ℤ → ℕ
positive_or d (pos n) = if n == 0 then d else n
positive_or d (negsuc n) = d

-- time.Duration(days) * 24 * time.Hour, negated, as the 64 bits of an int64.
unfoldable pub days_back : ℕ → ℕ
days_back days = (2 ^ 64 - days * 86_400_000_000_000 % 2 ^ 64) % 2 ^ 64

-- t.Add(d), of the bits of d; no time lies before the zero time.
unfoldable pub add_bits : ℕ → ℕ → ℕ
add_bits t bits = if ltb bits (2 ^ 63) then t + bits else t - (2 ^ 64 - bits)

abbrev pub more : BlockRow → BlockRow → Bool
more a b = leb b.count a.count

abbrev pub is_block_since : World → Stamp → Event → Bool
is_block_since w since e = e.kind == kind_block && not_before w since e

-- json_extract of a JSON value, as a text, is a parameter.
module _ (extract : String → String) where
  abbrev pub extracted : Option String → String
  extracted none = ""
  extracted (some json) = extract json

  -- COALESCE(json_extract(attrs, '$.key'), '')
  unfoldable pub column : String → Event → String
  unfolding attr
  column key e = extracted (attr key (attrs_of e.attrs))

  -- GROUP BY capability, value
  unfoldable pub grouped : List Event → List BlockRow
  unfolding column tally
  grouped [] = []
  grouped (e ∷ es) = tally (column "capability" e) (column "value" e) (grouped es)

  -- The SELECT; groups of the same count stand in some order.
  unfoldable pub block_rows : World → Stamp → ℕ → List Event → List BlockRow
  unfolding grouped
  block_rows w since limit events =
      take limit (order_by more (grouped (where_ (is_block_since w since) events)))

  -- TopBlocks
  unfoldable pub top_blocks : World → ℤ → ℤ → M (List BlockRow)
  unfolding block_rows days_back add_bits
  top_blocks w days limit = clock w >>= λ now. query w (λ t.
      block_rows w (utc_stamp (add_bits now (days_back (positive_or 7 days))))
        (positive_or 20 limit) t.events)
