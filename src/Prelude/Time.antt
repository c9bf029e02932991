-- ===== src/Prelude/Time.antt =====
-- Package time's Time, as the program uses it.
use Prim.Native.Nat.{ℕ}
use Prim.Native.String.{String}

-- The instant, in nanoseconds since Go's zero time, and the zone that the value carries.
pub record Stamp : Type 0 where
  pub instant : ℕ
  pub zone : String

-- t.UTC()
abbrev pub utc_stamp : ℕ → Stamp
utc_stamp n = record { instant = n; zone = "UTC" }
