-- ===== src/Event/Blocks/Counted.antt =====
-- The report of blocks counts every block event of the window.
use safe_play_guardian.Prelude.{
  ℕ, Stamp, utc_stamp, ◌+◌, ◌-◌, ◌*◌, ◌≤◌, ℤ, pos, nat_eq, string_eq, ◌==◌, String, Bool, true,
  ◌&&◌, ◌≡◌, ◌⊎◌, List,
}
use safe_play_guardian.Event.Model.{Event}
use safe_play_guardian.Event.Blocks.{BlockRow}
use safe_play_guardian.Device.Rows.{text_le, where_}
use safe_play_guardian.Store.Exec.{World, Result, ok, err, database, Db}
use safe_play_guardian.Event.Blocks.Tallies.{Counts}

-- A positive number counts; any other stands for the default.
abbrev pub Chosen : ℕ → ℤ → ℕ → Type 0
Chosen default x n = ((x ≡ pos n) × (1 ≤ n)) ⊎ ((n ≡ default) × ((m : ℕ) → x ≡ pos m → m ≡ 0))

-- The blocks whose stored text is not below that of the window's start.
abbrev pub in_window : World → Stamp → Event → Bool
in_window w since e = e.kind == "block" && text_le (w.time_text since) (w.time_text e.at)

-- The answer, and the tables it leaves.
abbrev pub Reported : (String → String) → World → ℕ → ℕ → Db → Result (List BlockRow) × Db → Type 0
Reported extract w d n s p =
    (p.1.tables ≡ s.tables)
    × (((w.fails (s.tick + 1) ≡ true) × (p.0 ≡ err database))
        ⊎ ((rows : List BlockRow) × (p.0 ≡ ok rows)
            × Counts extract n
                (where_ (in_window w (utc_stamp (w.now s.tick - d * 86_400_000_000_000)))
                  s.tables.events)
                rows))
