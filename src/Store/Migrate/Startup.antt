-- ===== src/Store/Migrate/Startup.antt =====
-- Migrate as a whole: what one run leaves, and that the next run changes nothing.
use safe_play_guardian.Prelude.{
  ℕ, ◌+◌, ◌≡◌, refl, ap, String, Bool, false, Bool-cases, inl, inr, ◌⊎◌, Option, none, some, List,
  [],
}
use safe_play_guardian.Store.Migrate.{
  Entry, Files, MigrateError, Site, Outcome, called, created, script_names, load_and_migrate,
  listed, migrate_files, migrate,
}
use safe_play_guardian.Store.Migrate.Order.{
  blames, pending, Holds, RanSome, migrate_files-RanSome, faulty,
}

-- The recorded names; none before _migrations is there.
abbrev pub names_of : Option (List String) → List String
names_of none = []
names_of (some names) = names

module _ {S : Type 0} (fails : ℕ → Bool) (files : Files) (run : String → S → Option S) where
  -- Before the loop: nothing was written but the empty table of names, and where no call fails the
  -- directory cannot be read.
  abbrev pub NotStarted : MigrateError → Site S → Site S → Type 0
  NotStarted e s s' =
      (blames e ≡ none)
      × (s'.schema ≡ s.schema)
      × (names_of s'.recorded ≡ names_of s.recorded)
      × (((k : ℕ) → fails k ≡ false) → files.read_dir ≡ none)

  -- The scripts that were not recorded ran in their order, all of them unless an error names one.
  abbrev pub Looped : Site S → Outcome S → Type 0
  Looped s o =
      (entries : List Entry) × (files.read_dir ≡ some entries)
      × RanSome fails files run s.schema (names_of s.recorded)
          (pending (names_of s.recorded) (script_names entries)) o

  abbrev pub Migrated : Site S → Outcome S → Type 0
  Migrated s (none, s') = Looped s (none, s')
  Migrated s (some e, s') = NotStarted e s s' ⊎ Looped s (some e, s')

  Looped-Migrated : (s : Site S) (o : Outcome S) → Looped s o → Migrated s o
  Looped-Migrated s (none, s') h = h
  Looped-Migrated s (some e, s') h = inr h

  load-Migrated :
      (s : Site S) (entries : List Entry) (u : Site S)
      → files.read_dir ≡ some entries
      → Holds u s.schema (names_of s.recorded)
      → Migrated s (load_and_migrate fails files run (script_names entries) u)
  unfolding load_and_migrate
  load-Migrated s entries u d h = elim (Bool-cases (fails u.tick)) [
    | inl e ↦ rw e (inl (refl, h.0, ap names_of h.1, faulty fails files run u.tick e))
    | inr e ↦
        rw (e, h.1)
          (Looped-Migrated s
            (migrate_files fails files run (names_of s.recorded) (script_names entries) (called u))
            (
              entries,
              d,
              migrate_files-RanSome fails files run (names_of s.recorded) (script_names entries)
                  s.schema (names_of s.recorded) (called u) h,
            ))
  ]

  created-some : (o : Option (List String)) → created o ≡ some (names_of o)
  created-some none = refl
  created-some (some names) = refl

  -- Migrate, whichever calls fail: either it stops before the first script, with the schema and
  -- the recorded names as they were, or the scripts of the directory that were not recorded ran in
  -- their order, each recorded with what it did: all of them where it returns nil, and else those
  -- before the script that the error names. Where no call fails, it stops only because the
  -- directory or the script cannot be read, the database refuses the script, or its name is
  -- already recorded.
  pub migrate-Migrated : (s : Site S) → Migrated s (migrate fails files run s)
  unfolding migrate
  migrate-Migrated s = elim (Bool-cases (fails s.tick)) [
    | inl e ↦ rw e (inl (refl, refl, refl, faulty fails files run s.tick e))
    | inr e ↦ rw e (opened files.read_dir refl)
  ]
    where
      start : Site S
      start = record { tick = s.tick + 1; schema = s.schema; recorded = created s.recorded }

      opened :
          (d : Option (List Entry))
          → files.read_dir ≡ d
          → Migrated s (listed fails files run d start)
      opened none q = inl (refl, refl, ap names_of (created-some s.recorded), λ calm. q)
      opened (some entries) q = load-Migrated s entries start q (refl, created-some s.recorded)
