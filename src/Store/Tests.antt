-- ===== src/Store/Tests.antt =====
-- The migrations of a directory with two scripts.
use safe_play_guardian.Prelude.{
  ℕ, ◌≡◌, refl, String, Bool, false, ◌==◌, nat_eq, string_eq, Option, none, some, List, [], ◌∷◌,
  ◌++◌,
}
use safe_play_guardian.Device.Rows.{insert_sorted}
use safe_play_guardian.Store.Migrate.{Files, Site, migrate}
use safe_play_guardian.Store.Migrate.Startup.{Migrated, migrate-Migrated}
use safe_play_guardian.Store.Migrate.Again.{Idle, migrate-again}

abbrev scripts : Files
scripts = record {
  read_dir = some (
      record { name = "002_more.sql"; is_dir = false }
      ∷ record { name = "001_init.sql"; is_dir = false }
      ∷ []);
  read_file = λ name. some name;
}

-- The schema is the list of the scripts that ran.
abbrev run_text : String → List String → Option (List String)
run_text body schema = some (schema ++ body ∷ [])

abbrev nothing_fails : ℕ → Bool
nothing_fails n = false

-- The record of the second script.
abbrev one_fails : ℕ → Bool
one_fails n = n == 8

abbrev new_site : Site (List String)
new_site = record { tick = 0; schema = []; recorded = none }

abbrev migrated_site : Site (List String)
migrated_site = record {
  tick = 10;
  schema = "001_init.sql" ∷ "002_more.sql" ∷ [];
  recorded = some ("001_init.sql" ∷ "002_more.sql" ∷ []);
}

migrate_runs : migrate nothing_fails scripts run_text new_site ≡ (none, migrated_site)
unfolding migrate insert_sorted
migrate_runs = refl

migrate-Migrated_example :
    Migrated one_fails scripts run_text new_site (migrate one_fails scripts run_text new_site)
migrate-Migrated_example = migrate-Migrated one_fails scripts run_text new_site

migrate-again_example :
    Idle scripts run_text one_fails migrated_site (migrate one_fails scripts run_text migrated_site)
migrate-again_example =
    migrate-again scripts run_text nothing_fails one_fails new_site migrated_site migrate_runs
