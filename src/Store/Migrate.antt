-- ===== src/Store/Migrate.antt =====
-- internal/store/migrate.go: the runner of the migration scripts.
pub mod Order
pub mod Startup
pub mod Again
use safe_play_guardian.Prelude.{
  ℕ, ◌+◌, String, Bool, false, not, ◌==◌, string_eq, ◌&&◌, Option, none, some, List, [], ◌∷◌, ◌++◌,
  map, any, has_suffix, if◌then◌else◌,
}
use safe_play_guardian.Device.Rows.{text_le, order_by, where_}

pub record Entry : Type 0 where
  pub name : String
  pub is_dir : Bool

-- The embedded file system.
pub record Files : Type 0 where
  pub read_dir : Option (List Entry)
  pub read_file : String → Option String

pub data MigrateError : Type 0 where
  create_migrations : MigrateError
  read_migrations_dir : MigrateError
  query_migrations : MigrateError
  read_script : String → MigrateError
  begin_tx : String → MigrateError
  apply_script : String → MigrateError
  record_script : String → MigrateError
  commit_tx : String → MigrateError

-- The database: the schema and its rows, the names in _migrations, which is `none` before the table
-- is there, and the number of calls made.
pub record Site (S : Type 0) : Type 0 where
  pub tick : ℕ
  pub schema : S
  pub recorded : Option (List String)

-- nil, or the error that Migrate returns.
abbrev pub Outcome : Type 0 → Type 0
Outcome S = Option MigrateError × Site S

abbrev pub called : {S : Type 0} → Site S → Site S
called s = record s { tick = s.tick + 1 }

unfoldable pub contains_name : String → List String → Bool
contains_name name names = any (λ n. n == name) names

-- INSERT INTO _migrations(name): the name is the primary key, and the table must be there.
unfoldable pub insert_name : String → Option (List String) → Option (List String)
unfolding contains_name
insert_name name none = none
insert_name name (some names) = if contains_name name names then none else some (names ++ name ∷ [])

-- CREATE TABLE IF NOT EXISTS
abbrev pub created : Option (List String) → Option (List String)
created none = some []
created (some names) = some names

-- The scripts of a directory in lexical order.
unfoldable pub script_names : List Entry → List String
unfolding order_by where_ has_suffix
script_names entries = order_by text_le (
    map (λ (e : Entry). e.name)
      (where_ (λ (e : Entry). not e.is_dir && has_suffix e.name ".sql") entries))

-- `fails` says which call fails; `run` is what the database does with a script.
module _ {S : Type 0} (fails : ℕ → Bool) (files : Files) (run : String → S → Option S) where
  -- Commit, and the transaction's writes.
  unfoldable pub commit : String → S → List String → Site S → Outcome S
  commit name sc names s =
      if fails s.tick
      then (some (commit_tx name), called s)
      else (none, record { tick = s.tick + 1; schema = sc; recorded = some names })

  -- The record of a script that ran.
  unfoldable pub note_script : String → S → Site S → Outcome S
  unfolding commit insert_name
  note_script name sc s =
      if fails s.tick
      then (some (record_script name), called s)
      else elim (insert_name name s.recorded) [
        | none ↦ (some (record_script name), called s)
        | some names ↦ commit name sc names (called s)
      ]

  unfoldable pub exec_script : String → String → Site S → Outcome S
  unfolding note_script
  exec_script name body s =
      if fails s.tick then (some (apply_script name), called s) else elim (run body s.schema) [
        | none ↦ (some (apply_script name), called s)
        | some sc ↦ note_script name sc (called s)
      ]

  -- One pass of Migrate's loop, for a name that is not recorded.
  unfoldable pub migrate_file : String → Site S → Outcome S
  unfolding exec_script
  migrate_file name s = elim (files.read_file name) [
    | none ↦ (some (read_script name), s)
    | some body ↦
        if fails s.tick then (some (begin_tx name), called s) else exec_script name body (called s)
  ]

  abbrev pub and_next : Outcome S → (Site S → Outcome S) → Outcome S
  and_next (none, s) k = k s
  and_next (some e, s) k = (some e, s)

  -- The loop over the files.
  unfoldable pub migrate_files : List String → List String → Site S → Outcome S
  unfolding migrate_file contains_name
  migrate_files applied [] s = (none, s)
  migrate_files applied (name ∷ names) s =
      let rest = migrate_files applied names in
      if contains_name name applied then rest s else and_next (migrate_file name s) rest

  -- loadApplied, and the loop.
  unfoldable pub load_and_migrate : List String → Site S → Outcome S
  unfolding migrate_files
  load_and_migrate names s =
      if fails s.tick then (some query_migrations, called s) else elim s.recorded [
        | none ↦ (some query_migrations, called s)
        | some applied ↦ migrate_files applied names (called s)
      ]

  abbrev pub listed : Option (List Entry) → Site S → Outcome S
  listed none s = (some read_migrations_dir, s)
  listed (some entries) s = load_and_migrate (script_names entries) s

  -- Migrate
  unfoldable pub migrate : Site S → Outcome S
  unfolding load_and_migrate script_names
  migrate s =
      if fails s.tick
      then (some create_migrations, called s)
      else listed files.read_dir (record s { tick = s.tick + 1; recorded = created s.recorded })
