-- ===== src/Store/Migrate/Order.antt =====
-- Migrate runs the scripts that are not recorded, in their order, and stops at the first error.
use safe_play_guardian.Prelude.{
  ℕ, ◌≡◌, refl, ap, String, Bool, true, false, not, Bool-cases, inl, inr, Option, none, some, arith,
  List, [], ◌∷◌, ◌++◌, if◌then◌else◌,
}
use safe_play_guardian.Device.Rows.{where_}
use safe_play_guardian.Store.Migrate.{
  Files, MigrateError, read_script, begin_tx, apply_script, record_script, commit_tx, Site, Outcome,
  called, contains_name, insert_name, commit, note_script, exec_script, migrate_file, and_next,
  migrate_files,
}

-- The script that an error names.
abbrev pub blames : MigrateError → Option String
blames (read_script n) = some n
blames (begin_tx n) = some n
blames (apply_script n) = some n
blames (record_script n) = some n
blames (commit_tx n) = some n
blames e = none

-- The names that are not among the recorded ones.
abbrev pub pending : List String → List String → List String
pending applied names = where_ (λ n. not (contains_name n applied)) names

-- What the database holds: the schema and its rows, and the recorded names.
abbrev pub Holds : {S : Type 0} → Site S → S → List String → Type 0
Holds s sc names = (s.schema ≡ sc) × (s.recorded ≡ some names)

module _ {S : Type 0} (fails : ℕ → Bool) (files : Files) (run : String → S → Option S) where
  -- Each script ran on what the one before it left, and was recorded with it.
  pub data Ran : S → List String → List String → Site S → Type 0 where
    none_ran : {sc : S} {names : List String} {s : Site S} → Holds s sc names → Ran sc names [] s
    one_ran :
        {sc sc' : S} {names names' : List String} {n body : String} {ns : List String} {s : Site S}
        → files.read_file n ≡ some body
        → run body sc ≡ some sc'
        → insert_name n (some names) ≡ some names'
        → Ran sc' names' ns s
        → Ran sc names (n ∷ ns) s

  -- Why a script does not go through where no call fails: it cannot be read, the database refuses
  -- it, or its name is recorded.
  pub data Blocked (n : String) (s : Site S) : Type 0 where
    unreadable : files.read_file n ≡ none → Blocked n s
    refused :
        (body : String) → files.read_file n ≡ some body → run body s.schema ≡ none → Blocked n s
    recorded : insert_name n s.recorded ≡ none → Blocked n s

  abbrev pub Cause : String → Site S → Type 0
  Cause n s = ((k : ℕ) → fails k ≡ false) → Blocked n s

  -- Of these scripts some first ones ran, and an error names the next one.
  abbrev pub RanSome : S → List String → List String → Outcome S → Type 0
  RanSome sc names ns (none, s) = Ran sc names ns s
  RanSome sc names ns (some e, s) =
      (done : List String) × (n : String) × (rest : List String) × (ns ≡ done ++ n ∷ rest)
      × (blames e ≡ some n)
      × Ran sc names done s
      × Cause n s

  -- One script either runs and is recorded, or the database is as it was.
  abbrev RanOne : S → List String → String → Outcome S → Type 0
  RanOne sc names n (none, s) =
      (body : String) × (sc' : S) × (names' : List String) × (files.read_file n ≡ some body)
      × (run body sc ≡ some sc')
      × (insert_name n (some names) ≡ some names')
      × Holds s sc' names'
  RanOne sc names n (some e, s) = (blames e ≡ some n) × Holds s sc names × Cause n s

  pub faulty : {P : Type 0} (k : ℕ) → fails k ≡ true → ((j : ℕ) → fails j ≡ false) → P
  faulty k e calm = let q = calm k in ground arith

  module _ (n : String) (sc : S) (names : List String) where
    commit-RanOne :
        (body : String) (sc' : S) (names' : List String) (s : Site S)
        → files.read_file n ≡ some body
        → run body sc ≡ some sc'
        → insert_name n (some names) ≡ some names'
        → Holds s sc names
        → RanOne sc names n (commit fails files run n sc' names' s)
    unfolding commit
    commit-RanOne body sc' names' s f r i h = elim (Bool-cases (fails s.tick)) [
      | inl e ↦ rw e (refl, h, faulty s.tick e)
      | inr e ↦ rw e (body, sc', names', f, r, i, (refl, refl))
    ]

    note_script-RanOne :
        (body : String) (sc' : S) (s : Site S)
        → files.read_file n ≡ some body
        → run body sc ≡ some sc'
        → Holds s sc names
        → RanOne sc names n (note_script fails files run n sc' s)
    unfolding note_script
    note_script-RanOne body sc' s f r h = elim (Bool-cases (fails s.tick)) [
      | inl e ↦ rw e (refl, h, faulty s.tick e)
      | inr e ↦ rw (e, h.1) (noted (insert_name n (some names)) refl)
    ]
      where
        noted :
            (o : Option (List String))
            → insert_name n (some names) ≡ o
            → RanOne sc names n (elim o [
              | none ↦ (some (record_script n), called s)
              | some names' ↦ commit fails files run n sc' names' (called s)
            ])
        noted none i = (refl, h, λ calm. recorded (rw h.1 i))
        noted (some names') i = commit-RanOne body sc' names' (called s) f r i h

    exec_script-RanOne :
        (body : String) (s : Site S)
        → files.read_file n ≡ some body
        → Holds s sc names
        → RanOne sc names n (exec_script fails files run n body s)
    unfolding exec_script
    exec_script-RanOne body s f h = elim (Bool-cases (fails s.tick)) [
      | inl e ↦ rw e (refl, h, faulty s.tick e)
      | inr e ↦ rw (e, h.0) (executed (run body sc) refl)
    ]
      where
        executed :
            (o : Option S)
            → run body sc ≡ o
            → RanOne sc names n (elim o [
              | none ↦ (some (apply_script n), called s)
              | some sc' ↦ note_script fails files run n sc' (called s)
            ])
        executed none r = (refl, h, λ calm. refused body f (rw h.0 r))
        executed (some sc') r = note_script-RanOne body sc' (called s) f r h

    migrate_file-RanOne :
        (s : Site S) → Holds s sc names → RanOne sc names n (migrate_file fails files run n s)
    unfolding migrate_file
    migrate_file-RanOne s h = read (files.read_file n) refl
      where
        read :
            (o : Option String)
            → files.read_file n ≡ o
            → RanOne sc names n (elim o [
              | none ↦ (some (read_script n), s)
              | some body ↦
                  if fails s.tick
                  then (some (begin_tx n), called s)
                  else exec_script fails files run n body (called s)
            ])
        read none f = (refl, h, λ calm. unreadable f)
        read (some body) f = elim (Bool-cases (fails s.tick)) [
          | inl e ↦ rw e (refl, h, faulty s.tick e)
          | inr e ↦ rw e (exec_script-RanOne body (called s) f h)
        ]

  -- The scripts that ran, after one more.
  ran_first :
      (sc sc' : S) (names names' : List String) (n body : String) (ns : List String) (o : Outcome S)
      → files.read_file n ≡ some body
      → run body sc ≡ some sc'
      → insert_name n (some names) ≡ some names'
      → RanSome sc' names' ns o
      → RanSome sc names (n ∷ ns) o
  ran_first sc sc' names names' n body ns (none, s) f r i h = one_ran f r i h
  ran_first sc sc' names names' n body ns (some e, s) f r i (done, m, rest, q, b, h, c) =
      (n ∷ done, m, rest, ap (λ l. n ∷ l) q, b, one_ran f r i h, c)

  and_next-RanSome :
      (sc : S) (names : List String) (n : String) (ns : List String) (o : Outcome S)
      (k : Site S → Outcome S)
      → RanOne sc names n o
      → ((sc' : S) (names' : List String) (s : Site S)
          → Holds s sc' names'
          → RanSome sc' names' ns (k s))
      → RanSome sc names (n ∷ ns) (and_next fails files run o k)
  and_next-RanSome sc names n ns (none, s) k (body, sc', names', f, r, i, h) g =
      ran_first sc sc' names names' n body ns (k s) f r i (g sc' names' s h)
  and_next-RanSome sc names n ns (some e, s) k (b, h, c) g = ([], n, ns, refl, b, none_ran h, c)

  -- The loop runs the names that are not among the applied ones.
  pub migrate_files-RanSome :
      (applied ns : List String) (sc : S) (names : List String) (s : Site S)
      → Holds s sc names
      → RanSome sc names (pending applied ns) (migrate_files fails files run applied ns s)
  unfolding migrate_files where_
  migrate_files-RanSome applied [] sc names s h = none_ran h
  migrate_files-RanSome applied (n ∷ ns) sc names s h =
      elim (Bool-cases (contains_name n applied)) [
        | inl e ↦ rw e (migrate_files-RanSome applied ns sc names s h)
        | inr e ↦ rw e (
            and_next-RanSome sc names n (pending applied ns) (migrate_file fails files run n s)
              (migrate_files fails files run applied ns) (migrate_file-RanOne n sc names s h)
              (λ sc' names' s' h'. migrate_files-RanSome applied ns sc' names' s' h'))
      ]
