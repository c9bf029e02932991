-- ===== src/Store/Migrate/Again.antt =====
-- The run of Migrate after one that returned nil.
use safe_play_guardian.Prelude.{
  ℕ, ◌+◌, ◌≡◌, refl, ◌∙◌, subst, String, Bool, true, false, not, ◌==◌, string_eq, Bool-cases, inl,
  inr, Option, none, some, arith, List, [], ◌∷◌, ◌++◌, if◌then◌else◌, eq_refl,
}
use safe_play_guardian.Device.Rows.{where_}
use safe_play_guardian.Store.Migrate.{
  Entry, Files, Site, Outcome, created, contains_name, insert_name, script_names, load_and_migrate,
  migrate_files, migrate,
}
use safe_play_guardian.Store.Migrate.Order.{pending, Ran, none_ran, one_ran, faulty}
use safe_play_guardian.Store.Migrate.Startup.{names_of, Migrated, migrate-Migrated}

-- Each of these names is recorded.
unfoldable pub AllRecorded : List String → List String → Type 0
AllRecorded names [] = Unit
AllRecorded names (n ∷ ns) = (contains_name n names ≡ true) × AllRecorded names ns

-- No name is lost.
abbrev pub Extends : List String → List String → Type 0
Extends names names' = (x : String) → contains_name x names ≡ true → contains_name x names' ≡ true

append-Extends : (n : String) (names : List String) → Extends names (names ++ n ∷ [])
unfolding contains_name
append-Extends n [] x h = cc
append-Extends n (m ∷ names) x h = elim (Bool-cases (m == x)) [
  | inl e ↦ ground arith
  | inr e ↦ let rest = append-Extends n names x (ground arith) in ground arith
]

append-contains : (n : String) (names : List String) → contains_name n (names ++ n ∷ []) ≡ true
unfolding contains_name
append-contains n [] = ground (arith, eq_refl n)
append-contains n (m ∷ names) = let rest = append-contains n names in ground arith

insert_name-Extends :
    (n : String) (names names' : List String)
    → insert_name n (some names) ≡ some names'
    → Extends names names' × (contains_name n names' ≡ true)
unfolding insert_name
insert_name-Extends n names names' h = elim (Bool-cases (contains_name n names)) [
  | inl e ↦ ground arith
  | inr e ↦
      let q : names ++ n ∷ [] ≡ names' = ground arith in
      subst (λ l. Extends names l × (contains_name n l ≡ true)) q
        (append-Extends n names, append-contains n names)
]

-- A loop over recorded names runs nothing.
migrate_files-idle :
    {S : Type 0} (fails : ℕ → Bool) (files : Files) (run : String → S → Option S)
    (names ns : List String) (s : Site S)
    → AllRecorded names ns
    → migrate_files fails files run names ns s ≡ (none, s)
unfolding migrate_files AllRecorded
migrate_files-idle fails files run names [] s h = refl
migrate_files-idle fails files run names (n ∷ ns) s (e, h) =
    rw e (migrate_files-idle fails files run names ns s h)

-- With the names that were not recorded before, all names are.
pending-AllRecorded :
    (applied names ns : List String)
    → Extends applied names
    → AllRecorded names (pending applied ns)
    → AllRecorded names ns
unfolding where_ AllRecorded
pending-AllRecorded applied names [] x h = tt
pending-AllRecorded applied names (n ∷ ns) x h = elim (Bool-cases (contains_name n applied)) [
  | inl e ↦ (x n e, pending-AllRecorded applied names ns x (use_eq e h))
  | inr e ↦ let k = use_eq e h in (k.0, pending-AllRecorded applied names ns x k.1)
]
  where
    use_eq :
        {b : Bool}
        → contains_name n applied ≡ b
        → AllRecorded names
            (if not (contains_name n applied) then n ∷ pending applied ns else pending applied ns)
        → AllRecorded names (if not b then n ∷ pending applied ns else pending applied ns)
    use_eq e k =
        subst
          (λ c. AllRecorded names (if not c then n ∷ pending applied ns else pending applied ns)) e
          k

module _ {S : Type 0} (files : Files) (run : String → S → Option S) where
  -- What ran is recorded, and so is what was recorded before.
  abbrev Recorded : List String → List String → Option (List String) → Type 0
  Recorded names ns o =
      (o ≡ some (names_of o)) × Extends names (names_of o) × AllRecorded (names_of o) ns

  Ran-records :
      (fails : ℕ → Bool) (sc : S) (names ns : List String) (s : Site S)
      → Ran fails files run sc names ns s
      → Recorded names ns s.recorded
  unfolding AllRecorded
  Ran-records fails sc names ns s (none_ran h) = rw h.1 (refl, λ x k. k, tt)
  Ran-records fails sc names ns s
        (one_ran {sc' = sc'} {names' = names'} {n = n} {ns = ns'} f r i k) =
      let (q, x, a) = Ran-records fails sc' names' ns' s k in
      let (y, c) = insert_name-Extends n names names' i in (q, (λ z l. x z (y z l)), (x n c, a))

  -- After a run that returned nil every script of the directory is recorded.
  AllDone : Site S → Type 0
  AllDone s =
      (entries : List Entry) × (files.read_dir ≡ some entries)
      × (s.recorded ≡ some (names_of s.recorded))
      × AllRecorded (names_of s.recorded) (script_names entries)

  Migrated-AllDone :
      (fails : ℕ → Bool) (s s' : Site S) → Migrated fails files run s (none, s') → AllDone s'
  unfolding AllDone
  Migrated-AllDone fails s s' (entries, d, h) =
      let (q, x, a) =
        Ran-records fails s.schema (names_of s.recorded)
          (pending (names_of s.recorded) (script_names entries)) s' h in
      (
        entries,
        d,
        q,
        pending-AllRecorded (names_of s.recorded) (names_of s'.recorded) (script_names entries) x a,
      )

  -- Nothing changed; and where no call fails, the answer is nil.
  abbrev pub Idle : (ℕ → Bool) → Site S → Outcome S → Type 0
  Idle fails s p =
      (p.1.schema ≡ s.schema)
      × (p.1.recorded ≡ s.recorded)
      × (((k : ℕ) → fails k ≡ false) → p.0 ≡ none)

  AllDone-Idle :
      (fails : ℕ → Bool) (s : Site S) → AllDone s → Idle fails s (migrate fails files run s)
  unfolding AllDone migrate load_and_migrate
  AllDone-Idle fails s (entries, d, q, a) =
      let kept : created s.recorded ≡ s.recorded = rw q refl in
      elim (Bool-cases (fails s.tick)) [
        | inl e ↦ rw e (refl, refl, faulty fails files run s.tick e)
        | inr e ↦ elim (Bool-cases (fails (s.tick + 1))) [
          | inl e' ↦ rw (e, d, e') (refl, kept, faulty fails files run (s.tick + 1) e')
          | inr e' ↦
              rw
                (
                  e,
                  d,
                  e',
                  kept,
                  q,
                  migrate_files-idle fails files run (names_of s.recorded) (script_names entries) _
                      a,
                )
                (refl, kept ∙ q, λ calm. refl)
        ]
      ]

  -- Migrate after a run that returned nil, with the same files: whichever calls fail, it changes
  -- neither the schema and its rows nor the recorded names; and where none fails, it returns nil.
  pub migrate-again :
      (fails fails' : ℕ → Bool) (s s' : Site S)
      → migrate fails files run s ≡ (none, s')
      → Idle fails' s' (migrate fails' files run s')
  migrate-again fails fails' s s' h = AllDone-Idle fails' s' (
      Migrated-AllDone fails s s'
        (subst (Migrated fails files run s) h (migrate-Migrated fails files run s)))
