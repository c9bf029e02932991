-- ===== src/Policy/Store/RoundTrip.antt =====
-- A policy that is set is read back, and no other person's changes.
use safe_play_guardian.Prelude.{
  ℕ, ◌≡◌, ◌≢◌, refl, ap, ◌∙◌, ◌==◌, string_eq, eq_iff, eq_refl, String, true, false, Option, none,
  some, List, [], ◌∷◌, if◌then◌else◌, arith,
}
use safe_play_guardian.Device.Rows.{has_person}
use safe_play_guardian.Policy.Model.{Policy}
use safe_play_guardian.Policy.Store.{
  Codec, find_row, put_row, delete_row, write_policy, decoded, get_person_policy, set_person_policy,
}
use safe_play_guardian.Store.Tables.{DataRow, Tables}
use safe_play_guardian.Store.Exec.{World, Result, ok, err, Db, ◌>>◌, query}
use safe_play_guardian.Store.Runs.{Done, bind_result-Done, exec-Done}

pub find_row-put_row :
    (k key json : String) (rows : List DataRow)
    → find_row k (put_row key json rows) ≡ (if key == k then some json else find_row k rows)
unfolding find_row put_row
find_row-put_row k key json [] = ground arith
find_row-put_row k key json (r ∷ rows) =
    ground (arith, find_row-put_row k key json rows, eq_iff r.key key, eq_iff r.key k, eq_iff key k)

find_row-delete_row :
    (k key : String) (rows : List DataRow)
    → find_row k (delete_row key rows) ≡ (if key == k then none else find_row k rows)
unfolding find_row delete_row
find_row-delete_row k key [] = ground arith
find_row-delete_row k key (r ∷ rows) =
    ground (arith, find_row-delete_row k key rows, eq_iff r.key key, eq_iff r.key k, eq_iff key k)

abbrev text_of : Codec Policy → Option Policy → Option String
text_of c none = none
text_of c (some p) = some (c.marshal p)

-- The person's row holds the text, if any, and the other rows are those of before.
abbrev Holds : String → Option String → Tables → Tables → Type 0
Holds id text before t =
    (find_row id t.policies ≡ text)
    × ((other : String) → other ≢ id → find_row other t.policies ≡ find_row other before.policies)

-- The answer is the policy, and the other people's rows are those of before.
abbrev pub ReadsBack : String → Option Policy → Tables → Option Policy → Tables → Type 0
ReadsBack id p before a t =
    (a ≡ p)
    × ((other : String) → other ≢ id → find_row other t.policies ≡ find_row other before.policies)

write_policy-Holds :
    (c : Codec Policy) (id : String) (p : Option Policy) (t : Tables)
    → has_person t.people (some id) ≡ true
    → (u : Tables) × (write_policy c id p t ≡ some u) × Holds id (text_of c p) t u
unfolding write_policy
write_policy-Holds c id none t h = (
  record t { policies = delete_row id t.policies },
  refl,
  (
    ground (arith, find_row-delete_row id id t.policies, eq_refl id),
    λ other d. ground (arith, find_row-delete_row other id t.policies, eq_iff id other),
  ),
)
write_policy-Holds c id (some p) t h = (
  record t { policies = put_row id (c.marshal p) t.policies },
  rw h refl,
  (
    ground (arith, find_row-put_row id id (c.marshal p) t.policies, eq_refl id),
    λ other d. ground (arith, find_row-put_row other id (c.marshal p) t.policies, eq_iff id other),
  ),
)

decoded-Done :
    (c : Codec Policy) (p : Option Policy) (s : Db)
    → ((q : Policy) → p ≡ some q → c.unmarshal (c.marshal q) ≡ some q)
    → Done (λ a t. (a ≡ p) × (t ≡ s.tables)) (decoded c (text_of c p) s)
unfolding decoded
decoded-Done c none s law = (refl, refl)
decoded-Done c (some q) s law = rw (law q refl) (refl, refl)

carried :
    (id : String) (p : Option Policy) (before : Tables) (u : Db)
    → ((other : String)
        → other ≢ id
        → find_row other u.tables.policies ≡ find_row other before.policies)
    → (r : Result (Option Policy) × Db) → Done (λ a t. (a ≡ p) × (t ≡ u.tables)) r
    → Done (ReadsBack id p before) r
carried id p before u others (err e, v) h = absurd h
carried id p before u others (ok a, v) (e, same) =
    (e, λ other d. ap (λ (t : Tables). find_row other t.policies) same ∙ others other d)

module _ (w : World) (faultless : (n : ℕ) → w.fails n ≡ false) (c : Codec Policy) where
  get_person_policy-Done :
      (id : String) (p : Option Policy) (s : Db)
      → ((q : Policy) → p ≡ some q → c.unmarshal (c.marshal q) ≡ some q)
      → find_row id s.tables.policies ≡ text_of c p
      → Done (λ a t. (a ≡ p) × (t ≡ s.tables)) (get_person_policy w c id s)
  unfolding get_person_policy query
  get_person_policy-Done id p s law e = rw (faultless s.tick, e) (decoded-Done c p _ law)

  -- Where no statement fails, the person is there, and the JSON of the policy decodes to the
  -- policy, GetPersonPolicy after SetPersonPolicy answers with the policy that was set, or with
  -- none where none was set, and the row of every other person is as before.
  pub set_person_policy-get_person_policy :
      (id : String) (p : Option Policy) (s : Db)
      → ((q : Policy) → p ≡ some q → c.unmarshal (c.marshal q) ≡ some q)
      → has_person s.tables.people (some id) ≡ true
      → Done (ReadsBack id p s.tables) ((set_person_policy w c id p >> get_person_policy w c id) s)
  unfolding set_person_policy
  set_person_policy-get_person_policy id p s law h =
      bind_result-Done (λ _. Holds id (text_of c p) s.tables) (ReadsBack id p s.tables)
        (set_person_policy w c id p s) (λ _. get_person_policy w c id)
        (exec-Done w faultless (write_policy c id p) (Holds id (text_of c p) s.tables) s
          (write_policy-Holds c id p s.tables h))
        (λ _ u (e, others).
          carried id p s.tables u others (get_person_policy w c id u)
            (get_person_policy-Done id p u law e))
