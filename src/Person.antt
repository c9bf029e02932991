-- ===== src/Person.antt =====
-- internal/person/store.go: the people of the household.
use safe_play_guardian.Prelude.{
  ℕ, String, ◌==◌, string_eq, Option, none, some, List, [], ◌∷◌, ◌++◌, map, any, if◌then◌else◌,
  trim_space,
}
use safe_play_guardian.Device.Rows.{first_where, order_by, text_le}
use safe_play_guardian.Store.Tables.{PersonRow, Tables}
use safe_play_guardian.Store.Exec.{
  World, M, ◌>>=◌, return, raise, query, exec, clock, draw, name_required, person_not_found,
}

pub record Person : Type 0 where
  pub id : String
  pub name : String
  pub created_at : ℕ

abbrev pub person_of : PersonRow → Person
person_of r = record { id = r.id; name = r.name; created_at = r.created_at }

-- INSERT INTO people; created_at is CURRENT_TIMESTAMP.
unfoldable pub insert_person : PersonRow → Tables → Option Tables
insert_person p t =
    if any (λ (r : PersonRow). r.id == p.id) t.people
    then none
    else some (record t { people = t.people ++ p ∷ [] })

abbrev pub or_not_found : Option PersonRow → M Person
or_not_found none = raise person_not_found
or_not_found (some r) = return (person_of r)

module _ (w : World) where
  -- Get
  unfoldable pub get : String → M Person
  get id = query w (λ t. first_where (λ (r : PersonRow). r.id == id) t.people) >>= or_not_found

  -- Create once the name is trimmed.
  unfoldable pub create_named : String → M Person
  unfolding get
  create_named name = draw w >>= λ id. clock w >>= λ now.
      exec w (insert_person (record { id = id; name = name; created_at = now })) >>= λ _. get id

  -- Create
  unfoldable pub create : String → M Person
  unfolding create_named
  create name =
      if trim_space name == "" then raise name_required else create_named (trim_space name)

  -- List
  unfoldable pub list : M (List Person)
  list = query w (λ t. order_by (λ (a b : Person). text_le a.name b.name) (map person_of t.people))
