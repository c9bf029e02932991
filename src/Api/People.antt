-- ===== src/Api/People.antt =====
-- internal/api/people.go: the people's handlers.
use safe_play_guardian.Prelude.{String, Option, none, some, List}
use safe_play_guardian.Person
use safe_play_guardian.Person.{Person}
use safe_play_guardian.Store.Exec.{World, Error, person_not_found}
use safe_play_guardian.Api.Reply.{Reply, write_json, write_error, Handler, finish, attempt}

abbrev get_failure : Error → Reply Person
get_failure person_not_found = write_error 404 "person not found"
get_failure e = write_error 500 "get person"

-- The texts of errors are a parameter; a request body is `none` if it does not decode.
module _ (w : World) (message : Error → String) where
  -- List
  unfoldable pub list_people : Handler (Reply (List Person))
  list_people =
      attempt (Person.list w) (λ _. write_error 500 "list people")
        (λ people. finish (write_json 200 people))

  abbrev create_named_in : Option String → Handler (Reply Person)
  create_named_in none = finish (write_error 400 "invalid JSON body")
  create_named_in (some name) =
      attempt (Person.create w name) (λ e. write_error 400 (message e))
        (λ p. finish (write_json 201 p))

  -- Create
  unfoldable pub create_person : Option String → Handler (Reply Person)
  create_person body = create_named_in body

  -- Get
  unfoldable pub get_person : String → Handler (Reply Person)
  get_person id = attempt (Person.get w id) get_failure (λ p. finish (write_json 200 p))
