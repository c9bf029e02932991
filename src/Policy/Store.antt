-- ===== src/Policy/Store.antt =====
-- internal/policy/store.go: the policies of people and the overrides of devices, as JSON texts.
pub mod RoundTrip
use safe_play_guardian.Prelude.{
  ◌==◌, string_eq, String, Bool, true, false, not, any, Option, none, some, List, [], ◌∷◌,
  if◌then◌else◌,
}
use safe_play_guardian.Device.Rows.{where_, has_device, has_person}
use safe_play_guardian.Policy.Model.{Policy, Override}
use safe_play_guardian.Store.Tables.{DataRow, Tables}
use safe_play_guardian.Store.Exec.{World, Result, Db, M, ◌>>=◌, return, raise, query, exec, decode}

-- json.Marshal and json.Unmarshal at one type; `none` is an error. Marshal does not fail on these
-- types.
pub record Codec (A : Type 0) : Type 0 where
  pub marshal : A → String
  pub unmarshal : String → Option A

-- SELECT data ... WHERE key = ?
unfoldable pub find_row : String → List DataRow → Option String
find_row key [] = none
find_row key (r ∷ rows) = if r.key == key then some r.json else find_row key rows

-- INSERT ... ON CONFLICT(key) DO UPDATE SET data = excluded.data
unfoldable pub put_row : String → String → List DataRow → List DataRow
put_row key json [] = record { key = key; json = json } ∷ []
put_row key json (r ∷ rows) =
    if r.key == key then record { key = key; json = json } ∷ rows else r ∷ put_row key json rows

-- DELETE ... WHERE key = ?
unfoldable pub delete_row : String → List DataRow → List DataRow
delete_row key [] = []
delete_row key (r ∷ rows) = if r.key == key then delete_row key rows else r ∷ delete_row key rows

-- The statements of SetPersonPolicy: a nil policy deletes the row.
unfoldable pub write_policy : Codec Policy → String → Option Policy → Tables → Option Tables
unfolding put_row delete_row
write_policy c id none t = some (record t { policies = delete_row id t.policies })
write_policy c id (some p) t =
    if has_person t.people (some id)
    then some (record t { policies = put_row id (c.marshal p) t.policies })
    else none

-- The statements of SetDeviceOverride.
unfoldable pub write_override : Codec Override → String → Option Override → Tables → Option Tables
unfolding put_row delete_row
write_override c id none t = some (record t { device_overrides = delete_row id t.device_overrides })
write_override c id (some o) t =
    if has_device t.devices id
    then some (record t { device_overrides = put_row id (c.marshal o) t.device_overrides })
    else none

-- No row is the nil pointer; a text that does not decode is an error.
unfoldable pub decoded : {A : Type 0} → Codec A → Option String → M (Option A)
decoded c none = return none
decoded c (some raw) = elim (c.unmarshal raw) [ none ↦ raise decode | some a ↦ return (some a) ]

module _ (w : World) where
  -- GetPersonPolicy
  unfoldable pub get_person_policy : Codec Policy → String → M (Option Policy)
  unfolding find_row decoded
  get_person_policy c id = query w (λ t. find_row id t.policies) >>= decoded c

  -- SetPersonPolicy
  unfoldable pub set_person_policy : Codec Policy → String → Option Policy → M (Unit {0})
  unfolding write_policy
  set_person_policy c id p = exec w (write_policy c id p)

  -- GetDeviceOverride
  unfoldable pub get_device_override : Codec Override → String → M (Option Override)
  unfolding find_row decoded
  get_device_override c id = query w (λ t. find_row id t.device_overrides) >>= decoded c

  -- SetDeviceOverride
  unfoldable pub set_device_override : Codec Override → String → Option Override → M (Unit {0})
  unfolding write_override
  set_device_override c id o = exec w (write_override c id o)
