-- ===== src/Api/Devices.antt =====
-- internal/api/devices.go: the devices' handlers.
pub mod Confined
use safe_play_guardian.Prelude.{
  String, Bool, true, false, ◌||◌, ◌==◌, string_eq, Option, none, some, List, [], ◌∷◌, trim_space,
  if◌then◌else◌,
}
use safe_play_guardian.Device.Model.{
  DeviceState, state_discovered, state_active, state_paused, state_retired, Device,
}
use safe_play_guardian.Device.Registry.{get, list, upsert}
use safe_play_guardian.Store.Exec.{World, Error, device_not_found}
use safe_play_guardian.Api.Reply.{Reply, write_json, write_error, Handler, finish, attempt}

pub record CreateDeviceRequest : Type 0 where
  pub label : String
  pub kind : String
  pub person_id : Option String

pub record PatchDeviceRequest : Type 0 where
  pub label : Option String
  pub kind : Option String
  pub person_id : Option String
  pub state : Option String

-- serverError, without its log line.
abbrev server_error : {A : Type 0} → Error → Reply A
server_error e = write_error 500 "internal error"

abbrev get_failure : Error → Reply Device
get_failure device_not_found = write_error 404 "device not found"
get_failure e = server_error e

-- The device that Create stores, of a label and a kind without the spaces around them.
unfoldable pub new_device : String → String → Option String → Device
new_device label kind person_id = record {
  id = "";
  person_id = person_id;
  label = label;
  kind = if kind == "" then "unknown" else kind;
  agent_token = none;
  state = state_active;
  last_seen = none;
  identities = [];
  caps = [];
}

abbrev text_or : String → String → String
text_or v old = if v == "" then old else v

-- A new text, unless the pointer is nil or nothing is left of it.
abbrev pub patched_text : Option String → String → String
patched_text none old = old
patched_text (some v) old = text_or (trim_space v) old

abbrev pub patched_person : Option String → Option String → Option String
patched_person none old = old
patched_person (some p) old = some p

unfoldable pub is_known_state : DeviceState → Bool
is_known_state s =
    s == state_discovered || s == state_active || s == state_paused || s == state_retired

-- The state; `none` is an unknown one.
unfoldable pub patched_state : Option String → DeviceState → Option DeviceState
unfolding is_known_state
patched_state none old = some old
patched_state (some s) old = if is_known_state s then some s else none

abbrev pub with_state : PatchDeviceRequest → Device → Option DeviceState → Option Device
with_state req d none = none
with_state req d (some s) = some (record d {
  label = patched_text req.label d.label;
  kind = patched_text req.kind d.kind;
  person_id = patched_person req.person_id d.person_id;
  state = s;
})

-- The device with the request's changes; `none` is an unknown state.
unfoldable pub patched : PatchDeviceRequest → Device → Option Device
unfolding patched_state
patched req d = with_state req d (patched_state req.state d.state)

-- A request body is `none` if it does not decode.
module _ (w : World) where
  -- List, with the state of the query.
  unfoldable pub list_devices : String → Handler (Reply (List Device))
  list_devices state =
      attempt (list w state) server_error (λ devices. finish (write_json 200 devices))

  abbrev created_named : String → String → Option String → Handler (Reply Device)
  created_named label kind person_id =
      if label == ""
      then finish (write_error 400 "label is required")
      else attempt (upsert w (new_device label kind person_id)) server_error
          (λ d. finish (write_json 201 d))

  -- Create
  unfoldable pub create_device : Option CreateDeviceRequest → Handler (Reply Device)
  unfolding new_device
  create_device none = finish (write_error 400 "invalid JSON body")
  create_device (some req) =
      created_named (trim_space req.label) (trim_space req.kind) req.person_id

  -- Get
  unfoldable pub get_device : String → Handler (Reply Device)
  get_device id = attempt (get w id) get_failure (λ d. finish (write_json 200 d))

  -- Patch from the writing of the changed device on.
  unfoldable pub store_patched : Option Device → Handler (Reply Device)
  store_patched none = finish (write_error 400 "invalid state")
  store_patched (some d) = attempt (upsert w d) server_error (λ u. finish (write_json 200 u))

  unfoldable pub patch_existing : Option PatchDeviceRequest → Device → Handler (Reply Device)
  unfolding store_patched patched
  patch_existing none d = finish (write_error 400 "invalid JSON body")
  patch_existing (some req) d = store_patched (patched req d)

  -- Patch
  unfoldable pub patch_device : String → Option PatchDeviceRequest → Handler (Reply Device)
  unfolding patch_existing
  patch_device id body = attempt (get w id) get_failure (patch_existing body)
