-- ===== src/Device/Rows.antt =====
-- The SQL statements of internal/device/sqlite.go, as functions on the tables.
pub mod Sorted
pub mod TextOrder
use Prim.Native.String
use safe_play_guardian.Prelude.{
  ℕ, Ordering, String, Bool, true, false, ◌&&◌, ◌==◌, string_eq, Option, none, some, List, [], ◌∷◌,
  ◌++◌, map, any, if◌then◌else◌,
}
use safe_play_guardian.Device.Model.{Capability, NetworkIdentity, Device}
use safe_play_guardian.Store.Tables.{
  PersonRow, DeviceRow, IdentityRow, CapabilityRow, PendingMergeRow, Tables,
}

-- s ≤ t in the order of the bytes.
abbrev pub text_le : String → String → Bool
text_le s t = elim (String.compare s t) [ Ordering.gt ↦ false | _ ↦ true ]

-- ORDER BY: equal rows keep their order.
module _ {A : Type 0} (le : A → A → Bool) where
  unfoldable pub insert_sorted : A → List A → List A
  insert_sorted x [] = x ∷ []
  insert_sorted x (y ∷ ys) = if le x y then x ∷ y ∷ ys else y ∷ insert_sorted x ys

  unfoldable pub order_by : List A → List A
  order_by [] = []
  order_by (x ∷ xs) = insert_sorted x (order_by xs)

-- WHERE
unfoldable pub where_ {ℓ} : {A : Type ℓ} → (A → Bool) → List A → List A
where_ p [] = []
where_ p (x ∷ xs) = if p x then x ∷ where_ p xs else where_ p xs

-- The first row of a SELECT, as QueryRow scans it.
unfoldable pub first_where {ℓ} : {A : Type ℓ} → (A → Bool) → List A → Option A
first_where p [] = none
first_where p (x ∷ xs) = if p x then some x else first_where p xs

abbrev pub has_device : List DeviceRow → String → Bool
has_device rows id = any (λ (d : DeviceRow). d.id == id) rows

abbrev pub has_person : List PersonRow → Option String → Bool
has_person people none = true
has_person people (some id) = any (λ (p : PersonRow). p.id == id) people

-- INSERT INTO devices ... ON CONFLICT(id) DO UPDATE
unfoldable pub put_device : DeviceRow → List DeviceRow → List DeviceRow
put_device d [] = d ∷ []
put_device d (r ∷ rows) = if r.id == d.id then d ∷ rows else r ∷ put_device d rows

-- INSERT INTO network_identities ... ON CONFLICT(device_id, kind, value) DO UPDATE
unfoldable pub put_identity : IdentityRow → List IdentityRow → List IdentityRow
put_identity i [] = i ∷ []
put_identity i (r ∷ rows) =
    if r.device_id == i.device_id && (r.kind == i.kind && r.value == i.value)
    then record r { last_seen = i.last_seen } ∷ rows
    else r ∷ put_identity i rows

-- INSERT OR IGNORE INTO device_capabilities
unfoldable pub put_capability : CapabilityRow → List CapabilityRow → List CapabilityRow
put_capability c [] = c ∷ []
put_capability c (r ∷ rows) =
    if r.device_id == c.device_id && r.capability == c.capability
    then r ∷ rows
    else r ∷ put_capability c rows

-- UPDATE devices SET last_seen = ? WHERE id = ?
unfoldable pub set_last_seen : ℕ → String → List DeviceRow → List DeviceRow
set_last_seen seen id [] = []
set_last_seen seen id (r ∷ rows) =
    (if r.id == id then record r { last_seen = some seen } else r) ∷ set_last_seen seen id rows

-- The statements, with the foreign keys of the tables.
unfoldable pub upsert_row : DeviceRow → Tables → Option Tables
upsert_row d t =
    if has_person t.people d.person_id
    then some (record t { devices = put_device d t.devices })
    else none

unfoldable pub touch_row : IdentityRow → Tables → Option Tables
touch_row i t =
    if has_device t.devices i.device_id
    then some (record t { network_identities = put_identity i t.network_identities })
    else none

unfoldable pub capability_row : CapabilityRow → Tables → Option Tables
capability_row c t =
    if has_device t.devices c.device_id
    then some (record t { device_capabilities = put_capability c t.device_capabilities })
    else none

unfoldable pub pending_row : PendingMergeRow → Tables → Option Tables
pending_row p t =
    if has_device t.devices p.source_device_id
    then some (record t { pending_merges = t.pending_merges ++ p ∷ [] })
    else none

unfoldable pub last_seen_row : ℕ → String → Tables → Option Tables
last_seen_row seen id t = some (record t { devices = set_last_seen seen id t.devices })

unfoldable pub identity_of : IdentityRow → NetworkIdentity
identity_of r = record { kind = r.kind; value = r.value; last_seen = r.last_seen }

abbrev pub identity_le : NetworkIdentity → NetworkIdentity → Bool
identity_le a b = if a.kind == b.kind then text_le a.value b.value else text_le a.kind b.kind

abbrev pub identities_of : String → Tables → List NetworkIdentity
identities_of id t =
    order_by identity_le
      (map identity_of (where_ (λ (r : IdentityRow). r.device_id == id) t.network_identities))

abbrev pub caps_of : String → Tables → List Capability
caps_of id t = order_by text_le (
    map (λ (r : CapabilityRow). r.capability)
      (where_ (λ (r : CapabilityRow). r.device_id == id) t.device_capabilities))

-- scanDevice
unfoldable pub scan_device : DeviceRow → Device
scan_device r = record {
  id = r.id;
  person_id = r.person_id;
  label = r.label;
  kind = r.kind;
  agent_token = r.agent_token;
  state = r.state;
  last_seen = r.last_seen;
  identities = [];
  caps = [];
}

abbrev pub row_of : Device → DeviceRow
row_of d = record {
  id = d.id;
  person_id = d.person_id;
  label = d.label;
  kind = d.kind;
  agent_token = d.agent_token;
  state = d.state;
  last_seen = d.last_seen;
}
