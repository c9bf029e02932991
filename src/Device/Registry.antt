-- ===== src/Device/Registry.antt =====
-- internal/device/sqlite.go: Get, List and Upsert of the registry.
pub mod Integrity
pub mod Tokens
pub mod Kept
pub mod Stages
pub mod Saved
pub mod Writes
use safe_play_guardian.Prelude.{
  ℕ, String, Bool, true, false, ◌==◌, string_eq, Option, none, some, List, [], ◌∷◌, if◌then◌else◌,
}
use safe_play_guardian.Device.Model.{
  DeviceState, state_active, IdentityKind, Capability, NetworkIdentity, Device,
}
use safe_play_guardian.Device.Rows.{
  text_le, order_by, where_, first_where, upsert_row, touch_row, capability_row, identities_of,
  caps_of, scan_device, row_of,
}
use safe_play_guardian.Store.Tables.{DeviceRow, IdentityRow, CapabilityRow}
use safe_play_guardian.Store.Exec.{
  World, M, ◌>>=◌, ◌>>◌, return, raise, each, query, exec, clock, draw, device_not_found,
}

module _ (w : World) where
  -- attachChildren
  unfoldable pub attach_children : Device → M Device
  attach_children d = do
    identities ← query w (identities_of d.id)
    caps ← query w (caps_of d.id)
    return (record d { identities = identities; caps = caps })

  unfoldable pub scanned : Option DeviceRow → M Device
  unfolding attach_children
  scanned none = raise device_not_found
  scanned (some r) = attach_children (scan_device r)

  -- Get
  unfoldable pub get : String → M Device
  unfolding scanned
  get id = do
    row ← query w (λ t. first_where (λ (d : DeviceRow). d.id == id) t.devices)
    scanned row

  attach_all : List DeviceRow → M (List Device)
  unfolding attach_children
  attach_all [] = return []
  attach_all (r ∷ rows) =
      let rest = attach_all rows in
      attach_children (scan_device r) >>= λ d. rest >>= λ ds. return (d ∷ ds)

  -- List, with the filter's state; the empty one does not filter.
  unfoldable pub list : DeviceState → M (List Device)
  unfolding attach_all
  list state = do
    rows ← query w (λ t.
        order_by (λ (a b : DeviceRow). text_le a.label b.label)
          (if state == ""
            then t.devices
            else where_ (λ (d : DeviceRow). d.state == state) t.devices))
    attach_all rows

  -- touchIdentity
  unfoldable pub touch_identity : String → IdentityKind → String → ℕ → M (Unit {0})
  touch_identity device_id kind value seen = exec w (
      touch_row
        (record { device_id = device_id; kind = kind; value = value; last_seen = some seen }))

  abbrev pub seen_or : Option ℕ → ℕ → ℕ
  seen_or none now = now
  seen_or (some t) now = t

  -- addIdentity
  unfoldable pub add_identity : String → NetworkIdentity → M (Unit {0})
  unfolding touch_identity
  add_identity device_id ident = do
    now ← clock w
    touch_identity device_id ident.kind ident.value (seen_or ident.last_seen now)

  -- addCapability
  unfoldable pub add_capability : String → Capability → M (Unit {0})
  add_capability device_id cap =
      exec w (capability_row (record { device_id = device_id; capability = cap }))

  -- The identity of a device to be written: a fresh one if it has none.
  unfoldable pub choose_id : String → M String
  choose_id id = if id == "" then draw w else return id

  -- Upsert after the identity is chosen.
  unfoldable pub upsert_as : Device → String → M Device
  unfolding add_identity add_capability get
  upsert_as d id = do
    exec w (
        upsert_row
          (record (row_of d) { id = id; state = if d.state == "" then state_active else d.state }))
    each (add_identity id) d.identities
    each (add_capability id) d.caps
    get id

  -- Upsert
  unfoldable pub upsert : Device → M Device
  unfolding choose_id upsert_as
  upsert d = do id ← choose_id d.id; upsert_as d id
