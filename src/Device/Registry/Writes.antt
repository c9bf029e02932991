-- ===== src/Device/Registry/Writes.antt =====
-- Upsert of a known device writes its row, and nothing else about the devices.
use safe_play_guardian.Prelude.{
  ◌≡◌, ◌≢◌, refl, ap, sym, subst, String, false, ◌==◌, string_eq, eq_iff, eq_refl, Bool-cases, inl,
  inr, some, List, [], ◌∷◌, arith, if◌then◌else◌,
}
use safe_play_guardian.Device.Model.{Device, NetworkIdentity, Capability, state_active}
use safe_play_guardian.Device.Rows.{
  first_where, put_device, put_identity, put_capability, upsert_row, touch_row, capability_row,
  row_of, has_person, has_device,
}
use safe_play_guardian.Device.Registry.{
  get, touch_identity, add_identity, add_capability, choose_id, upsert_as, upsert,
}
use safe_play_guardian.Device.Registry.Tokens.{row_at, get-row_at}
use safe_play_guardian.Store.Tables.{DeviceRow, IdentityRow, CapabilityRow, Tables}
use safe_play_guardian.Store.Exec.{World, ◌>>=◌, clock, exec, each}
use safe_play_guardian.Store.Keeps.{
  Ensures, Nothing, >>=-keeps, >>=-Ensures, exec-keeps, exec-Ensures, clock-keeps, each-keeps,
  strengthen, weaken,
}

put_device_self :
    (d : DeviceRow) (rows : List DeviceRow)
    → first_where (λ (r : DeviceRow). r.id == d.id) (put_device d rows) ≡ some d
unfolding first_where put_device
put_device_self d [] = rw (eq_refl d.id) refl
put_device_self d (r ∷ rows) = elim (Bool-cases (r.id == d.id)) [
  | inl e ↦ rw (e, eq_refl d.id) refl
  | inr e ↦ rw (e, e) (put_device_self d rows)
]

put_device-other :
    (d : DeviceRow) (id : String) (rows : List DeviceRow)
    → (d.id == id) ≡ false
    → first_where (λ (r : DeviceRow). r.id == id) (put_device d rows)
      ≡ first_where (λ (r : DeviceRow). r.id == id) rows
unfolding first_where put_device
put_device-other d id [] h = rw h refl
put_device-other d id (r ∷ rows) h = elim (Bool-cases (r.id == d.id)) [
  | inl e ↦
      let same : (r.id == id) ≡ false =
        subst (λ x. (x == id) ≡ false) (sym ((eq_iff r.id d.id).0 e)) h in
      rw (e, h, same) refl
  | inr e ↦ rw e (ap (λ o. if r.id == id then some r else o) (put_device-other d id rows h))
]

-- The row that Upsert writes for a device.
abbrev pub written_row : Device → DeviceRow
written_row d = record (row_of d) { state = if d.state == "" then state_active else d.state }

pub row_at-put :
    (d : DeviceRow) (t : Tables)
    → row_at d.id (record t { devices = put_device d t.devices }) ≡ some d
row_at-put d t = put_device_self d t.devices

pub row_at-put_other :
    (d : DeviceRow) (t : Tables) (id : String)
    → d.id ≢ id
    → row_at id (record t { devices = put_device d t.devices }) ≡ row_at id t
row_at-put_other d t id h = put_device-other d id t.devices (ground (arith, eq_iff d.id id))

module _ (w : World) (I : Tables → Type 0)
    (identities : (t : Tables) (is : List IdentityRow)
      → I t
      → I (record t { network_identities = is }))
    (capabilities : (t : Tables) (cs : List CapabilityRow)
      → I t
      → I (record t { device_capabilities = cs })) where
  touch-keeps : (i : IdentityRow) → Ensures I (exec w (touch_row i)) Nothing
  unfolding touch_row
  touch-keeps i = exec-keeps I w (touch_row i) (λ t t' h e.
      elim (Bool-cases (has_device t.devices i.device_id)) [
        | inl q ↦
            let same : record t { network_identities = put_identity i t.network_identities } ≡ t' =
              ground arith in
            subst I same (identities t _ h)
        | inr q ↦ absurd (ground arith)
      ])

  add_identity-keeps : (id : String) (i : NetworkIdentity) → Ensures I (add_identity w id i) Nothing
  unfolding add_identity touch_identity
  add_identity-keeps id i = >>=-keeps I Nothing (clock w) _ (clock-keeps I w) (λ now. touch-keeps _)

  add_capability-keeps : (id : String) (c : Capability) → Ensures I (add_capability w id c) Nothing
  unfolding add_capability capability_row
  add_capability-keeps id c = exec-keeps I w _ (λ t t' h e.
      elim (Bool-cases (has_device t.devices id)) [
        | inl q ↦
            let same : record t {
              device_capabilities =
                  put_capability (record { device_id = id; capability = c }) t.device_capabilities;
            }
                ≡ t' =
              ground arith in
            subst I same (capabilities t _ h)
        | inr q ↦ absurd (ground arith)
      ])

  -- Upsert after the writing of the row.
  pub children-keep :
      (d : Device)
      → Ensures I
          (each (add_identity w d.id) d.identities >>= λ _.
            each (add_capability w d.id) d.caps >>= λ _. get w d.id)
          (λ e t. row_at d.id t ≡ some (row_of e))
  children-keep d =
      >>=-keeps I (λ e t. row_at d.id t ≡ some (row_of e)) _ _
        (each-keeps I (add_identity w d.id) d.identities (add_identity-keeps d.id))
        (λ _.
          >>=-keeps I (λ e t. row_at d.id t ≡ some (row_of e)) _ _
            (each-keeps I (add_capability w d.id) d.caps (add_capability-keeps d.id))
            (λ _. get-row_at w I d.id))

-- What the tables satisfy once the row is written.
module _ (w : World) (I J : Tables → Type 0) (weaker : (t : Tables) → J t → I t)
    (identities : (t : Tables) (is : List IdentityRow)
      → J t
      → J (record t { network_identities = is }))
    (capabilities : (t : Tables) (cs : List CapabilityRow)
      → J t
      → J (record t { device_capabilities = cs })) where
  -- Upsert leaves J where the writing of the row brings it about; and it answers with the row that
  -- it leaves.
  pub upsert-leaves :
      (d : Device)
      → d.id ≢ ""
      → ((t : Tables) → I t → J (record t { devices = put_device (written_row d) t.devices }))
      → Ensures I (upsert w d) (λ e t. J t × (row_at d.id t ≡ some (row_of e)))
  unfolding upsert choose_id upsert_as upsert_row
  upsert-leaves d named put =
      let given : (d.id == "") ≡ false = ground (arith, eq_iff d.id "") in
      rw given (
        >>=-Ensures I (λ _. J) (λ e t. J t × (row_at d.id t ≡ some (row_of e))) _ _
          (exec-Ensures I w _ (λ _. J)
            (λ t t' h e. elim (Bool-cases (has_person t.people d.person_id)) [
              | inl q ↦
                  let same : record t { devices = put_device (written_row d) t.devices } ≡ t' =
                    ground arith in
                  let j = subst J same (put t h) in (weaker t' j, j)
              | inr q ↦ absurd (ground arith)
            ]))
          (λ _ s h j.
            strengthen I J weaker (λ e t. row_at d.id t ≡ some (row_of e))
              (λ e t. J t × (row_at d.id t ≡ some (row_of e))) (λ e t k q. (k, q)) _
              (children-keep w J identities capabilities d s j)))

-- What the writing of the row keeps, Upsert keeps.
pub upsert-keeps :
    (w : World) (I : Tables → Type 0)
    → ((t : Tables) (is : List IdentityRow) → I t → I (record t { network_identities = is }))
    → ((t : Tables) (cs : List CapabilityRow) → I t → I (record t { device_capabilities = cs }))
    → (d : Device) → d.id ≢ ""
    → ((t : Tables) → I t → I (record t { devices = put_device (written_row d) t.devices }))
    → Ensures I (upsert w d) (λ e t. row_at d.id t ≡ some (row_of e))
upsert-keeps w I is cs d named put =
    weaken I (λ e t. I t × (row_at d.id t ≡ some (row_of e)))
      (λ e t. row_at d.id t ≡ some (row_of e)) (upsert w d) (λ e t k. k.1)
      (upsert-leaves w I I (λ t h. h) is cs d named put)
