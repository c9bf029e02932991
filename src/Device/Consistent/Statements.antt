-- ===== src/Device/Consistent/Statements.antt =====
-- Each statement of the registry keeps the invariant, and keeps every device that is there.
use safe_play_guardian.Prelude.{
  ℕ, ◌≡◌, String, true, ◌==◌, string_eq, eq_refl, Bool-cases, inl, inr, Option, some, List, [], ◌∷◌,
  ◌++◌, All, All-append, arith, ◌∙◌,
}
use safe_play_guardian.Device.Rows.{
  has_device, has_person, put_device, put_identity, put_capability, set_last_seen, upsert_row,
  touch_row, capability_row, pending_row, last_seen_row,
}
use safe_play_guardian.Store.Tables.{DeviceRow, IdentityRow, CapabilityRow, PendingMergeRow, Tables}
use safe_play_guardian.Device.Consistent.{
  IsConsistent, All-map, has_device-put_device, has_device-set_last_seen, put_device-Distinct,
  set_last_seen-Distinct, put_identity-Distinct, put_capability-Distinct, put_identity-All,
  put_capability-All, put_device-All,
}

-- The tables are consistent, and a device of this identity is there.
abbrev pub Has : String → Tables → Type 0
Has id t = IsConsistent t × (has_device t.devices id ≡ true)

set_last_seen-All :
    (seen : ℕ) (at : String) (Q : DeviceRow → Type 0)
    → ((r : DeviceRow) (s : Option ℕ) → Q r → Q (record r { last_seen = s }))
    → (rows : List DeviceRow) → All Q rows
    → All Q (set_last_seen seen at rows)
unfolding set_last_seen
set_last_seen-All seen at Q keep [] h = tt
set_last_seen-All seen at Q keep (r ∷ rows) (p, h) = elim (Bool-cases (r.id == at)) [
  | inl e ↦ rw e (keep r (some seen) p, set_last_seen-All seen at Q keep rows h)
  | inr e ↦ rw e (p, set_last_seen-All seen at Q keep rows h)
]

-- A device that was there is there after another is written.
still_there :
    (d : DeviceRow) (rows : List DeviceRow) (id : String)
    → has_device rows id ≡ true
    → has_device (put_device d rows) id ≡ true
still_there d rows id h = ground (arith, has_device-put_device d rows id)

upserted :
    (d : DeviceRow) (t : Tables)
    → has_person t.people d.person_id ≡ true
    → IsConsistent t
    → IsConsistent (record t { devices = put_device d t.devices })
upserted d t p c = record {
  device_keys = put_device-Distinct d t.devices c.device_keys;
  device_owners =
      put_device-All (λ r. has_person t.people r.person_id ≡ true) d t.devices p c.device_owners;
  identity_keys = c.identity_keys;
  identity_owners =
      All-map (λ (i : IdentityRow) h. still_there d t.devices i.device_id h) t.network_identities
        c.identity_owners;
  capability_keys = c.capability_keys;
  capability_owners =
      All-map (λ (i : CapabilityRow) h. still_there d t.devices i.device_id h) t.device_capabilities
        c.capability_owners;
  pending_sources =
      All-map (λ (i : PendingMergeRow) h. still_there d t.devices i.source_device_id h)
        t.pending_merges c.pending_sources;
}

pub upsert_row-IsConsistent :
    (d : DeviceRow) (t t' : Tables) → IsConsistent t → upsert_row d t ≡ some t' → IsConsistent t'
unfolding upsert_row
upsert_row-IsConsistent d t t' c h = elim (Bool-cases (has_person t.people d.person_id)) [
  | inl e ↦
      let same : record t { devices = put_device d t.devices } ≡ t' = ground arith in
      rw (← same) (upserted d t e c)
  | inr e ↦ absurd (ground arith)
]

-- After the statement the written device is there.
pub upsert_row-Has :
    (d : DeviceRow) (t t' : Tables) → IsConsistent t → upsert_row d t ≡ some t' → Has d.id t'
unfolding upsert_row
upsert_row-Has d t t' c h = (
  upsert_row-IsConsistent d t t' c h,
  ground (arith, has_device-put_device d t.devices d.id, eq_refl d.id),
)

module _ (id : String) where
  pub touch_row-Has :
      (i : IdentityRow) (t t' : Tables) → Has id t → touch_row i t ≡ some t' → Has id t'
  unfolding touch_row
  touch_row-Has i t t' (c, p) h = elim (Bool-cases (has_device t.devices i.device_id)) [
    | inl e ↦
        let same : record t { network_identities = put_identity i t.network_identities } ≡ t' =
          ground arith in
        rw (← same) (
          record {
            device_keys = c.device_keys;
            device_owners = c.device_owners;
            identity_keys = put_identity-Distinct i t.network_identities c.identity_keys;
            identity_owners =
                put_identity-All (λ r. has_device t.devices r.device_id ≡ true) (λ r s q. q) i
                  t.network_identities e c.identity_owners;
            capability_keys = c.capability_keys;
            capability_owners = c.capability_owners;
            pending_sources = c.pending_sources;
          },
          p,
        )
    | inr e ↦ absurd (ground arith)
  ]

  pub capability_row-Has :
      (i : CapabilityRow) (t t' : Tables) → Has id t → capability_row i t ≡ some t' → Has id t'
  unfolding capability_row
  capability_row-Has i t t' (c, p) h = elim (Bool-cases (has_device t.devices i.device_id)) [
    | inl e ↦
        let same : record t { device_capabilities = put_capability i t.device_capabilities } ≡ t' =
          ground arith in
        rw (← same) (
          record {
            device_keys = c.device_keys;
            device_owners = c.device_owners;
            identity_keys = c.identity_keys;
            identity_owners = c.identity_owners;
            capability_keys = put_capability-Distinct i t.device_capabilities c.capability_keys;
            capability_owners =
                put_capability-All (λ r. has_device t.devices r.device_id ≡ true) i
                  t.device_capabilities e c.capability_owners;
            pending_sources = c.pending_sources;
          },
          p,
        )
    | inr e ↦ absurd (ground arith)
  ]

  pub pending_row-Has :
      (i : PendingMergeRow) (t t' : Tables) → Has id t → pending_row i t ≡ some t' → Has id t'
  unfolding pending_row
  pending_row-Has i t t' (c, p) h = elim (Bool-cases (has_device t.devices i.source_device_id)) [
    | inl e ↦
        let same : record t { pending_merges = t.pending_merges ++ i ∷ [] } ≡ t' = ground arith in
        rw (← same) (
          record {
            device_keys = c.device_keys;
            device_owners = c.device_owners;
            identity_keys = c.identity_keys;
            identity_owners = c.identity_owners;
            capability_keys = c.capability_keys;
            capability_owners = c.capability_owners;
            pending_sources =
                All-append (λ (r : PendingMergeRow). has_device t.devices r.source_device_id ≡ true)
                  t.pending_merges (i ∷ []) c.pending_sources (e, tt);
          },
          p,
        )
    | inr e ↦ absurd (ground arith)
  ]

  pub last_seen_row-Has :
      (seen : ℕ) (at : String) (t t' : Tables)
      → Has id t
      → last_seen_row seen at t ≡ some t'
      → Has id t'
  unfolding last_seen_row
  last_seen_row-Has seen at t t' (c, p) h =
      let same : record t { devices = set_last_seen seen at t.devices } ≡ t' = ground arith in
      let kept : (j : String)
          → has_device t.devices j ≡ true
          → has_device (set_last_seen seen at t.devices) j ≡ true =
        λ j q. has_device-set_last_seen seen at t.devices j ∙ q in
      rw (← same) (
        record {
          device_keys = set_last_seen-Distinct seen at t.devices c.device_keys;
          device_owners =
              set_last_seen-All seen at (λ r. has_person t.people r.person_id ≡ true) (λ r s q. q)
                t.devices c.device_owners;
          identity_keys = c.identity_keys;
          identity_owners =
              All-map (λ (i : IdentityRow) q. kept i.device_id q) t.network_identities
                c.identity_owners;
          capability_keys = c.capability_keys;
          capability_owners =
              All-map (λ (i : CapabilityRow) q. kept i.device_id q) t.device_capabilities
                c.capability_owners;
          pending_sources =
              All-map (λ (i : PendingMergeRow) q. kept i.source_device_id q) t.pending_merges
                c.pending_sources;
        },
        kept id p,
      )
