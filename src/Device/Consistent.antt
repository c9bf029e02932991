-- ===== src/Device/Consistent.antt =====
-- The invariant of the registry's tables, and that each statement keeps it.
pub mod Statements
use safe_play_guardian.Prelude.{
  ℕ, ◌≡◌, refl, String, Bool, true, false, not, ◌&&◌, ◌||◌, ◌==◌, string_eq, eq_iff, eq_refl,
  Bool-cases, inl, inr, Option, none, some, List, [], ◌∷◌, ◌++◌, any, All, All-append, arith, ap,
}
use safe_play_guardian.Device.Rows.{
  has_device, has_person, put_device, put_identity, put_capability, set_last_seen, upsert_row,
  touch_row, capability_row, pending_row, last_seen_row,
}
use safe_play_guardian.Store.Tables.{
  PersonRow, DeviceRow, IdentityRow, CapabilityRow, PendingMergeRow, Tables,
}

-- No two rows have the same identity.
abbrev pub DistinctDevices : List DeviceRow → Type 0
DistinctDevices [] = Unit
DistinctDevices (d ∷ rows) = (has_device rows d.id ≡ false) × DistinctDevices rows

abbrev pub same_identity : IdentityRow → IdentityRow → Bool
same_identity i r = r.device_id == i.device_id && (r.kind == i.kind && r.value == i.value)

abbrev pub DistinctIdentities : List IdentityRow → Type 0
DistinctIdentities [] = Unit
DistinctIdentities (i ∷ rows) = (any (same_identity i) rows ≡ false) × DistinctIdentities rows

abbrev pub same_capability : CapabilityRow → CapabilityRow → Bool
same_capability c r = r.device_id == c.device_id && r.capability == c.capability

abbrev pub DistinctCapabilities : List CapabilityRow → Type 0
DistinctCapabilities [] = Unit
DistinctCapabilities (c ∷ rows) = (any (same_capability c) rows ≡ false) × DistinctCapabilities rows

-- Keys are unique, and every identity, capability, pending merge and owner refers to a row that
-- is there.
pub record IsConsistent (t : Tables) : Type 0 where
  pub device_keys : DistinctDevices t.devices
  pub device_owners : All (λ (d : DeviceRow). has_person t.people d.person_id ≡ true) t.devices
  pub identity_keys : DistinctIdentities t.network_identities
  pub identity_owners :
      All (λ (i : IdentityRow). has_device t.devices i.device_id ≡ true) t.network_identities
  pub capability_keys : DistinctCapabilities t.device_capabilities
  pub capability_owners :
      All (λ (c : CapabilityRow). has_device t.devices c.device_id ≡ true) t.device_capabilities
  pub pending_sources :
      All (λ (p : PendingMergeRow). has_device t.devices p.source_device_id ≡ true) t.pending_merges

module _ {A : Type 0} {P Q : A → Type 0} where
  pub All-map : ((a : A) → P a → Q a) → (xs : List A) → All P xs → All Q xs
  All-map f [] h = tt
  All-map f (x ∷ xs) (p, h) = (f x p, All-map f xs h)

-- A device that is there stays, and only the written one comes.
pub has_device-put_device :
    (d : DeviceRow) (rows : List DeviceRow) (id : String)
    → has_device (put_device d rows) id ≡ (d.id == id || has_device rows id)
unfolding put_device
has_device-put_device d [] id = ground arith
has_device-put_device d (r ∷ rows) id =
    ground
      (arith, eq_iff r.id d.id, eq_iff d.id id, eq_iff r.id id, has_device-put_device d rows id)

pub has_device-set_last_seen :
    (seen : ℕ) (at : String) (rows : List DeviceRow) (id : String)
    → has_device (set_last_seen seen at rows) id ≡ has_device rows id
unfolding set_last_seen
has_device-set_last_seen seen at [] id = refl
has_device-set_last_seen seen at (r ∷ rows) id =
    ground (arith, has_device-set_last_seen seen at rows id)

pub put_device-Distinct :
    (d : DeviceRow) (rows : List DeviceRow)
    → DistinctDevices rows
    → DistinctDevices (put_device d rows)
unfolding put_device
put_device-Distinct d [] h = (refl, tt)
put_device-Distinct d (r ∷ rows) (p, h) = elim (Bool-cases (r.id == d.id)) [
  | inl e ↦ rw e (ground (arith, eq_iff r.id d.id), h)
  | inr e ↦ rw e (
    ground (arith, has_device-put_device d rows r.id, eq_iff r.id d.id, eq_iff d.id r.id),
    put_device-Distinct d rows h,
  )
]

pub set_last_seen-Distinct :
    (seen : ℕ) (at : String) (rows : List DeviceRow)
    → DistinctDevices rows
    → DistinctDevices (set_last_seen seen at rows)
unfolding set_last_seen
set_last_seen-Distinct seen at [] h = tt
set_last_seen-Distinct seen at (r ∷ rows) (p, h) = (
  ground (arith, has_device-set_last_seen seen at rows r.id),
  set_last_seen-Distinct seen at rows h,
)

any-same_identity-put :
    (i j : IdentityRow) (rows : List IdentityRow)
    → any (same_identity j) rows ≡ false
    → same_identity j i ≡ false
    → any (same_identity j) (put_identity i rows) ≡ false
unfolding put_identity
any-same_identity-put i j [] h k = ground arith
any-same_identity-put i j (r ∷ rows) h k = ground (arith, any-same_identity-put i j rows)

pub put_identity-Distinct :
    (i : IdentityRow) (rows : List IdentityRow)
    → DistinctIdentities rows
    → DistinctIdentities (put_identity i rows)
unfolding put_identity
put_identity-Distinct i [] h = (refl, tt)
put_identity-Distinct i (r ∷ rows) (p, h) = elim (Bool-cases (same_identity i r)) [
  | inl e ↦ rw e (p, h)
  | inr e ↦ rw e (
    any-same_identity-put i r rows p (
        ground (
          arith,
          eq_iff r.device_id i.device_id,
          eq_iff r.kind i.kind,
          eq_iff r.value i.value,
          eq_iff i.device_id r.device_id,
          eq_iff i.kind r.kind,
          eq_iff i.value r.value,
        )),
    put_identity-Distinct i rows h,
  )
]

any-same_capability-put :
    (c j : CapabilityRow) (rows : List CapabilityRow)
    → any (same_capability j) rows ≡ false
    → same_capability j c ≡ false
    → any (same_capability j) (put_capability c rows) ≡ false
unfolding put_capability
any-same_capability-put c j [] h k = ground arith
any-same_capability-put c j (r ∷ rows) h k = ground (arith, any-same_capability-put c j rows)

pub put_capability-Distinct :
    (c : CapabilityRow) (rows : List CapabilityRow)
    → DistinctCapabilities rows
    → DistinctCapabilities (put_capability c rows)
unfolding put_capability
put_capability-Distinct c [] h = (refl, tt)
put_capability-Distinct c (r ∷ rows) (p, h) = elim (Bool-cases (same_capability c r)) [
  | inl e ↦ rw e (p, h)
  | inr e ↦ rw e (
    any-same_capability-put c r rows p (
        ground (
          arith,
          eq_iff r.device_id c.device_id,
          eq_iff r.capability c.capability,
          eq_iff c.device_id r.device_id,
          eq_iff c.capability r.capability,
        )),
    put_capability-Distinct c rows h,
  )
]

pub put_identity-All :
    (Q : IdentityRow → Type 0)
    → ((r : IdentityRow) (seen : Option ℕ) → Q r → Q (record r { last_seen = seen }))
    → (i : IdentityRow) (rows : List IdentityRow) → Q i
    → All Q rows
    → All Q (put_identity i rows)
unfolding put_identity
put_identity-All Q keep i [] q h = (q, tt)
put_identity-All Q keep i (r ∷ rows) q (p, h) = elim (Bool-cases (same_identity i r)) [
  | inl e ↦ rw e (keep r i.last_seen p, h)
  | inr e ↦ rw e (p, put_identity-All Q keep i rows q h)
]

pub put_capability-All :
    (Q : CapabilityRow → Type 0) (c : CapabilityRow) (rows : List CapabilityRow)
    → Q c
    → All Q rows
    → All Q (put_capability c rows)
unfolding put_capability
put_capability-All Q c [] q h = (q, tt)
put_capability-All Q c (r ∷ rows) q (p, h) = elim (Bool-cases (same_capability c r)) [
  | inl e ↦ rw e (p, h)
  | inr e ↦ rw e (p, put_capability-All Q c rows q h)
]

pub put_device-All :
    (Q : DeviceRow → Type 0) (d : DeviceRow) (rows : List DeviceRow)
    → Q d
    → All Q rows
    → All Q (put_device d rows)
unfolding put_device
put_device-All Q d [] q h = (q, tt)
put_device-All Q d (r ∷ rows) q (p, h) = elim (Bool-cases (r.id == d.id)) [
  | inl e ↦ rw e (q, h)
  | inr e ↦ rw e (p, put_device-All Q d rows q h)
]
