-- ===== src/Device/Registry/Kept.antt =====
-- The identities and the capabilities of a device, as the statements write and keep them.
use mathlib.Core.List.{Memᴰ}
use safe_play_guardian.Prelude.{
  ◌≡◌, refl, ap, sym, ◌∙◌, String, ◌==◌, ◌&&◌, string_eq, eq_iff, Bool-cases, inl, inr, List, [],
  ◌∷◌, and_true,
}
use safe_play_guardian.Device.Model.{NetworkIdentity, Capability}
use safe_play_guardian.Device.Rows.{put_identity, put_capability, identity_of}
use safe_play_guardian.Store.Tables.{IdentityRow, CapabilityRow}

-- An identity row, or a capability row, of the device.
abbrev pub HasIdentity : String → List IdentityRow → NetworkIdentity → Type 0
HasIdentity id rows i =
    (r : IdentityRow) × Memᴰ r rows × (r.device_id ≡ id) × (r.kind ≡ i.kind) × (r.value ≡ i.value)

abbrev pub HasCapability : String → List CapabilityRow → Capability → Type 0
HasCapability id rows c =
    (r : CapabilityRow) × Memᴰ r rows × (r.device_id ≡ id) × (r.capability ≡ c)

pub put_identity-writes :
    (i : IdentityRow) (rows : List IdentityRow)
    → HasIdentity i.device_id (put_identity i rows) (identity_of i)
unfolding put_identity identity_of
put_identity-writes i [] = (i, Memᴰ.head refl, refl, refl, refl)
put_identity-writes i (r ∷ rows) =
    elim (Bool-cases (r.device_id == i.device_id && (r.kind == i.kind && r.value == i.value))) [
      | inl e ↦
          let (a, b) = and_true (r.device_id == i.device_id) _ e in
          let (k, v) = and_true (r.kind == i.kind) (r.value == i.value) b in
          rw e (
            record r { last_seen = i.last_seen },
            Memᴰ.head refl,
            (eq_iff r.device_id i.device_id).0 a,
            (eq_iff r.kind i.kind).0 k,
            (eq_iff r.value i.value).0 v,
          )
      | inr e ↦ let (x, m, a, k, v) = put_identity-writes i rows in rw e (x, Memᴰ.tail m, a, k, v)
    ]

pub put_identity-keeps :
    (i : IdentityRow) (id : String) (j : NetworkIdentity) (rows : List IdentityRow)
    → HasIdentity id rows j
    → HasIdentity id (put_identity i rows) j
unfolding put_identity
put_identity-keeps i id j [] (x, m, a, k, v) = elim m [ ]
put_identity-keeps i id j (r ∷ rows) (x, Memᴰ.head e, a, k, v) =
    elim (Bool-cases (r.device_id == i.device_id && (r.kind == i.kind && r.value == i.value))) [
      | inl q ↦ rw q (
        record r { last_seen = i.last_seen },
        Memᴰ.head refl,
        sym (ap (λ (y : IdentityRow). y.device_id) e) ∙ a,
        sym (ap (λ (y : IdentityRow). y.kind) e) ∙ k,
        sym (ap (λ (y : IdentityRow). y.value) e) ∙ v,
      )
      | inr q ↦ rw q (x, Memᴰ.head e, a, k, v)
    ]
put_identity-keeps i id j (r ∷ rows) (x, Memᴰ.tail m, a, k, v) =
    elim (Bool-cases (r.device_id == i.device_id && (r.kind == i.kind && r.value == i.value))) [
      | inl q ↦ rw q (x, Memᴰ.tail m, a, k, v)
      | inr q ↦
          let (y, n, b, l, u) = put_identity-keeps i id j rows (x, m, a, k, v) in
          rw q (y, Memᴰ.tail n, b, l, u)
    ]

pub put_capability-writes :
    (c : CapabilityRow) (rows : List CapabilityRow)
    → HasCapability c.device_id (put_capability c rows) c.capability
unfolding put_capability
put_capability-writes c [] = (c, Memᴰ.head refl, refl, refl)
put_capability-writes c (r ∷ rows) =
    elim (Bool-cases (r.device_id == c.device_id && r.capability == c.capability)) [
      | inl e ↦
          let (a, b) = and_true (r.device_id == c.device_id) (r.capability == c.capability) e in
          rw e (
            r,
            Memᴰ.head refl,
            (eq_iff r.device_id c.device_id).0 a,
            (eq_iff r.capability c.capability).0 b,
          )
      | inr e ↦ let (x, m, a, k) = put_capability-writes c rows in rw e (x, Memᴰ.tail m, a, k)
    ]

pub put_capability-keeps :
    (c : CapabilityRow) (id : String) (d : Capability) (rows : List CapabilityRow)
    → HasCapability id rows d
    → HasCapability id (put_capability c rows) d
unfolding put_capability
put_capability-keeps c id d [] (x, m, a, k) = elim m [ ]
put_capability-keeps c id d (r ∷ rows) (x, Memᴰ.head e, a, k) =
    elim (Bool-cases (r.device_id == c.device_id && r.capability == c.capability)) [
      | inl q ↦ rw q (x, Memᴰ.head e, a, k)
      | inr q ↦ rw q (x, Memᴰ.head e, a, k)
    ]
put_capability-keeps c id d (r ∷ rows) (x, Memᴰ.tail m, a, k) =
    elim (Bool-cases (r.device_id == c.device_id && r.capability == c.capability)) [
      | inl q ↦ rw q (x, Memᴰ.tail m, a, k)
      | inr q ↦
          let (y, n, b, l) = put_capability-keeps c id d rows (x, m, a, k) in
          rw q (y, Memᴰ.tail n, b, l)
    ]
