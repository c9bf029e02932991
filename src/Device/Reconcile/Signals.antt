-- ===== src/Device/Reconcile/Signals.antt =====
-- The signals of a sighting, and what it means that they are recorded.
use safe_play_guardian.Prelude.{
  ℕ, ◌≡◌, refl, String, Bool, true, ◌||◌, ◌==◌, string_eq, nat_eq, eq_iff, Bool-cases, inl, inr,
  none, List, [], ◌∷◌, map, any, All, arith,
}
use safe_play_guardian.Device.Model.{
  Observation, IdentityKind, identity_agent, identity_mac, identity_ip, identity_hostname,
}
use safe_play_guardian.Device.Rows.{put_identity, set_last_seen}
use safe_play_guardian.Device.Consistent.{same_identity}
use safe_play_guardian.Device.Consistent.Statements.{Has}
use safe_play_guardian.Store.Tables.{DeviceRow, IdentityRow, Tables}

-- A signal that is empty, or is recorded as an identity of the device.
abbrev pub heard : String → IdentityKind × String → List IdentityRow → Bool
heard id (kind, value) rows =
    value == ""
    || any (same_identity (record { device_id = id; kind = kind; value = value; last_seen = none }))
        rows

same_identity-same :
    (i j r : IdentityRow) → same_identity i r ≡ true → same_identity j i ≡ same_identity j r
same_identity-same i j r h =
    let device : r.device_id ≡ i.device_id = ground (arith, eq_iff r.device_id i.device_id) in
    let kind : r.kind ≡ i.kind = ground (arith, eq_iff r.kind i.kind) in
    let value : r.value ≡ i.value = ground (arith, eq_iff r.value i.value) in
    rw (device, kind, value) refl

pub any-same_identity-put_identity :
    (i j : IdentityRow) (rows : List IdentityRow)
    → any (same_identity j) (put_identity i rows)
      ≡ (same_identity j i || any (same_identity j) rows)
unfolding put_identity
any-same_identity-put_identity i j [] = refl
any-same_identity-put_identity i j (r ∷ rows) = elim (Bool-cases (same_identity i r)) [
  | inl e ↦
      rw (e, same_identity-same i j r e) (absorb (same_identity j r) (any (same_identity j) rows))
  | inr e ↦
      rw (e, any-same_identity-put_identity i j rows)
        (swap (same_identity j r) (same_identity j i) (any (same_identity j) rows))
]
  where
    absorb : (a b : Bool) → (a || b) ≡ (a || (a || b))
    absorb a b = ground arith

    swap : (a b c : Bool) → (a || (b || c)) ≡ (b || (a || c))
    swap a b c = ground arith

pub ids-set_last_seen :
    (seen : ℕ) (at : String) (rows : List DeviceRow)
    → map (λ (d : DeviceRow). d.id) (set_last_seen seen at rows)
      ≡ map (λ (d : DeviceRow). d.id) rows
unfolding set_last_seen
ids-set_last_seen seen at [] = refl
ids-set_last_seen seen at (r ∷ rows) = ground (arith, ids-set_last_seen seen at rows)

-- The signals of an observation, the last one first.
abbrev pub signals : Observation → List (IdentityKind × String)
signals obs =
    (identity_hostname, obs.hostname)
    ∷ (identity_ip, obs.ip)
    ∷ (identity_mac, obs.mac)
    ∷ (identity_agent, obs.agent_id)
    ∷ []

-- On the way through mergeObservation: the tables are consistent, the device is there, the devices
-- are those of before, and the signals ps are heard.
abbrev pub Stage : String → List String → List (IdentityKind × String) → Tables → Type 0
Stage id ids ps t =
    Has id t
    × ((map (λ (d : DeviceRow). d.id) t.devices ≡ ids)
        × All (λ (p : IdentityKind × String). heard id p t.network_identities ≡ true) ps)
