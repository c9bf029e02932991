-- ===== src/Device/Registry/Stages.antt =====
-- What the steps of Upsert leave, one after the other, where no statement fails.
use safe_play_guardian.Prelude.{
  ℕ, ◌+◌, ◌≡◌, ◌≢◌, refl, String, Bool, true, false, ◌==◌, string_eq, Bool-cases, inl, inr, some,
  List, [], ◌∷◌, any, All, arith,
}
use safe_play_guardian.Device.Model.{Device, NetworkIdentity, Capability}
use safe_play_guardian.Device.Rows.{
  first_where, put_identity, put_capability, touch_row, capability_row, row_of, scan_device,
  identity_of, identities_of, caps_of,
}
use safe_play_guardian.Device.Rows.Sorted.{All-under}
use safe_play_guardian.Device.Registry.{
  get, scanned, attach_children, touch_identity, add_identity, add_capability, seen_or,
}
use safe_play_guardian.Device.Registry.Tokens.{row_at}
use safe_play_guardian.Device.Registry.Kept.{
  HasIdentity, HasCapability, put_identity-writes, put_identity-keeps, put_capability-writes,
  put_capability-keeps,
}
use safe_play_guardian.Store.Tables.{DeviceRow, IdentityRow, CapabilityRow, Tables}
use safe_play_guardian.Store.Exec.{World, Result, ok, err, Db, clock, query, each, ticked}
use safe_play_guardian.Store.Runs.{Done, bind_result-Done, exec-Done}

-- On the way through Upsert, from the tables `before`: the row is written, the other devices are as
-- before, and these identities and capabilities are there.
abbrev pub Stage :
    Tables → String → DeviceRow → List NetworkIdentity → List Capability → Tables → Type 0
Stage before id r is cs t =
    (row_at id t ≡ some r)
    × ((other : String) → other ≢ id → row_at other t ≡ row_at other before)
    × All (HasIdentity id t.network_identities) is
    × All (HasCapability id t.device_capabilities) cs

first_where-any :
    {A : Type 0} (p : A → Bool) (rows : List A) {x : A}
    → first_where p rows ≡ some x
    → any p rows ≡ true
unfolding first_where
first_where-any p [] h = cc
first_where-any p (y ∷ rows) {x} h = elim (Bool-cases (p y)) [
  | inl e ↦ rw e refl
  | inr e ↦ rw e (first_where-any p rows {x = x} (ground (arith, e, h)))
]

pub Done-imp :
    {A : Type 0} (Q R : A → Tables → Type 0) (p : Result A × Db)
    → ((a : A) (t : Tables) → Q a t → R a t)
    → Done Q p
    → Done R p
Done-imp Q R (ok a, s) f h = f a s.tables h
Done-imp Q R (err e, s) f h = h

module _ (w : World) (faultless : (n : ℕ) → w.fails n ≡ false) (before : Tables) (id : String)
    (r : DeviceRow) where
  add_identity-Stage :
      (i : NetworkIdentity) (is : List NetworkIdentity) (cs : List Capability) (s : Db)
      → Stage before id r is cs s.tables
      → Done (λ _. Stage before id r (i ∷ is) cs) (add_identity w id i s)
  unfolding add_identity touch_identity clock touch_row identity_of
  add_identity-Stage i is cs s (at, others, a, c) =
      let row : IdentityRow = record {
        device_id = id;
        kind = i.kind;
        value = i.value;
        last_seen = some (seen_or w i.last_seen (w.now s.tick));
      } in
      let rows = s.tables.network_identities in
      let t : Tables = record s.tables { network_identities = put_identity row rows } in
      let known = first_where-any (λ (d : DeviceRow). d.id == id) s.tables.devices at in
      let touched : touch_row row s.tables ≡ some t = rw (known, touch_row) refl in
      exec-Done w faultless (touch_row row) (Stage before id r (i ∷ is) cs) (ticked s) (
        t,
        touched,
        (
          at,
          others,
          (
            put_identity-writes row rows,
            All-under (HasIdentity id rows) (HasIdentity id (put_identity row rows)) is
                (λ j k. put_identity-keeps row id j rows k) a,
          ),
          c,
        ),
      )

  add_capability-Stage :
      (c : Capability) (is : List NetworkIdentity) (cs : List Capability) (s : Db)
      → Stage before id r is cs s.tables
      → Done (λ _. Stage before id r is (c ∷ cs)) (add_capability w id c s)
  unfolding add_capability capability_row
  add_capability-Stage c is cs s (at, others, a, b) =
      let row : CapabilityRow = record { device_id = id; capability = c } in
      let rows = s.tables.device_capabilities in
      let t : Tables = record s.tables { device_capabilities = put_capability row rows } in
      let known = first_where-any (λ (d : DeviceRow). d.id == id) s.tables.devices at in
      let added : capability_row row s.tables ≡ some t = rw (known, capability_row) refl in
      exec-Done w faultless (capability_row row) (Stage before id r is (c ∷ cs)) s (
        t,
        added,
        (
          at,
          others,
          a,
          (
            put_capability-writes row rows,
            All-under (HasCapability id rows) (HasCapability id (put_capability row rows)) cs
                (λ d k. put_capability-keeps row id d rows k) b,
          ),
        ),
      )

  -- The loops over the identities and the capabilities.
  abbrev pub More : List NetworkIdentity → List NetworkIdentity → Tables → Type 0
  More xs is t = Stage before id r is [] t × All (HasIdentity id t.network_identities) xs

  pub identities-More :
      (xs is : List NetworkIdentity) (s : Db)
      → Stage before id r is [] s.tables
      → Done (λ _. More xs is) (each (add_identity w id) xs s)
  unfolding each
  identities-More [] is s h = (h, tt)
  identities-More (x ∷ xs) is s h =
      bind_result-Done (λ _. Stage before id r (x ∷ is) []) (λ _. More (x ∷ xs) is)
        (add_identity w id x s) (λ _. each (add_identity w id) xs) (add_identity-Stage x is [] s h)
        (λ _ u j.
          Done-imp (λ _. More xs (x ∷ is)) (λ _. More (x ∷ xs) is) (each (add_identity w id) xs u)
            (λ _ t ((at, others, (k, a), c), b). ((at, others, a, c), (k, b)))
            (identities-More xs (x ∷ is) u j))

  abbrev pub MoreCaps : List NetworkIdentity → List Capability → List Capability → Tables → Type 0
  MoreCaps is xs cs t = Stage before id r is cs t × All (HasCapability id t.device_capabilities) xs

  pub caps-MoreCaps :
      (is : List NetworkIdentity) (xs cs : List Capability) (s : Db)
      → Stage before id r is cs s.tables
      → Done (λ _. MoreCaps is xs cs) (each (add_capability w id) xs s)
  unfolding each
  caps-MoreCaps is [] cs s h = (h, tt)
  caps-MoreCaps is (x ∷ xs) cs s h =
      bind_result-Done (λ _. Stage before id r is (x ∷ cs)) (λ _. MoreCaps is (x ∷ xs) cs)
        (add_capability w id x s) (λ _. each (add_capability w id) xs)
        (add_capability-Stage x is cs s h)
        (λ _ u j.
          Done-imp (λ _. MoreCaps is xs (x ∷ cs)) (λ _. MoreCaps is (x ∷ xs) cs)
            (each (add_capability w id) xs u)
            (λ _ t ((at, others, a, (k, c)), b). ((at, others, a, c), (k, b)))
            (caps-MoreCaps is xs (x ∷ cs) u j))

  -- What Get reads.
  abbrev pub Read : Tables → Device → Tables → Type 0
  Read u e t =
      (t ≡ u) × (row_of e ≡ r) × (e.identities ≡ identities_of r.id u) × (e.caps ≡ caps_of r.id u)

  pub get-Read : (s : Db) → row_at id s.tables ≡ some r → Done (Read s.tables) (get w id s)
  unfolding get scanned attach_children scan_device query
  get-Read s at =
      rw (faultless s.tick, at, faultless (s.tick + 1), faultless (s.tick + 1 + 1))
        (refl, refl, refl, refl)
