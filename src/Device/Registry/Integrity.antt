-- ===== src/Device/Registry/Integrity.antt =====
-- internal/device/sqlite.go: what Get and Upsert keep of the tables, whichever statements fail.
use safe_play_guardian.Prelude.{
  ℕ, ◌≡◌, refl, String, Bool, true, ◌==◌, string_eq, nat_eq, eq_iff, Bool-cases, inl, inr, Option,
  none, some, List, [], ◌∷◌, arith, ap,
}
use safe_play_guardian.Device.Model.{Device, IdentityKind, Capability, NetworkIdentity}
use safe_play_guardian.Device.Rows.{has_device, first_where, identities_of, caps_of, scan_device}
use safe_play_guardian.Device.Registry.{
  get, scanned, attach_children, touch_identity, add_identity, add_capability, choose_id, upsert_as,
  upsert, seen_or,
}
use safe_play_guardian.Device.Consistent.{IsConsistent}
use safe_play_guardian.Device.Consistent.Statements.{
  Has, upsert_row-Has, touch_row-Has, capability_row-Has,
}
use safe_play_guardian.Store.Tables.{DeviceRow, Tables}
use safe_play_guardian.Store.Exec.{World, Db, query, clock}
use safe_play_guardian.Store.Keeps.{
  Post, Ensures, Nothing, >>=-Ensures, >>=-keeps, query-Ensures, query-keeps, exec-Ensures,
  exec-keeps, clock-keeps, draw-keeps, each-keeps, strengthen,
}

pub first_where-holds :
    {A : Type 0} (p : A → Bool) (rows : List A) {x : A} → first_where p rows ≡ some x → p x ≡ true
unfolding first_where
first_where-holds p [] h = cc
first_where-holds p (y ∷ rows) h = elim (Bool-cases (p y)) [
  | inl e ↦ ground (arith, ap (λ (o : Option _). o) h)
  | inr e ↦ first_where-holds p rows (ground arith)
]

module _ (w : World) (id : String) where
  pub touch_identity-keeps :
      (at : String) (kind : IdentityKind) (value : String) (seen : ℕ)
      → Ensures (Has id) (touch_identity w at kind value seen) Nothing
  unfolding touch_identity
  touch_identity-keeps at kind value seen = exec-keeps (Has id) w _ (touch_row-Has id _)

  pub add_capability-keeps :
      (at : String) (c : Capability) → Ensures (Has id) (add_capability w at c) Nothing
  unfolding add_capability
  add_capability-keeps at c = exec-keeps (Has id) w _ (capability_row-Has id _)

  add_identity-keeps :
      (at : String) (i : NetworkIdentity) → Ensures (Has id) (add_identity w at i) Nothing
  unfolding add_identity
  add_identity-keeps at i =
      >>=-keeps (Has id) Nothing (clock w) _ (clock-keeps (Has id) w)
        (λ now. touch_identity-keeps at i.kind i.value (seen_or w i.last_seen now))

  get-Ensures : Ensures (Has id) (get w id) (λ d t. d.id ≡ id)
  unfolding get scanned attach_children scan_device
  get-Ensures =
      >>=-Ensures (Has id) (λ o t. (r : DeviceRow) → o ≡ some r → r.id ≡ id) (λ d t. d.id ≡ id)
        (query w (λ t. first_where (λ (d : DeviceRow). d.id == id) t.devices)) (scanned w)
        (query-Ensures (Has id) w _ _ (λ t h r e.
          (eq_iff r.id id).0 (first_where-holds (λ (d : DeviceRow). d.id == id) t.devices e)))
        found
    where
      found :
          (o : Option DeviceRow) (s : Db)
          → Has id s.tables
          → ((r : DeviceRow) → o ≡ some r → r.id ≡ id)
          → Post (Has id) (λ d t. d.id ≡ id) (scanned w o s)
      found none s h q = h
      found (some r) s h q =
          >>=-keeps (Has id) (λ d t. d.id ≡ id) (query w (identities_of r.id)) _
            (query-keeps (Has id) w (identities_of r.id))
            (λ is.
              >>=-keeps (Has id) (λ d t. d.id ≡ id) (query w (caps_of r.id)) _
                (query-keeps (Has id) w (caps_of r.id)) (λ cs u i. (i, q r refl)))
            s h

  -- Get of any device.
  pub get_of-keeps : (at : String) → Ensures (Has id) (get w at) Nothing
  unfolding get scanned attach_children scan_device
  get_of-keeps at =
      >>=-keeps (Has id) Nothing
        (query w (λ t. first_where (λ (d : DeviceRow). d.id == at) t.devices)) (scanned w)
        (query-keeps (Has id) w _) found
    where
      found : (o : Option DeviceRow) → Ensures (Has id) (scanned w o) Nothing
      found none s h = h
      found (some r) s h =
          >>=-keeps (Has id) Nothing (query w (identities_of r.id)) _
            (query-keeps (Has id) w (identities_of r.id))
            (λ is.
              >>=-keeps (Has id) Nothing (query w (caps_of r.id)) _
                (query-keeps (Has id) w (caps_of r.id)) (λ cs u i. (i, tt)))
            s h

-- The device of the result is in the tables.
abbrev pub IsThere : String → Tables → Type 0
IsThere id t = has_device t.devices id ≡ true

module _ (w : World) where
  choose_id-keeps : (id : String) → Ensures IsConsistent (choose_id w id) Nothing
  unfolding choose_id
  choose_id-keeps id s i = elim (Bool-cases (id == "")) [
    | inl e ↦ rw e (draw-keeps IsConsistent w s i)
    | inr e ↦ rw e (i, tt)
  ]

  upsert_as-Ensures :
      (d : Device) (id : String) → Ensures IsConsistent (upsert_as w d id) (λ e t. IsThere e.id t)
  unfolding upsert_as
  upsert_as-Ensures d id =
      >>=-Ensures IsConsistent (λ _. Has id) (λ e t. IsThere e.id t) _ _
        (exec-Ensures IsConsistent w _ (λ _. Has id)
          (λ t t' c e. let h = upsert_row-Has _ t t' c e in (h.0, h)))
        (λ _ s i h.
          strengthen IsConsistent (Has id) (λ t k. k.0) (λ e t. e.id ≡ id) (λ e t. IsThere e.id t)
            (λ e t k q. rw q k.1) _
            (>>=-keeps (Has id) (λ e t. e.id ≡ id) _ _
              (each-keeps (Has id) (add_identity w id) d.identities (add_identity-keeps w id id))
              (λ _.
                >>=-keeps (Has id) (λ e t. e.id ≡ id) _ _
                  (each-keeps (Has id) (add_capability w id) d.caps (add_capability-keeps w id id))
                  (λ _. get-Ensures w id))
              s h))

  pub upsert-Ensures : (d : Device) → Ensures IsConsistent (upsert w d) (λ e t. IsThere e.id t)
  unfolding upsert
  upsert-Ensures d =
      >>=-keeps IsConsistent (λ e t. IsThere e.id t) (choose_id w d.id) (upsert_as w d)
        (choose_id-keeps d.id) (upsert_as-Ensures d)
