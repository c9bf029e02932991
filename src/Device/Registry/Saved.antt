-- ===== src/Device/Registry/Saved.antt =====
-- internal/device/sqlite.go: Upsert saves the whole device, and Get reads it back.
use mathlib.Core.List.{Memᴰ}
use safe_play_guardian.Prelude.{
  ℕ, ◌≡◌, ◌≢◌, refl, ap, sym, ◌∙◌, subst, String, true, false, ◌==◌, string_eq, eq_iff, Bool-cases,
  ◌⊎◌, inl, inr, some, List, [], ◌∷◌, map, All, arith, if◌then◌else◌,
}
use safe_play_guardian.Device.Model.{Device, NetworkIdentity, state_active}
use safe_play_guardian.Device.Rows.{
  text_le, upsert_row, row_of, identity_of, identity_le, has_person, put_device,
}
use safe_play_guardian.Device.Rows.Sorted.{All-under, where_-mem, order_by-mem}
use safe_play_guardian.Device.Registry.{get, choose_id, upsert_as, upsert}
use safe_play_guardian.Device.Registry.Tokens.{row_at}
use safe_play_guardian.Device.Registry.Writes.{row_at-put, row_at-put_other}
use safe_play_guardian.Device.Registry.Kept.{HasIdentity, HasCapability}
use safe_play_guardian.Device.Registry.Stages.{
  Stage, More, MoreCaps, Read, Done-imp, identities-More, caps-MoreCaps, get-Read,
}
use safe_play_guardian.Store.Tables.{DeviceRow, IdentityRow, CapabilityRow, Tables}
use safe_play_guardian.Store.Exec.{World, Db, draw, ticked}
use safe_play_guardian.Store.Runs.{Done, bind_result-Done, exec-Done}

-- The device that Upsert answers with, and the tables that it leaves.
pub record Saved (before : Tables) (d e : Device) (t : Tables) : Type 0 where
  pub has_id : (d.id ≡ "") ⊎ (e.id ≡ d.id)
  pub has_owner : e.person_id ≡ d.person_id
  pub has_label : e.label ≡ d.label
  pub has_kind : e.kind ≡ d.kind
  pub has_token : e.agent_token ≡ d.agent_token
  pub has_state : ((d.state ≡ "") × (e.state ≡ "active")) ⊎ ((d.state ≢ "") × (e.state ≡ d.state))
  pub has_last_seen : e.last_seen ≡ d.last_seen
  pub has_row : row_at e.id t ≡ some (row_of e)
  pub has_identities :
      All
        (λ i. (j : NetworkIdentity) × Memᴰ j e.identities × (j.kind ≡ i.kind) × (j.value ≡ i.value))
        d.identities
  pub has_caps : All (λ c. Memᴰ c e.caps) d.caps
  pub others : (id : String) → id ≢ e.id → row_at id t ≡ row_at id before

map-mem : {A B : Type 0} (f : A → B) {x : A} (xs : List A) → Memᴰ x xs → Memᴰ (f x) (map f xs)
map-mem f [] m = elim m [ ]
map-mem f (y ∷ ys) (Memᴰ.head e) = Memᴰ.head (ap f e)
map-mem f (y ∷ ys) (Memᴰ.tail m) = Memᴰ.tail (map-mem f ys m)

module _ (w : World) (faultless : (n : ℕ) → w.fails n ≡ false) (before : Tables) (d : Device)
    (id : String) where
  abbrev written : DeviceRow
  written = record (row_of d) { id = id; state = if d.state == "" then state_active else d.state }

  Read-Saved :
      (e : Device) (t u : Tables)
      → (d.id ≡ "") ⊎ (id ≡ d.id)
      → MoreCaps w faultless before id written d.identities d.caps [] u
      → Read w faultless before id written u e t
      → Saved before d e t
  unfolding identity_of
  Read-Saved e t u named ((at, others, a, z), c) (same, row, is, cs) =
      subst (λ x. Saved before d e x) (sym same)
        (record {
          has_id = elim named [ inl k ↦ inl k | inr k ↦ inr (ids ∙ k) ];
          has_owner = ap (λ (x : DeviceRow). x.person_id) row;
          has_label = ap (λ (x : DeviceRow). x.label) row;
          has_kind = ap (λ (x : DeviceRow). x.kind) row;
          has_token = ap (λ (x : DeviceRow). x.agent_token) row;
          has_state = state (Bool-cases (d.state == ""));
          has_last_seen = ap (λ (x : DeviceRow). x.last_seen) row;
          has_row = subst (λ k. row_at k u ≡ some (row_of e)) (sym ids) (at ∙ ap some (sym row));
          has_identities =
              All-under (HasIdentity id u.network_identities)
                (λ i.
                  (j : NetworkIdentity) × Memᴰ j e.identities
                  × (j.kind ≡ i.kind)
                  × (j.value ≡ i.value))
                d.identities
                (λ i (x, m, b, k, v). (
                  identity_of x,
                  subst (λ js. Memᴰ (identity_of x) js) (sym is)
                      (order_by-mem identity_le _ (
                        map-mem identity_of _ (
                          where_-mem (λ (r : IdentityRow). r.device_id == id) u.network_identities
                            ((eq_iff x.device_id id).1 b) m))),
                  k,
                  v,
                ))
                a;
          has_caps =
              All-under (HasCapability id u.device_capabilities) (λ k. Memᴰ k e.caps) d.caps
                (λ k (x, m, b, q).
                  subst (λ j. Memᴰ j e.caps) q
                    (subst (λ js. Memᴰ x.capability js) (sym cs)
                      (order_by-mem text_le _ (
                        map-mem (λ (r : CapabilityRow). r.capability) _
                          (where_-mem (λ (r : CapabilityRow). r.device_id == id)
                            u.device_capabilities ((eq_iff x.device_id id).1 b) m)))))
                c;
          others = λ o h. others o (λ q. h (q ∙ sym ids));
        })
    where
      ids : e.id ≡ id
      ids = ap (λ (x : DeviceRow). x.id) row

      chosen : e.state ≡ (if d.state == "" then state_active else d.state)
      chosen = ap (λ (x : DeviceRow). x.state) row

      state :
          ((d.state == "") ≡ true) ⊎ ((d.state == "") ≡ false)
          → ((d.state ≡ "") × (e.state ≡ "active")) ⊎ ((d.state ≢ "") × (e.state ≡ d.state))
      state (inl q) = inl ((eq_iff d.state "").0 q, ground (arith, chosen, q))
      state (inr q) =
          inr (λ k. ground (arith, q, (eq_iff d.state "").1 k), ground (arith, chosen, q))

  upsert_as-Saved :
      (s : Db)
      → s.tables ≡ before
      → (d.id ≡ "") ⊎ (id ≡ d.id)
      → has_person s.tables.people d.person_id ≡ true
      → Done (Saved before d) (upsert_as w d id s)
  unfolding upsert_as upsert_row
  upsert_as-Saved s start named owner =
      let t : Tables = record s.tables { devices = put_device written s.tables.devices } in
      let put : upsert_row written s.tables ≡ some t = rw owner refl in
      bind_result-Done (λ _. Stage before id written [] []) (Saved before d) _ _
        (exec-Done w faultless (upsert_row written) (Stage before id written [] []) s (
          t,
          put,
          (
            row_at-put written s.tables,
            λ o h. row_at-put_other written s.tables o (λ e. h (sym e)) ∙ ap (row_at o) start,
            tt,
            tt,
          ),
        ))
        (λ _ u h.
          bind_result-Done (λ _. More w faultless before id written d.identities [])
            (Saved before d) _ _ (identities-More w faultless before id written d.identities [] u h)
            (λ _ v ((at, others, z, c), a).
              bind_result-Done (λ _. MoreCaps w faultless before id written d.identities d.caps [])
                (Saved before d) _ _
                (caps-MoreCaps w faultless before id written d.identities d.caps [] v
                  (at, others, a, tt))
                (λ _ x k.
                  Done-imp (Read w faultless before id written x.tables) (Saved before d)
                    (get w id x) (λ e y l. Read-Saved e y x.tables named k l)
                    (get-Read w faultless before id written x k.0.0))))

-- Where no statement fails and the device's owner, if any, is a person of the tables, Upsert
-- succeeds. The device that it answers with has the given identity, if one was given, and the
-- given owner, label, kind, token, time of the last sighting and state, or the active state where
-- none was given; its row is the one in the tables; it has every given identity (by kind and
-- value) and every given capability; and the row of every other device is as before.
pub upsert-Saved :
    (w : World) (d : Device) (s : Db)
    → ((n : ℕ) → w.fails n ≡ false)
    → has_person s.tables.people d.person_id ≡ true
    → Done (Saved s.tables d) (upsert w d s)
unfolding upsert choose_id draw
upsert-Saved w d s faultless owner = elim (Bool-cases (d.id == "")) [
  | inl e ↦
      rw e (
        upsert_as-Saved w faultless s.tables d _ (ticked s) refl (inl ((eq_iff d.id "").0 e)) owner)
  | inr e ↦ rw e (upsert_as-Saved w faultless s.tables d d.id s refl (inr refl) owner)
]
