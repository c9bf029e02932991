-- ===== src/Device/Reconcile/Recorded.antt =====
-- A sighting with a strong match is recorded with the device that the match names.
use safe_play_guardian.Prelude.{
  ℕ, ◌≡◌, refl, ◌∙◌, if◌then◌else◌, String, Bool, true, false, ◌==◌, string_eq, nat_eq, eq_refl,
  Bool-cases, inl, inr, none, some, List, [], ◌∷◌, All, arith,
}
use safe_play_guardian.Device.Model.{
  Observation, IdentityKind, Capability, identity_agent, identity_mac, identity_ip,
  identity_hostname,
}
use safe_play_guardian.Device.Rows.{
  put_identity, put_capability, set_last_seen, touch_row, capability_row, last_seen_row,
}
use safe_play_guardian.Device.Registry.{touch_identity, add_capability}
use safe_play_guardian.Device.Reconcile.{seen_of, touch_unless_empty, merge_observation}
use safe_play_guardian.Device.Consistent.Statements.{
  touch_row-Has, capability_row-Has, last_seen_row-Has,
}
use safe_play_guardian.Store.Tables.{IdentityRow, CapabilityRow, Tables}
use safe_play_guardian.Store.Exec.{World, Db, M, ◌>>◌, return, each, exec, clock}
use safe_play_guardian.Store.Runs.{Done, bind_result-Done, exec-Done, each-Done}
use safe_play_guardian.Device.Reconcile.Signals.{
  heard, any-same_identity-put_identity, ids-set_last_seen, signals, Stage,
}

module _ (w : World) (faultless : (n : ℕ) → w.fails n ≡ false) (id : String)
    (ids : List String) where
  heard-put_identity :
      (i : IdentityRow) (rows : List IdentityRow) (ps : List (IdentityKind × String))
      → All (λ (p : IdentityKind × String). heard id p rows ≡ true) ps
      → All (λ (p : IdentityKind × String). heard id p (put_identity i rows) ≡ true) ps
  heard-put_identity i rows [] h = tt
  heard-put_identity i rows ((k, v) ∷ ps) (p, h) = (
    ground (
      arith,
      any-same_identity-put_identity i
          (record { device_id = id; kind = k; value = v; last_seen = none }) rows,
    ),
    heard-put_identity i rows ps h,
  )

  touch_identity-Stage :
      (kind : IdentityKind) (value : String) (seen : ℕ) (ps : List (IdentityKind × String)) (s : Db)
      → Stage id ids ps s.tables
      → Done (λ _. Stage id ids ((kind, value) ∷ ps)) (touch_identity w id kind value seen s)
  unfolding touch_identity touch_row
  touch_identity-Stage kind value seen ps s (h, (e, a)) =
      let i : IdentityRow = record {
        device_id = id;
        kind = kind;
        value = value;
        last_seen = some seen;
      } in
      let t : Tables = record s.tables {
        network_identities = put_identity i s.tables.network_identities;
      } in
      let touched : touch_row i s.tables ≡ some t = rw (h.1, touch_row) refl in
      exec-Done w faultless (touch_row i) (Stage id ids ((kind, value) ∷ ps)) s (
        t,
        touched,
        (
          touch_row-Has id i s.tables t h touched,
          (
            e,
            (
              ground (
                arith,
                any-same_identity-put_identity i
                    (record { device_id = id; kind = kind; value = value; last_seen = none })
                    s.tables.network_identities,
                eq_refl id,
                eq_refl kind,
                eq_refl value,
              ),
              heard-put_identity i s.tables.network_identities ps a,
            ),
          ),
        ),
      )

  touch_unless_empty-Stage :
      (kind : IdentityKind) (value : String) (seen : ℕ) (ps : List (IdentityKind × String)) (s : Db)
      → Stage id ids ps s.tables
      → Done (λ _. Stage id ids ((kind, value) ∷ ps)) (touch_unless_empty w id kind value seen s)
  unfolding touch_unless_empty
  touch_unless_empty-Stage kind value seen ps s (h, (e, a)) = elim (Bool-cases (value == "")) [
    | inl f ↦ rw f (h, (e, (ground arith, a)))
    | inr f ↦ rw f (touch_identity-Stage kind value seen ps s (h, (e, a)))
  ]

  add_capability-Stage :
      (c : Capability) (ps : List (IdentityKind × String)) (s : Db)
      → Stage id ids ps s.tables
      → Done (λ _. Stage id ids ps) (add_capability w id c s)
  unfolding add_capability capability_row
  add_capability-Stage c ps s (h, (e, a)) =
      let row : CapabilityRow = record { device_id = id; capability = c } in
      let t : Tables = record s.tables {
        device_capabilities = put_capability row s.tables.device_capabilities;
      } in
      let added : capability_row row s.tables ≡ some t = rw (h.1, capability_row) refl in
      exec-Done w faultless (capability_row row) (Stage id ids ps) s
        (t, added, (capability_row-Has id row s.tables t h added, (e, a)))

  last_seen-Stage :
      (seen : ℕ) (ps : List (IdentityKind × String)) (s : Db)
      → Stage id ids ps s.tables
      → Done (λ _. Stage id ids ps) (exec w (last_seen_row seen id) s)
  unfolding last_seen_row
  last_seen-Stage seen ps s (h, (e, a)) =
      let t : Tables = record s.tables { devices = set_last_seen seen id s.tables.devices } in
      exec-Done w faultless (last_seen_row seen id) (Stage id ids ps) s (
        t,
        refl,
        (
          last_seen_row-Has id seen id s.tables t h refl,
          (ids-set_last_seen seen id s.tables.devices ∙ e, a),
        ),
      )

  caps_if_agent-Stage :
      (b : Bool) (cs : List Capability) (ps : List (IdentityKind × String)) (s : Db)
      → Stage id ids ps s.tables
      → Done (λ _. Stage id ids ps) ((if b then each (add_capability w id) cs else return tt) s)
  caps_if_agent-Stage true cs ps s h =
      each-Done w faultless (add_capability w id) (Stage id ids ps) cs s
        (λ c u k. add_capability-Stage c ps u k) h
  caps_if_agent-Stage false cs ps s h = h

  seen_of-Stage :
      (obs : Observation) (s : Db)
      → Stage id ids [] s.tables
      → Done (λ _. Stage id ids []) (seen_of w obs s)
  unfolding seen_of clock
  seen_of-Stage obs s h = elim (Bool-cases (obs.seen_at == 0)) [ inl e ↦ rw e h | inr e ↦ rw e h ]

  -- Two steps, one after the other.
  Stage-then :
      (ps qs rs : List (IdentityKind × String)) (m k : M (Unit {0}))
      → ((s : Db) → Stage id ids ps s.tables → Done (λ _. Stage id ids qs) (m s))
      → ((s : Db) → Stage id ids qs s.tables → Done (λ _. Stage id ids rs) (k s))
      → (s : Db) → Stage id ids ps s.tables
      → Done (λ _. Stage id ids rs) ((m >> k) s)
  Stage-then ps qs rs m k f g s h =
      bind_result-Done (λ _. Stage id ids qs) (λ _. Stage id ids rs) (m s) (λ _. k) (f s h)
        (λ _ u j. g u j)

  pub merge_observation-Stage :
      (obs : Observation) (s : Db)
      → Stage id ids [] s.tables
      → Done (λ _. Stage id ids (signals obs)) (merge_observation w id obs s)
  unfolding merge_observation
  merge_observation-Stage obs s h =
      let one : List (IdentityKind × String) = (identity_agent, obs.agent_id) ∷ [] in
      let two : List (IdentityKind × String) = (identity_mac, obs.mac) ∷ one in
      let three : List (IdentityKind × String) = (identity_ip, obs.ip) ∷ two in
      let all : List (IdentityKind × String) = signals obs in
      bind_result-Done (λ _. Stage id ids []) (λ _. Stage id ids all) (seen_of w obs s) _
        (seen_of-Stage obs s h)
        (λ seen u j.
          Stage-then [] one all _ _ (touch_unless_empty-Stage identity_agent obs.agent_id seen [])
            (Stage-then one two all _ _ (touch_unless_empty-Stage identity_mac obs.mac seen one) (
              Stage-then two three all _ _ (touch_unless_empty-Stage identity_ip obs.ip seen two) (
                Stage-then three all all _ _
                  (touch_unless_empty-Stage identity_hostname obs.hostname seen three)
                  (Stage-then all all all _ _
                    (caps_if_agent-Stage (obs.source == "agent") obs.caps all)
                    (last_seen-Stage seen all)))))
            u j)
