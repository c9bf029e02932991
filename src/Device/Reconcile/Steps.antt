-- ===== src/Device/Reconcile/Steps.antt =====
-- Each step of Reconcile keeps the tables consistent and removes no device.
use safe_play_guardian.Prelude.{
  ℕ, if◌then◌else◌, String, Bool, true, false, ◌==◌, string_eq, nat_eq, Bool-cases, inl, inr, List,
}
use safe_play_guardian.Device.Model.{
  Observation, IdentityKind, Capability, identity_agent, identity_mac, identity_ip,
  identity_hostname,
}
use safe_play_guardian.Device.Registry.{add_capability}
use safe_play_guardian.Device.Reconcile.{
  seen_of, touch_unless_empty, merge_observation, create_pending_merge,
}
use safe_play_guardian.Device.Consistent.Statements.{Has, pending_row-Has, last_seen_row-Has}
use safe_play_guardian.Store.Tables.{Tables}
use safe_play_guardian.Store.Exec.{World, return, each}
use safe_play_guardian.Store.Keeps.{
  Ensures, Nothing, >>=-keeps, exec-keeps, clock-keeps, each-keeps,
}
use safe_play_guardian.Device.Registry.Integrity.{touch_identity-keeps, add_capability-keeps}

pub seen_of-keeps :
    (w : World) (I : Tables → Type 0) (obs : Observation) → Ensures I (seen_of w obs) Nothing
unfolding seen_of
seen_of-keeps w I obs s i = elim (Bool-cases (obs.seen_at == 0)) [
  | inl e ↦ rw e (clock-keeps I w s i)
  | inr e ↦ rw e (i, tt)
]

module _ (w : World) (id : String) where
  touch_unless_empty-keeps :
      (at : String) (kind : IdentityKind) (value : String) (seen : ℕ)
      → Ensures (Has id) (touch_unless_empty w at kind value seen) Nothing
  unfolding touch_unless_empty
  touch_unless_empty-keeps at kind value seen s i = elim (Bool-cases (value == "")) [
    | inl e ↦ rw e (i, tt)
    | inr e ↦ rw e (touch_identity-keeps w id at kind value seen s i)
  ]

  caps_if_agent-keeps :
      (b : Bool) (at : String) (cs : List Capability)
      → Ensures (Has id) (if b then each (add_capability w at) cs else return tt) Nothing
  caps_if_agent-keeps true at cs s i =
      each-keeps (Has id) (add_capability w at) cs (add_capability-keeps w id at) s i
  caps_if_agent-keeps false at cs s i = (i, tt)

  pub merge_observation-keeps :
      (at : String) (obs : Observation) → Ensures (Has id) (merge_observation w at obs) Nothing
  unfolding merge_observation
  merge_observation-keeps at obs =
      >>=-keeps (Has id) Nothing (seen_of w obs) _ (seen_of-keeps w (Has id) obs) (λ seen.
        >>=-keeps (Has id) Nothing _ _
          (touch_unless_empty-keeps at identity_agent obs.agent_id seen)
          (λ _.
            >>=-keeps (Has id) Nothing _ _ (touch_unless_empty-keeps at identity_mac obs.mac seen)
              (λ _.
                >>=-keeps (Has id) Nothing _ _ (touch_unless_empty-keeps at identity_ip obs.ip seen)
                  (λ _.
                    >>=-keeps (Has id) Nothing _ _
                      (touch_unless_empty-keeps at identity_hostname obs.hostname seen)
                      (λ _.
                        >>=-keeps (Has id) Nothing _ _
                          (caps_if_agent-keeps (obs.source == "agent") at obs.caps)
                          (λ _. exec-keeps (Has id) w _ (last_seen_row-Has id seen at)))))))

  pub create_pending_merge-keeps :
      (source : String) (ids : List String)
      → Ensures (Has id) (create_pending_merge w source ids) Nothing
  unfolding create_pending_merge
  create_pending_merge-keeps source ids = exec-keeps (Has id) w _ (pending_row-Has id _)
