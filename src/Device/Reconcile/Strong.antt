-- ===== src/Device/Reconcile/Strong.antt =====
-- A sighting with a strong match goes to the device that the match names.
use safe_play_guardian.Prelude.{
  ℕ, ◌≡◌, refl, subst, if◌then◌else◌, String, false, not, ◌&&◌, ◌==◌, string_eq, nat_eq, Bool-cases,
  inl, inr, Option, none, some,
}
use safe_play_guardian.Device.Model.{Observation, identity_agent, identity_mac}
use safe_play_guardian.Device.Mac.{is_randomized_mac}
use safe_play_guardian.Device.Reconcile.{
  owner_by_token, owner_by_identity, find_device_by_agent_token, find_by_identity, by_token,
  by_agent, by_mac, found_or, strong_match,
}
use safe_play_guardian.Store.Tables.{Tables}
use safe_play_guardian.Store.Exec.{World, Db, M, ◌>>=◌}
use safe_play_guardian.Store.Runs.{Done, bind_result-Done, query-Done}

abbrev pub first_some : Option String → Option String → Option String
first_some (some id) o = some id
first_some none o = o

abbrev pub token_owner : Observation → Tables → Option String
token_owner obs t = if obs.agent_token == "" then none else owner_by_token obs.agent_token t.devices

abbrev pub agent_owner : Observation → Tables → Option String
agent_owner obs t =
    if obs.agent_id == ""
    then none
    else owner_by_identity identity_agent obs.agent_id t.network_identities

abbrev pub mac_owner : Observation → Tables → Option String
mac_owner obs t =
    if not (obs.mac == "") && not (is_randomized_mac obs.mac)
    then owner_by_identity identity_mac obs.mac t.network_identities
    else none

-- The device of the token; else that of the agent identity; else that of a burned-in MAC.
abbrev pub strongest : Observation → Tables → Option String
strongest obs t = first_some (token_owner obs t) (first_some (agent_owner obs t) (mac_owner obs t))

-- The answer is o, and the tables are t.
abbrev pub Finds : Option String → Tables → Option String → Tables → Type 0
Finds o t a u = (u ≡ t) × (a ≡ o)

module _ (w : World) (faultless : (n : ℕ) → w.fails n ≡ false) (obs : Observation) where
  by_token-Finds : (s : Db) → Done (Finds (token_owner obs s.tables) s.tables) (by_token w obs s)
  unfolding by_token find_device_by_agent_token
  by_token-Finds s = elim (Bool-cases (obs.agent_token == "")) [
    | inl e ↦ rw e (refl, refl)
    | inr e ↦ rw e (query-Done w faultless _ s)
  ]

  by_agent-Finds : (s : Db) → Done (Finds (agent_owner obs s.tables) s.tables) (by_agent w obs s)
  unfolding by_agent find_by_identity
  by_agent-Finds s = elim (Bool-cases (obs.agent_id == "")) [
    | inl e ↦ rw e (refl, refl)
    | inr e ↦ rw e (query-Done w faultless _ s)
  ]

  by_mac-Finds : (s : Db) → Done (Finds (mac_owner obs s.tables) s.tables) (by_mac w obs s)
  unfolding by_mac find_by_identity
  by_mac-Finds s = elim (Bool-cases (not (obs.mac == "") && not (is_randomized_mac obs.mac))) [
    | inl e ↦ rw e (query-Done w faultless _ s)
    | inr e ↦ rw e (refl, refl)
  ]

  found_or-Finds :
      (next : M (Option String)) (o p : Option String) (t : Tables)
      → ((s : Db) → s.tables ≡ t → Done (Finds p t) (next s))
      → (a : Option String) (s : Db) → Finds o t a s.tables
      → Done (Finds (first_some o p) t) (found_or w next a s)
  found_or-Finds next (some id) p t h a s (e, f) = rw f (e, refl)
  found_or-Finds next none p t h a s (e, f) = rw f (h s e)

  pub strong_match-Finds :
      (s : Db) → Done (Finds (strongest obs s.tables) s.tables) (strong_match w obs s)
  unfolding strong_match
  strong_match-Finds s =
      let t = s.tables in
      bind_result-Done _ _ (by_token w obs s)
        (found_or w (by_agent w obs >>= found_or w (by_mac w obs))) (by_token-Finds s)
        (found_or-Finds _ _ _ t (λ u e.
          bind_result-Done _ _ (by_agent w obs u) (found_or w (by_mac w obs))
            (subst (λ x. Done (Finds (agent_owner obs x) x) (by_agent w obs u)) e
              (by_agent-Finds u))
            (found_or-Finds _ _ _ t (λ v f.
              subst (λ x. Done (Finds (mac_owner obs x) x) (by_mac w obs v)) f (by_mac-Finds v)))))
