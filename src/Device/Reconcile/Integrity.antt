-- ===== src/Device/Reconcile/Integrity.antt =====
-- Reconcile keeps the tables consistent and answers with a device that is there, whichever
-- statements fail.
use safe_play_guardian.Prelude.{
  ◌≡◌, refl, String, true, not, ◌&&◌, ◌==◌, string_eq, nat_eq, eq_iff, Bool-cases, inl, inr, Option,
  none, some, List, [], ◌∷◌, All, arith,
}
use safe_play_guardian.Device.Model.{Observation, IdentityKind, identity_agent, identity_mac}
use safe_play_guardian.Device.Mac.{is_randomized_mac}
use safe_play_guardian.Device.Rows.{has_device, first_where}
use safe_play_guardian.Device.Registry.{upsert}
use safe_play_guardian.Device.Reconcile.{
  token_is, owner_by_token, has_identity, owner_by_identity, device_of, seen_of, merge_observation,
  create_from_observation, create_pending_merge, find_weak_hits, find_device_by_agent_token,
  find_by_identity, by_token, by_agent, by_mac, found_or, strong_match, confident, settle,
  reconcile_weak, merge_or_weak, reconcile_impl, reconcile, observed,
}
use safe_play_guardian.Device.Consistent.{IsConsistent}
use safe_play_guardian.Device.Consistent.Statements.{Has}
use safe_play_guardian.Store.Tables.{DeviceRow, IdentityRow, Tables}
use safe_play_guardian.Store.Exec.{World, Result, ok, err, Db, M, ◌>>◌, return}
use safe_play_guardian.Store.Keeps.{
  Post, Ensures, Nothing, >>=-Ensures, >>=-keeps, query-Ensures, strengthen, >>=-Post,
}
use safe_play_guardian.Device.Registry.Integrity.{upsert-Ensures, IsThere}
use safe_play_guardian.Device.Reconcile.Candidates.{
  AllThere, HitsThere, find_weak_hits-Ensures, confident-Post,
}
use safe_play_guardian.Device.Reconcile.Steps.{
  seen_of-keeps, merge_observation-keeps, create_pending_merge-keeps,
}

-- The keys that owners, tokens and identities name are those of devices that are there.
owner_by_token-IsThere :
    (token : String) (rows : List DeviceRow) {id : String}
    → owner_by_token token rows ≡ some id
    → has_device rows id ≡ true
unfolding first_where
owner_by_token-IsThere token [] h = cc
owner_by_token-IsThere token (d ∷ rows) {id} h = elim (Bool-cases (token_is token d.agent_token)) [
  | inl e ↦ ground (arith, eq_iff d.id id)
  | inr e ↦ ground (arith, owner_by_token-IsThere token rows {id = id})
]

owner_by_identity-IsThere :
    (kind value : String) (devices : List DeviceRow) (rows : List IdentityRow) {id : String}
    → All (λ (i : IdentityRow). has_device devices i.device_id ≡ true) rows
    → owner_by_identity kind value rows ≡ some id
    → has_device devices id ≡ true
unfolding first_where
owner_by_identity-IsThere kind value devices [] a h = cc
owner_by_identity-IsThere kind value devices (r ∷ rows) {id} (q, a) h =
    elim (Bool-cases (has_identity kind value r)) [
      | inl e ↦ let same : r.device_id ≡ id = ground arith in rw same at q
      | inr e ↦ owner_by_identity-IsThere kind value devices rows a (ground arith)
    ]

-- A strong match, where there is one, is there.
abbrev pub Matched : Option String → Tables → Type 0
Matched none t = Unit
Matched (some id) t = IsThere id t

module _ (w : World) where
  find_by_identity-Ensures :
      (kind : IdentityKind) (value : String)
      → Ensures IsConsistent (find_by_identity w kind value) Matched
  unfolding find_by_identity
  find_by_identity-Ensures kind value =
      query-Ensures IsConsistent w _ Matched
        (λ t c. matched t c (owner_by_identity kind value t.network_identities) refl)
    where
      matched :
          (t : Tables)
          → IsConsistent t
          → (o : Option String) → owner_by_identity kind value t.network_identities ≡ o
          → Matched o t
      matched t c none e = tt
      matched t c (some id) e =
          owner_by_identity-IsThere kind value t.devices t.network_identities c.identity_owners e

  by_token-Ensures : (obs : Observation) → Ensures IsConsistent (by_token w obs) Matched
  unfolding by_token find_device_by_agent_token
  by_token-Ensures obs s i = elim (Bool-cases (obs.agent_token == "")) [
    | inl e ↦ rw e (i, tt)
    | inr e ↦ rw e (
        query-Ensures IsConsistent w (λ t. owner_by_token obs.agent_token t.devices) Matched
          (λ t c. matched t (owner_by_token obs.agent_token t.devices) refl) s i)
  ]
    where
      matched :
          (t : Tables)
          → (o : Option String) → owner_by_token obs.agent_token t.devices ≡ o
          → Matched o t
      matched t none e = tt
      matched t (some id) e = owner_by_token-IsThere obs.agent_token t.devices e

  by_agent-Ensures : (obs : Observation) → Ensures IsConsistent (by_agent w obs) Matched
  unfolding by_agent
  by_agent-Ensures obs s i = elim (Bool-cases (obs.agent_id == "")) [
    | inl e ↦ rw e (i, tt)
    | inr e ↦ rw e (find_by_identity-Ensures identity_agent obs.agent_id s i)
  ]

  by_mac-Ensures : (obs : Observation) → Ensures IsConsistent (by_mac w obs) Matched
  unfolding by_mac
  by_mac-Ensures obs s i =
      elim (Bool-cases (not (obs.mac == "") && not (is_randomized_mac obs.mac))) [
        | inl e ↦ rw e (find_by_identity-Ensures identity_mac obs.mac s i)
        | inr e ↦ rw e (i, tt)
      ]

  found_or-Ensures :
      (next : M (Option String))
      → Ensures IsConsistent next Matched
      → (o : Option String) (s : Db) → IsConsistent s.tables
      → Matched o s.tables
      → Post IsConsistent Matched (found_or w next o s)
  found_or-Ensures next h none s i m = h s i
  found_or-Ensures next h (some id) s i m = (i, m)

  pub strong_match-Ensures : (obs : Observation) → Ensures IsConsistent (strong_match w obs) Matched
  unfolding strong_match
  strong_match-Ensures obs =
      >>=-Ensures IsConsistent Matched Matched (by_token w obs) _ (by_token-Ensures obs) (
        found_or-Ensures _ (
          >>=-Ensures IsConsistent Matched Matched (by_agent w obs) _ (by_agent-Ensures obs)
            (found_or-Ensures (by_mac w obs) (by_mac-Ensures obs))))

  -- Merging into a device that is there answers with it.
  merged-Post :
      (id : String) (obs : Observation) (s : Db)
      → Has id s.tables
      → Post IsConsistent IsThere ((merge_observation w id obs >> return id) s)
  merged-Post id obs s h =
      strengthen IsConsistent (Has id) (λ t k. k.0) (λ a t. a ≡ id) IsThere (λ a t k q. rw q k.1) _
        (>>=-keeps (Has id) (λ a t. a ≡ id) (merge_observation w id obs) (λ _. return id)
          (merge_observation-keeps w id id obs) (λ _ u i. (i, refl)) s h)

  create_from_observation-Ensures :
      (obs : Observation) → Ensures IsConsistent (create_from_observation w obs) IsThere
  unfolding create_from_observation
  create_from_observation-Ensures obs =
      >>=-keeps IsConsistent IsThere (seen_of w obs) _ (seen_of-keeps w IsConsistent obs) (λ seen.
        >>=-Ensures IsConsistent (λ e t. IsThere e.id t) IsThere (upsert w (device_of obs seen)) _
          (upsert-Ensures w (device_of obs seen)) (λ e s i h. merged-Post e.id obs s (i, h)))

  settle-Ensures :
      (obs : Observation) (ids : List String) (s : Db)
      → IsConsistent s.tables
      → AllThere ids s.tables
      → Post IsConsistent IsThere (settle w obs ids s)
  unfolding settle
  settle-Ensures obs [] s i h = create_from_observation-Ensures obs s i
  settle-Ensures obs (id ∷ []) s i h = merged-Post id obs s (i, h.0)
  settle-Ensures obs (id ∷ other ∷ more) s i h =
      >>=-Ensures IsConsistent IsThere IsThere (create_from_observation w obs) _
        (create_from_observation-Ensures obs)
        (λ new u c q.
          strengthen IsConsistent (Has new) (λ t k. k.0) (λ a t. a ≡ new) IsThere
            (λ a t k e. rw e k.1) _
            (>>=-keeps (Has new) (λ a t. a ≡ new) (create_pending_merge w new (id ∷ other ∷ more))
              (λ _. return new) (create_pending_merge-keeps w new new (id ∷ other ∷ more))
              (λ _ v k. (k, refl)) u (c, q)))
        s i

  reconcile_weak-Ensures : (obs : Observation) → Ensures IsConsistent (reconcile_weak w obs) IsThere
  unfolding reconcile_weak
  reconcile_weak-Ensures obs =
      >>=-Ensures IsConsistent HitsThere IsThere (find_weak_hits w obs) _
        (find_weak_hits-Ensures w obs)
        (λ hits s i h.
          >>=-Post IsConsistent IsConsistent (λ t k. k) AllThere IsThere (confident w hits s)
            (settle w obs) (confident-Post w hits s (i, h)) (λ ids u. settle-Ensures obs ids u))

  merge_or_weak-Ensures :
      (obs : Observation) (o : Option String) (s : Db)
      → IsConsistent s.tables
      → Matched o s.tables
      → Post IsConsistent IsThere (merge_or_weak w obs o s)
  unfolding merge_or_weak
  merge_or_weak-Ensures obs none s i h = reconcile_weak-Ensures obs s i
  merge_or_weak-Ensures obs (some id) s i h = merged-Post id obs s (i, h)

  pub reconcile_impl-Ensures :
      (obs : Observation) → Ensures IsConsistent (reconcile_impl w obs) IsThere
  unfolding reconcile_impl
  reconcile_impl-Ensures obs =
      >>=-Ensures IsConsistent Matched IsThere (strong_match w obs) (merge_or_weak w obs)
        (strong_match-Ensures obs) (merge_or_weak-Ensures obs)

  -- The hook, where there is one, keeps the tables consistent and removes no device.
  abbrev pub HookKeeps : Option (String → Observation → M (Unit {0})) → Type 0
  HookKeeps none = Unit
  HookKeeps (some h) =
      (id : String) (obs : Observation) (j : String) → Ensures (Has j) (h id obs) Nothing

  observed-Post :
      (hook : Option (String → Observation → M (Unit {0})))
      → HookKeeps hook
      → (obs : Observation) (p : Result String × Db) → Post IsConsistent IsThere p
      → Post IsConsistent IsThere (observed w hook obs p)
  observed-Post hook keeps obs (err e, s) i = i
  observed-Post none keeps obs (ok id, s) i = i
  observed-Post (some h) keeps obs (ok id, s) i = hooked (h id obs s) (keeps id obs id s i)
    where
      hooked :
          (p : Result (Unit {0}) × Db)
          → Post (Has id) Nothing p
          → IsConsistent p.1.tables × IsThere id p.1.tables
      hooked (ok u, s') k = k.0
      hooked (err e, s') k = k

  -- With such a hook, Reconcile does so too.
  pub reconcile-Ensures :
      (hook : Option (String → Observation → M (Unit {0})))
      → HookKeeps hook
      → (obs : Observation) → Ensures IsConsistent (reconcile w hook obs) IsThere
  unfolding reconcile
  reconcile-Ensures hook keeps obs s i =
      observed-Post hook keeps obs (reconcile_impl w obs s) (reconcile_impl-Ensures obs s i)
