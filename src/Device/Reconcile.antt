-- ===== src/Device/Reconcile.antt =====
-- internal/device/sqlite.go: Reconcile, which binds an observation to a device.
pub mod Candidates
pub mod Steps
pub mod Integrity
pub mod Strong
pub mod Signals
pub mod Recorded
pub mod Matching
use safe_play_guardian.Prelude.{
  ℕ, suc, leb, String, Bool, true, false, not, ◌&&◌, ◌==◌, string_eq, nat_eq, Option, none, some,
  List, [], ◌∷◌, ◌++◌, map, if◌then◌else◌,
}
use Prim.Native.String
use safe_play_guardian.Device.Model.{
  state_active, state_discovered, IdentityKind, identity_mac, identity_ip, identity_hostname,
  identity_agent, Device, Observation,
}
use safe_play_guardian.Device.Mac.{is_randomized_mac}
use safe_play_guardian.Device.Rows.{first_where, where_, pending_row, last_seen_row}
use safe_play_guardian.Device.Registry.{touch_identity, add_capability, upsert}
use safe_play_guardian.Store.Tables.{DeviceRow, IdentityRow, PendingMergeRow, Tables}
use safe_play_guardian.Store.Exec.{
  World, Result, ok, err, Db, M, ◌>>=◌, ◌>>◌, return, raise, each, query, exec, clock, visit_keys,
}

abbrev pub token_is : String → Option String → Bool
token_is token none = false
token_is token (some t) = t == token

abbrev pub owner_by_token : String → List DeviceRow → Option String
owner_by_token token rows =
    elim (first_where (λ (d : DeviceRow). token_is token d.agent_token) rows) [
      | none ↦ none
      | some d ↦ some d.id
    ]

abbrev pub has_identity : IdentityKind → String → IdentityRow → Bool
has_identity kind value r = r.kind == kind && r.value == value

abbrev pub owner_by_identity : IdentityKind → String → List IdentityRow → Option String
owner_by_identity kind value rows = elim (first_where (has_identity kind value) rows) [
  | none ↦ none
  | some r ↦ some r.device_id
]

-- SELECT DISTINCT device_id
unfoldable pub distinct : List String → List String
distinct [] = []
distinct (x ∷ xs) = x ∷ where_ (λ y. not (y == x)) (distinct xs)

abbrev pub owners : IdentityKind → String → List IdentityRow → List String
owners kind value rows =
    distinct (map (λ (r : IdentityRow). r.device_id) (where_ (has_identity kind value) rows))

-- hits[id]++ on a map from identities to counts.
unfoldable pub hit : List (String × ℕ) → String → List (String × ℕ)
hit [] id = (id, 1) ∷ []
hit ((k, n) ∷ hits) id = if k == id then (k, suc n) ∷ hits else (k, n) ∷ hit hits id

unfoldable pub hit_all : List (String × ℕ) → List String → List (String × ℕ)
hit_all hits [] = hits
hit_all hits (id ∷ ids) = hit_all (hit hits id) ids

unfoldable pub count_of : List (String × ℕ) → String → ℕ
count_of [] id = 0
count_of ((k, n) ∷ hits) id = if k == id then n else count_of hits id

-- The weak signals of an observation, in the order of the source.
unfoldable pub weak_pairs : Observation → List (IdentityKind × String)
weak_pairs obs =
    (if obs.ip == "" then [] else (identity_ip, obs.ip) ∷ [])
    ++ ((if obs.hostname == "" then [] else (identity_hostname, obs.hostname) ∷ [])
        ++ (if not (obs.mac == "") && is_randomized_mac obs.mac
            then (identity_mac, obs.mac) ∷ []
            else []))

-- The label of a device made from an observation.
unfoldable pub label_of : Observation → String
label_of obs =
    if not (obs.label == "")
    then obs.label
    else if not (obs.hostname == "")
    then obs.hostname
    else if not (obs.agent_id == "")
    then String.◌++◌ "agent:" obs.agent_id
    else if not (obs.mac == "")
    then String.◌++◌ "mac:" obs.mac
    else "unknown device"

unfoldable pub device_of : Observation → ℕ → Device
device_of obs seen = record {
  id = "";
  person_id = none;
  label = label_of obs;
  kind = if obs.kind == "" then "unknown" else obs.kind;
  agent_token = none;
  state = if obs.source == "scan" then state_discovered else state_active;
  last_seen = some seen;
  identities = [];
  caps = [];
}

module _ (w : World) where
  -- findDeviceByAgentToken
  unfoldable pub find_device_by_agent_token : String → M (Option String)
  find_device_by_agent_token token = query w (λ t. owner_by_token token t.devices)

  -- findByIdentity
  unfoldable pub find_by_identity : IdentityKind → String → M (Option String)
  find_by_identity kind value = query w (λ t. owner_by_identity kind value t.network_identities)

  unfoldable pub weak_hits_from :
      List (String × ℕ) → List (IdentityKind × String) → M (List (String × ℕ))
  weak_hits_from hits [] = return hits
  weak_hits_from hits ((kind, value) ∷ pairs) =
      query w (λ t. owners kind value t.network_identities) >>= λ ids.
      weak_hits_from (hit_all hits ids) pairs

  -- findWeakHits
  unfoldable pub find_weak_hits : Observation → M (List (String × ℕ))
  find_weak_hits obs = weak_hits_from [] (weak_pairs obs)

  -- obs.SeenAt, or the clock if that is the zero time.
  unfoldable pub seen_of : Observation → M ℕ
  seen_of obs = if obs.seen_at == 0 then clock w else return obs.seen_at

  -- An identity is recorded unless its value is empty.
  unfoldable pub touch_unless_empty : String → IdentityKind → String → ℕ → M (Unit {0})
  touch_unless_empty id kind value seen =
      if value == "" then return tt else touch_identity w id kind value seen

  -- mergeObservation
  unfoldable pub merge_observation : String → Observation → M (Unit {0})
  unfolding seen_of touch_unless_empty
  merge_observation id obs = do
    seen ← seen_of obs
    touch_unless_empty id identity_agent obs.agent_id seen
    touch_unless_empty id identity_mac obs.mac seen
    touch_unless_empty id identity_ip obs.ip seen
    touch_unless_empty id identity_hostname obs.hostname seen
    if obs.source == "agent" then each (add_capability w id) obs.caps else return tt
    exec w (last_seen_row seen id)

  -- createFromObservation
  unfoldable pub create_from_observation : Observation → M String
  unfolding merge_observation
  create_from_observation obs = do
    seen ← seen_of obs
    created ← upsert w (device_of obs seen)
    merge_observation created.id obs
    return created.id

  -- createPendingMerge
  unfoldable pub create_pending_merge : String → List String → M (Unit {0})
  create_pending_merge source_id candidates =
      exec w (pending_row (record { source_device_id = source_id; candidate_ids = candidates }))

  -- The three strong matches, each tried only if the observation carries its signal.
  unfoldable pub by_token : Observation → M (Option String)
  by_token obs =
      if obs.agent_token == "" then return none else find_device_by_agent_token obs.agent_token

  unfoldable pub by_agent : Observation → M (Option String)
  by_agent obs =
      if obs.agent_id == "" then return none else find_by_identity identity_agent obs.agent_id

  unfoldable pub by_mac : Observation → M (Option String)
  by_mac obs =
      if not (obs.mac == "") && not (is_randomized_mac obs.mac)
      then find_by_identity identity_mac obs.mac
      else return none

  abbrev pub found_or : M (Option String) → Option String → M (Option String)
  found_or next (some id) = return (some id)
  found_or next none = next

  unfoldable pub strong_match : Observation → M (Option String)
  strong_match obs = by_token obs >>= found_or (by_agent obs >>= found_or (by_mac obs))

  -- The devices that at least two weak signals point to.
  unfoldable pub confident : List (String × ℕ) → M (List String)
  confident hits = do
    keys ← visit_keys w (map (λ (h : String × ℕ). h.0) hits)
    return (where_ (λ id. leb 2 (count_of hits id)) keys)

  -- The end of reconcileImpl, by the number of confident candidates.
  unfoldable pub settle : Observation → List String → M String
  settle obs [] = create_from_observation obs
  settle obs (id ∷ []) = do merge_observation id obs; return id
  settle obs (id ∷ other ∷ more) = do
    new_id ← create_from_observation obs
    create_pending_merge new_id (id ∷ other ∷ more)
    return new_id

  unfoldable pub reconcile_weak : Observation → M String
  reconcile_weak obs = do
    hits ← find_weak_hits obs
    candidates ← confident hits
    settle obs candidates

  unfoldable pub merge_or_weak : Observation → Option String → M String
  merge_or_weak obs (some id) = do merge_observation id obs; return id
  merge_or_weak obs none = reconcile_weak obs

  -- reconcileImpl
  unfoldable pub reconcile_impl : Observation → M String
  reconcile_impl obs = strong_match obs >>= merge_or_weak obs

  -- The hook runs after a success, and its errors are its own.
  abbrev pub observed :
      Option (String → Observation → M (Unit {0}))
      → Observation
      → Result String × Db
      → Result String × Db
  observed hook obs (err e, s) = (err e, s)
  observed none obs (ok id, s) = (ok id, s)
  observed (some h) obs (ok id, s) = (ok id, (h id obs s).1)

  -- Reconcile
  unfoldable pub reconcile : Option (String → Observation → M (Unit {0})) → Observation → M String
  reconcile hook obs s = observed hook obs (reconcile_impl obs s)
