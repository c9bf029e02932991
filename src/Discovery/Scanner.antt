-- ===== src/Discovery/Scanner.antt =====
-- internal/discovery/scanner.go: one cycle of the scanner.
pub mod Admission
pub mod Handover
use safe_play_guardian.Prelude.{
  ℕ, suc, ltb, nat_eq, string_eq, ◌==◌, String, Bool, not, ◌&&◌, ◌||◌, Option, none, some, List, [],
  ◌∷◌, ◌++◌, map, if◌then◌else◌,
}
use safe_play_guardian.Device.Model.{Observation}
use safe_play_guardian.Discovery.Mac.{normalize_mac, is_non_host_mac}

abbrev pub or_text : String → String → String
or_text a b = if a == "" then b else a

-- mergeObs
unfoldable pub merge_obs : Observation → Observation → Observation
merge_obs a b = record a {
  ip = or_text a.ip b.ip;
  hostname = or_text a.hostname b.hostname;
  agent_id = or_text a.agent_id b.agent_id;
  seen_at = if ltb a.seen_at b.seen_at then b.seen_at else a.seen_at;
}

-- A map from normalized MACs to observations, each key once.
abbrev pub Blended : Type 0
Blended = List (String × Observation)

unfoldable pub blend : String → Observation → Blended → Blended
unfolding merge_obs
blend key o [] = (key, o) ∷ []
blend key o ((k, b) ∷ rest) =
    if k == key then (k, merge_obs b o) ∷ rest else (k, b) ∷ blend key o rest

-- One observation of a source: kept for enrichment, skipped, or blended.
unfoldable pub take_in : Observation → Blended × List Observation → Blended × List Observation
unfolding blend
take_in o (blended, enrichers) =
    let key = normalize_mac o.mac in
    if o.mac == ""
    then (blended, enrichers ++ o ∷ [])
    else if key == "" || is_non_host_mac key
    then (blended, enrichers)
    else (blend key (record o { mac = key }) blended, enrichers)

unfoldable pub take_all : List Observation → Blended × List Observation → Blended × List Observation
unfolding take_in
take_all [] acc = acc
take_all (o ∷ os) acc = take_all os (take_in o acc)

-- The sources in turn; one that fails is skipped.
unfoldable pub gather :
    List (Option (List Observation)) → Blended × List Observation → Blended × List Observation
unfolding take_all
gather [] acc = acc
gather (none ∷ sources) acc = gather sources acc
gather (some obs ∷ sources) acc = gather sources (take_all obs acc)

-- A host name found under the same address, if there is none yet.
unfoldable pub enrich_one : Observation → Observation → Observation
enrich_one e b =
    if b.ip == e.ip
    then (if b.hostname == "" && not (e.hostname == "")
        then record b { hostname = e.hostname }
        else b)
    else b

unfoldable pub enrich : List Observation → Blended → Blended
unfolding enrich_one
enrich [] blended = blended
enrich (e ∷ es) blended = enrich es (
    if e.ip == ""
    then blended
    else map (λ (m : String × Observation). (m.0, enrich_one e m.1)) blended)

-- The counts of s.seen.
abbrev pub Seen : Type 0
Seen = List (String × ℕ)

unfoldable pub seen_count : String → Seen → ℕ
seen_count mac [] = 0
seen_count mac ((k, n) ∷ seen) = if k == mac then n else seen_count mac seen

unfoldable pub count_up : String → Seen → Seen
count_up mac [] = (mac, 1) ∷ []
count_up mac ((k, n) ∷ seen) = if k == mac then (k, suc n) ∷ seen else (k, n) ∷ count_up mac seen

-- What Reconcile answers, as far as the loop asks: done, another error, or a canceled context.
pub data Answer : Type 0 where
  done : Answer
  failed : Answer
  canceled : Answer

-- The observation that is handed to Reconcile.
abbrev pub stamped : ℕ → Observation → Observation
stamped now o = record o { source = "scan"; seen_at = if o.seen_at == 0 then now else o.seen_at }

module _ {S : Type 0} (hide : String → Bool) (min_cycles now : ℕ)
    (reconcile : Observation → S → Answer × S) where
  -- The loop over the blended map, in the order in which Go visits it.
  unfoldable pub visit : Blended → Seen × S → Seen × S
  visit [] acc = acc
  visit ((mac, o) ∷ rest) (seen, s) =
      let later = visit rest in
      let seen' = count_up mac seen in
      let (answer, s') = reconcile (stamped now o) s in
      if hide mac
      then later (seen, s)
      else if ltb (seen_count mac seen') min_cycles
      then later (seen', s)
      else elim answer [
        | canceled ↦ (seen', s')
        | done ↦ later (seen', s')
        | failed ↦ later (seen', s')
      ]

  -- cycle, for the answers of the sources and an order of the map.
  unfoldable pub cycle :
      (Blended → Blended) → List (Option (List Observation)) → Seen × S → Seen × S
  unfolding gather enrich visit
  cycle order sources acc =
      let (blended, enrichers) = gather sources ([], []) in
      visit (order (enrich enrichers blended)) acc
