-- ===== src/Device/Reconcile/Candidates.antt =====
-- Every candidate that the weak signals give is a device that is there.
use safe_play_guardian.Prelude.{
  ℕ, ◌≡◌, String, Bool, true, ◌==◌, string_eq, nat_eq, eq_iff, Bool-cases, inl, inr, List, [], ◌∷◌,
  map, leb, All, arith,
}
use safe_play_guardian.Device.Model.{IdentityKind, Observation}
use safe_play_guardian.Device.Rows.{where_}
use safe_play_guardian.Device.Reconcile.{
  has_identity, weak_hits_from, find_weak_hits, confident, weak_pairs, hit, hit_all, owners,
  distinct, count_of,
}
use safe_play_guardian.Device.Registry.Integrity.{IsThere}
use safe_play_guardian.Device.Consistent.{IsConsistent}
use safe_play_guardian.Store.Tables.{IdentityRow, Tables}
use safe_play_guardian.Store.Exec.{World, Db, query, visit_keys}
use safe_play_guardian.Store.Keeps.{
  Post, Ensures, Nothing, query-Ensures, visit_keys-keeps, >>=-Post,
}

where_-All :
    {A : Type 0} (Q : A → Type 0) (p : A → Bool) (xs : List A) → All Q xs → All Q (where_ p xs)
unfolding where_
where_-All Q p [] h = tt
where_-All Q p (x ∷ xs) (q, h) = elim (Bool-cases (p x)) [
  | inl e ↦ rw e (q, where_-All Q p xs h)
  | inr e ↦ rw e (where_-All Q p xs h)
]

distinct-All : (Q : String → Type 0) (xs : List String) → All Q xs → All Q (distinct xs)
unfolding distinct
distinct-All Q [] h = tt
distinct-All Q (x ∷ xs) (q, h) = (q, where_-All Q _ (distinct xs) (distinct-All Q xs h))

owners-All :
    (Q : String → Type 0) (kind value : String) (rows : List IdentityRow)
    → All (λ (r : IdentityRow). Q r.device_id) rows
    → All Q (owners kind value rows)
owners-All Q kind value rows h =
    distinct-All Q _ (
      mapped (where_ (has_identity kind value) rows)
        (where_-All _ (has_identity kind value) rows h))
  where
    mapped :
        (rs : List IdentityRow)
        → All (λ (r : IdentityRow). Q r.device_id) rs
        → All Q (map (λ (r : IdentityRow). r.device_id) rs)
    mapped [] k = tt
    mapped (r ∷ rs) (p, k) = (p, mapped rs k)

abbrev pub AllHits : (String → Type 0) → List (String × ℕ) → Type 0
AllHits Q hits = All (λ (h : String × ℕ). Q h.0) hits

hit-All :
    (Q : String → Type 0) (hits : List (String × ℕ)) (id : String)
    → Q id
    → AllHits Q hits
    → AllHits Q (hit hits id)
unfolding hit
hit-All Q [] id q h = (q, tt)
hit-All Q ((k, n) ∷ hits) id q (p, h) = elim (Bool-cases (k == id)) [
  | inl e ↦ rw e (p, h)
  | inr e ↦ rw e (p, hit-All Q hits id q h)
]

hit_all-All :
    (Q : String → Type 0) (hits : List (String × ℕ)) (ids : List String)
    → All Q ids
    → AllHits Q hits
    → AllHits Q (hit_all hits ids)
unfolding hit_all
hit_all-All Q hits [] a h = h
hit_all-All Q hits (id ∷ ids) (q, a) h = hit_all-All Q (hit hits id) ids a (hit-All Q hits id q h)

-- What is counted at least once is a key.
counted :
    (Q : String → Type 0) (hits : List (String × ℕ)) (id : String)
    → AllHits Q hits
    → leb 2 (count_of hits id) ≡ true
    → Q id
unfolding count_of
counted Q [] id h e = absurd (ground arith)
counted Q ((k, n) ∷ hits) id (q, h) e = elim (Bool-cases (k == id)) [
  | inl same ↦ let p : k ≡ id = (eq_iff k id).0 same in rw p at q
  | inr other ↦ counted Q hits id h (ground arith)
]

counted-All :
    (Q : String → Type 0) (hits : List (String × ℕ)) (keys : List String)
    → AllHits Q hits
    → All Q (where_ (λ id. leb 2 (count_of hits id)) keys)
unfolding where_
counted-All Q hits [] h = tt
counted-All Q hits (k ∷ keys) h = elim (Bool-cases (leb 2 (count_of hits k))) [
  | inl e ↦ rw e (counted Q hits k h e, counted-All Q hits keys h)
  | inr e ↦ rw e (counted-All Q hits keys h)
]

abbrev pub AllThere : List String → Tables → Type 0
AllThere ids t = All (λ id. IsThere id t) ids

abbrev pub HitsThere : List (String × ℕ) → Tables → Type 0
HitsThere hits t = AllHits (λ id. IsThere id t) hits

abbrev pub With : List (String × ℕ) → Tables → Type 0
With hits t = IsConsistent t × HitsThere hits t

module _ (w : World) where
  weak_hits_from-Post :
      (hits : List (String × ℕ)) (pairs : List (IdentityKind × String)) (s : Db)
      → With hits s.tables
      → Post IsConsistent HitsThere (weak_hits_from w hits pairs s)
  unfolding weak_hits_from
  weak_hits_from-Post hits [] s i = i
  weak_hits_from-Post hits ((kind, value) ∷ pairs) s i =
      >>=-Post IsConsistent (With hits) (λ t k. k.0) AllThere HitsThere
        (query w (λ t. owners kind value t.network_identities) s)
        (λ ids. weak_hits_from w (hit_all hits ids) pairs)
        (query-Ensures (With hits) w _ AllThere
          (λ t c.
            owners-All (λ id. IsThere id t) kind value t.network_identities c.0.identity_owners)
          s i)
        (λ ids u c q.
          weak_hits_from-Post (hit_all hits ids) pairs u
            (c.0, hit_all-All (λ id. IsThere id u.tables) hits ids q c.1))

  -- Every candidate is a device that is there.
  pub confident-Post :
      (hits : List (String × ℕ)) (s : Db)
      → With hits s.tables
      → Post IsConsistent AllThere (confident w hits s)
  unfolding confident
  confident-Post hits s i =
      >>=-Post IsConsistent (With hits) (λ t k. k.0) Nothing AllThere
        (visit_keys w (map (λ (h : String × ℕ). h.0) hits) s) _
        (visit_keys-keeps (With hits) w (map (λ (h : String × ℕ). h.0) hits) s i)
        (λ keys u c _. (c.0, counted-All (λ id. IsThere id u.tables) hits keys c.1))

  pub find_weak_hits-Ensures :
      (obs : Observation) → Ensures IsConsistent (find_weak_hits w obs) HitsThere
  unfolding find_weak_hits
  find_weak_hits-Ensures obs s i = weak_hits_from-Post [] (weak_pairs obs) s (i, tt)
