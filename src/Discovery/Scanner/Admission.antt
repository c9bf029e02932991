-- ===== src/Discovery/Scanner/Admission.antt =====
-- What a cycle of the scanner hands to Reconcile.
use mathlib.Core.List.{Memᴰ}
use safe_play_guardian.Prelude.{
  ℕ, ◌≤◌, ◌≡◌, ◌≢◌, refl, sym, subst, String, Bool, false, ◌||◌, ◌==◌, string_eq, nat_eq, eq_iff,
  Bool-cases, inl, inr, Option, none, some, List, [], ◌∷◌, map, All, arith,
}
use safe_play_guardian.Device.Model.{Observation}
use safe_play_guardian.Discovery.Mac.{normalize_mac, is_non_host_mac}
use safe_play_guardian.Discovery.Scanner.{
  merge_obs, Blended, blend, take_in, take_all, gather, enrich_one, enrich, Seen, seen_count,
}

-- An entry of the blended map: its observation carries the key as its MAC, and the key is a
-- normalized MAC of a host.
pub record IsHost (e : String × Observation) : Type 0 where
  pub keyed : e.1.mac ≡ e.0
  pub given : e.0 ≢ ""
  pub raw : String
  pub normalized : normalize_mac raw ≡ e.0
  pub host : is_non_host_mac e.0 ≡ false

blend-All :
    (key : String) (o : Observation) (b : Blended)
    → IsHost (key, o)
    → All IsHost b
    → All IsHost (blend key o b)
unfolding blend merge_obs
blend-All key o [] g h = (g, tt)
blend-All key o ((k, b) ∷ rest) g (p, h) = elim (Bool-cases (k == key)) [
  | inl e ↦ rw e (
    record {
      keyed = p.keyed;
      given = p.given;
      raw = p.raw;
      normalized = p.normalized;
      host = p.host;
    },
    h,
  )
  | inr e ↦ rw e (p, blend-All key o rest g h)
]

take_in-All :
    (o : Observation) (acc : Blended × List Observation)
    → All IsHost acc.0
    → All IsHost (take_in o acc).0
unfolding take_in
take_in-All o acc h = elim (Bool-cases (o.mac == "")) [
  | inl e ↦ rw e h
  | inr e ↦ elim (Bool-cases (normalize_mac o.mac == "" || is_non_host_mac (normalize_mac o.mac))) [
    | inl f ↦ rw (e, f) h
    | inr f ↦
        rw (e, f)
          (blend-All (normalize_mac o.mac) (record o { mac = normalize_mac o.mac }) acc.0
            (record {
              keyed = refl;
              given = ground (arith, eq_iff (normalize_mac o.mac) "");
              raw = o.mac;
              normalized = refl;
              host = ground arith;
            })
            h)
  ]
]

take_all-All :
    (os : List Observation) (acc : Blended × List Observation)
    → All IsHost acc.0
    → All IsHost (take_all os acc).0
unfolding take_all
take_all-All [] acc h = h
take_all-All (o ∷ os) acc h = take_all-All os (take_in o acc) (take_in-All o acc h)

pub gather-All :
    (sources : List (Option (List Observation))) (acc : Blended × List Observation)
    → All IsHost acc.0
    → All IsHost (gather sources acc).0
unfolding gather
gather-All [] acc h = h
gather-All (none ∷ sources) acc h = gather-All sources acc h
gather-All (some os ∷ sources) acc h = gather-All sources (take_all os acc) (take_all-All os acc h)

enrich_one-mac : (e b : Observation) → (enrich_one e b).mac ≡ b.mac
unfolding enrich_one
enrich_one-mac e b = ground arith

enrich_one-All :
    (e : Observation) (b : Blended)
    → All IsHost b
    → All IsHost (map (λ (m : String × Observation). (m.0, enrich_one e m.1)) b)
enrich_one-All e [] h = tt
enrich_one-All e ((k, o) ∷ b) (p, h) = (
  record {
    keyed = rw (enrich_one-mac e o) p.keyed;
    given = p.given;
    raw = p.raw;
    normalized = p.normalized;
    host = p.host;
  },
  enrich_one-All e b h,
)

pub enrich-All : (es : List Observation) (b : Blended) → All IsHost b → All IsHost (enrich es b)
unfolding enrich
enrich-All [] b h = h
enrich-All (e ∷ es) b h = elim (Bool-cases (e.ip == "")) [
  | inl f ↦ rw f (enrich-All es b h)
  | inr f ↦ rw f (enrich-All es _ (enrich_one-All e b h))
]

pub All-mem : {A : Type 0} (Q : A → Type 0) (xs : List A) {x : A} → All Q xs → Memᴰ x xs → Q x
All-mem Q [] h m = elim m [ ]
All-mem Q (y ∷ xs) (p, h) (Memᴰ.head e) = subst Q (sym e) p
All-mem Q (y ∷ xs) (p, h) (Memᴰ.tail m) = All-mem Q xs h m

pub mem-All : {A : Type 0} (Q : A → Type 0) (xs : List A) → ((x : A) → Memᴰ x xs → Q x) → All Q xs
mem-All Q [] f = tt
mem-All Q (x ∷ xs) f = (f x (Memᴰ.head refl), mem-All Q xs (λ y m. f y (Memᴰ.tail m)))

-- What the scanner may hand over, given the counts: a host's observation under its normalized MAC,
-- not hidden, of source scan, seen in at least min_cycles cycles.
pub record Admissible (hide : String → Bool) (min_cycles : ℕ) (seen : Seen) (o : Observation)
    : Type 0 where
  pub given : o.mac ≢ ""
  pub raw : String
  pub normalized : normalize_mac raw ≡ o.mac
  pub host : is_non_host_mac o.mac ≡ false
  pub shown : hide o.mac ≡ false
  pub source : o.source ≡ "scan"
  pub often : min_cycles ≤ seen_count o.mac seen
