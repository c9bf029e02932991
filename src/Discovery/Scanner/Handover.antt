-- ===== src/Discovery/Scanner/Handover.antt =====
-- A cycle of the scanner changes its counts and calls Reconcile only where that is admissible.
use mathlib.Core.List.{Memᴰ}
use safe_play_guardian.Prelude.{
  ℕ, ◌≤◌, ◌≡◌, ◌≢◌, refl, sym, subst, String, Bool, false, ltb, Bool-cases, inl, inr, Option, List,
  [], ◌∷◌, All, arith,
}
use safe_play_guardian.Device.Model.{Observation}
use safe_play_guardian.Discovery.Mac.{normalize_mac, is_non_host_mac}
use safe_play_guardian.Discovery.Scanner.{
  Blended, gather, enrich, Seen, seen_count, count_up, Answer, done, failed, canceled, stamped,
  visit, cycle,
}
use safe_play_guardian.Discovery.Scanner.Admission.{
  IsHost, Admissible, gather-All, enrich-All, All-mem, mem-All,
}

module _ {S : Type 0} (hide : String → Bool) (min_cycles now : ℕ)
    (reconcile : Observation → S → Answer × S) (I : Seen → S → Type 0)
    (counts : (mac : String) (seen : Seen) (s : S) → I seen s → I (count_up mac seen) s)
    (hands : (o : Observation) (seen : Seen) (s : S)
      → Admissible hide min_cycles seen o
      → I seen s
      → I seen (reconcile o s).1) where
  stamped-Admissible :
      (mac : String) (o : Observation) (seen : Seen)
      → IsHost (mac, o)
      → hide mac ≡ false
      → min_cycles ≤ seen_count mac seen
      → Admissible hide min_cycles seen (stamped now o)
  stamped-Admissible mac o seen g h l = record {
    given = subst (λ m. m ≢ "") (sym g.keyed) g.given;
    raw = g.raw;
    normalized = subst (λ m. normalize_mac g.raw ≡ m) (sym g.keyed) g.normalized;
    host = subst (λ m. is_non_host_mac m ≡ false) (sym g.keyed) g.host;
    shown = subst (λ m. hide m ≡ false) (sym g.keyed) h;
    source = refl;
    often = subst (λ m. min_cycles ≤ seen_count m seen) (sym g.keyed) l;
  }

  -- After the call the loop goes on, or stops on a canceled context.
  continued :
      (p : Answer × S) (seen : Seen) (later : Seen × S → Seen × S)
      → I seen p.1
      → ((acc : Seen × S) → I acc.0 acc.1 → I (later acc).0 (later acc).1)
      → let out = elim p.0 as (λ _. Seen × S) [
        | canceled ↦ (seen, p.1)
        | done ↦ later (seen, p.1)
        | failed ↦ later (seen, p.1)
      ] in
        I out.0 out.1
  continued (canceled, s) seen later i f = i
  continued (done, s) seen later i f = f (seen, s) i
  continued (failed, s) seen later i f = f (seen, s) i

  visit-keeps :
      (b : Blended) (acc : Seen × S)
      → All IsHost b
      → I acc.0 acc.1
      → let out = visit hide min_cycles now reconcile b acc in I out.0 out.1
  unfolding visit
  visit-keeps [] acc g i = i
  visit-keeps ((mac, o) ∷ rest) (seen, s) (p, g) i = elim (Bool-cases (hide mac)) [
    | inl e ↦ rw e (visit-keeps rest (seen, s) g i)
    | inr e ↦ elim (Bool-cases (ltb (seen_count mac (count_up mac seen)) min_cycles)) [
      | inl f ↦ rw (e, f) (visit-keeps rest (count_up mac seen, s) g (counts mac seen s i))
      | inr f ↦
          rw (e, f)
            (continued (reconcile (stamped now o) s) (count_up mac seen)
              (visit hide min_cycles now reconcile rest)
              (hands (stamped now o) (count_up mac seen) s
                (stamped-Admissible mac o (count_up mac seen) p e (ground arith))
                (counts mac seen s i))
              (λ acc j. visit-keeps rest acc g j))
    ]
  ]

  -- Let I be kept by counting a MAC, and by Reconcile of an observation that is admissible at the
  -- present counts: under the normalized MAC of a host, not hidden, of source scan, and counted at
  -- least min_cycles times. Then a cycle keeps I, whatever the sources answer and in whichever
  -- order the map is visited.
  pub cycle-keeps :
      (order : Blended → Blended)
      → ((b : Blended) (e : String × Observation) → Memᴰ e (order b) → Memᴰ e b)
      → (sources : List (Option (List Observation))) (acc : Seen × S) → I acc.0 acc.1
      → let out = cycle hide min_cycles now reconcile order sources acc in I out.0 out.1
  unfolding cycle
  cycle-keeps order orders sources acc i =
      let (blended, enrichers) = gather sources ([], []) in
      let hosts : All IsHost (enrich enrichers blended) =
        enrich-All enrichers blended (gather-All sources ([], []) tt) in
      visit-keeps (order (enrich enrichers blended)) acc
        (mem-All IsHost (order (enrich enrichers blended)) (λ e m.
          All-mem IsHost (enrich enrichers blended) hosts (orders (enrich enrichers blended) e m)))
        i
