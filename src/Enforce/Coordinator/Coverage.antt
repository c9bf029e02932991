-- ===== src/Enforce/Coordinator/Coverage.antt =====
-- No capability is dropped: the coordinator reports on each as often as the policy requires it.
use safe_play_guardian.Prelude.{
  ◌≡◌, refl, sym, ap, ◌∙◌, String, ◌==◌, string_eq, Bool-cases, Option-cases, inl, inr, Option,
  none, some, List, [], ◌∷◌, ◌++◌, map, All, count, count-append, arith,
}
use mathlib.Core.List.{append_assoc, append-nil, map-append}
use safe_play_guardian.Device.Model.{Capability, Device}
use safe_play_guardian.Policy.Model.{ResolvedPolicy}
use safe_play_guardian.Enforce.Enforcer.{PerRule, RuleOutcome, Enforcer, Answers, Slice}
use safe_play_guardian.Enforce.Coordinator.{
  sort_caps, Assignments, assign, unenforceable, outcome_of, pick, by_name, place, split_caps, Hook,
  report, dispatch_one, dispatch, enforce_resolved,
}
use safe_play_guardian.Enforce.Coordinator.Splitting.{
  count-sort_caps, assigned, count-split_caps, by_name-pick,
}

-- The capabilities that outcomes speak of.
abbrev pub reported : List RuleOutcome → List Capability
reported rules = map (λ (r : RuleOutcome). r.capability) rules

reported-append : (xs ys : List RuleOutcome) → reported (xs ++ ys) ≡ reported xs ++ reported ys
reported-append xs ys = map-append (λ (r : RuleOutcome). r.capability) xs ys

reported-outcomes :
    (name : String) (rs : List PerRule)
    → reported (map (outcome_of name) rs) ≡ map (λ (r : PerRule). r.capability) rs
reported-outcomes name [] = refl
reported-outcomes name (r ∷ rs) = ap (λ l. r.capability ∷ l) (reported-outcomes name rs)

reported-unenforceable : (cs : List Capability) → reported (map unenforceable cs) ≡ cs
reported-unenforceable [] = refl
reported-unenforceable (c ∷ cs) = ap (λ l. c ∷ l) (reported-unenforceable cs)

module _ {S : Type 0} where
  report-rules :
      (hook : Hook S) (id : String) (ros : List RuleOutcome) (acc : List RuleOutcome × S)
      → (report hook id ros acc).0 ≡ acc.0 ++ ros
  unfolding report
  report-rules hook id [] acc = sym (append-nil acc.0)
  report-rules hook id (ro ∷ ros) acc =
      report-rules hook id ros _ ∙ append_assoc acc.0 (ro ∷ []) ros

  pub by_name-All :
      (Q : Enforcer S → Type 0) (bs : List (Enforcer S)) (name : String) (b : Enforcer S)
      → All Q bs
      → by_name bs name ≡ some b
      → Q b
  unfolding by_name
  by_name-All Q [] name b h e = cc
  by_name-All Q (x ∷ bs) name b (q, h) e = elim (Option-cases (by_name bs name)) [
    | inr (b', p) ↦ by_name-All Q bs name b h (p ∙ (rw (p, by_name) at e))
    | inl p ↦ let same : x ≡ b = ground arith in rw same at q
  ]

module _ {S : Type 0} (bs : List (Enforcer S)) where
  -- Every name that is assigned is a backend's.
  abbrev pub Known : Assignments → Type 0
  Known given =
      All (λ (g : String × List Capability). (b : Enforcer S) × (by_name bs g.0 ≡ some b)) given

  assign-Known :
      (name : String) (c : Capability) (given : Assignments) (b : Enforcer S)
      → by_name bs name ≡ some b
      → Known given
      → Known (assign name c given)
  unfolding assign
  assign-Known name c [] b h k = ((b, h), tt)
  assign-Known name c ((n, cs) ∷ rest) b h (p, k) = elim (Bool-cases (n == name)) [
    | inl e ↦ rw e (p, k)
    | inr e ↦ rw e (p, assign-Known name c rest b h k)
  ]

  place-Known :
      (dev : Device) (c : Capability) (acc : Assignments × List Capability)
      (o : Option (Enforcer S))
      → pick bs c dev ≡ o
      → Known acc.0
      → Known (place o c acc).0
  unfolding place
  place-Known dev c (given, left) none e k = k
  place-Known dev c (given, left) (some b) e k =
      let (b', q) = by_name-pick bs c dev b e in assign-Known b.name c given b' q k

  split_caps-Known :
      (dev : Device) (cs : List Capability) (acc : Assignments × List Capability)
      → Known acc.0
      → Known (split_caps bs dev cs acc).0
  unfolding split_caps
  split_caps-Known dev [] acc k = k
  split_caps-Known dev (c ∷ cs) acc k =
      split_caps-Known dev cs _ (place-Known dev c acc (pick bs c dev) refl k)

  module _ (answers : All Answers bs) (hook : Hook S) (id : String)
      (resolved : ResolvedPolicy) where
    dispatch_one-reported :
        (g : String × List Capability) (acc : List RuleOutcome × S) (b : Enforcer S)
        → by_name bs g.0 ≡ some b
        → reported (dispatch_one bs hook id resolved g acc).0 ≡ reported acc.0 ++ g.1
    unfolding dispatch_one
    dispatch_one-reported (name, cs) (rules, s) b e =
        let slice : Slice = record { policy = resolved; caps = cs } in
        rw (e, dispatch_one)
          (ap reported (
              report-rules hook id (map (outcome_of b.name) (b.apply id slice s).0)
                (rules, (b.apply id slice s).1))
            ∙ reported-append rules (map (outcome_of b.name) (b.apply id slice s).0)
            ∙ ap (λ l. reported rules ++ l)
                (reported-outcomes b.name (b.apply id slice s).0
                  ∙ by_name-All Answers bs name b answers e id slice s))

    dispatch-reported :
        (given : Assignments) (acc : List RuleOutcome × S)
        → Known given
        → reported (dispatch bs hook id resolved given acc).0 ≡ reported acc.0 ++ assigned given
    unfolding dispatch
    dispatch-reported [] acc k = sym (append-nil (reported acc.0))
    dispatch-reported (g ∷ gs) acc ((b, e), k) =
        dispatch-reported gs (dispatch_one bs hook id resolved g acc) k
        ∙ ap (λ l. l ++ assigned gs) (dispatch_one-reported g acc b e)
        ∙ append_assoc (reported acc.0) g.1 (assigned gs)

  -- If every backend answers for each capability it is given, as Enforcer asks of it, then for
  -- every capability the coordinator reports on it exactly as often as the policy requires it:
  -- nothing is dropped and nothing is added.
  pub enforce_resolved-count :
      All Answers bs
      → (hook : Hook S) (id : String) (dev : Device) (resolved : ResolvedPolicy) (s : S)
        (c : Capability)
      → count c (reported (enforce_resolved bs hook id dev resolved s).0)
        ≡ count c resolved.required_caps
  unfolding enforce_resolved
  enforce_resolved-count answers hook id dev resolved s c =
      let needed = sort_caps resolved.required_caps in
      let split = split_caps bs dev needed ([], []) in
      let policy : ResolvedPolicy = record resolved { required_caps = needed } in
      let sent = dispatch bs hook id policy split.0 ([], s) in
      let all : reported (report hook id (map unenforceable split.1) sent).0
          ≡ assigned split.0 ++ split.1 =
        ap reported (report-rules hook id (map unenforceable split.1) sent)
        ∙ reported-append sent.0 (map unenforceable split.1)
        ∙ ap (λ l. l ++ reported (map unenforceable split.1))
            (dispatch-reported answers hook id policy split.0 ([], s)
              (split_caps-Known dev needed ([], []) tt))
        ∙ ap (λ l. assigned split.0 ++ l) (reported-unenforceable split.1) in
      rw all (
        omega (
          arith,
          count-append c (assigned split.0) split.1,
          count-split_caps bs dev c needed ([], []),
          count-sort_caps c resolved.required_caps,
        ))
