-- ===== src/Enforce/Coordinator/Keeps.antt =====
-- What the backends and the callback keep, Enforce keeps.
use safe_play_guardian.Prelude.{
  ℕ, String, string_eq, Option-cases, inl, inr, List, [], ◌∷◌, map, All,
}
use safe_play_guardian.Device.Model.{Device}
use safe_play_guardian.Policy.Model.{ResolvedPolicy}
use safe_play_guardian.Policy.Resolver.{Zones, Sources, Result, ok, err, ResolveError, resolve}
use safe_play_guardian.Enforce.Enforcer.{Slice, RuleOutcome, CoordinatorResult, Enforcer}
use safe_play_guardian.Enforce.Coordinator.{
  Assignments, Hook, call, by_name, sort_caps, split_caps, outcome_of, unenforceable, report,
  dispatch_one, dispatch, enforce_resolved, enforced, enforce,
}
use safe_play_guardian.Enforce.Coordinator.Coverage.{by_name-All}

module _ {S : Type 0} (J : S → Type 0) where
  abbrev pub BackendKeeps : Enforcer S → Type 0
  BackendKeeps b = (id : String) (slice : Slice) (s : S) → J s → J (b.apply id slice s).1

  abbrev pub HookKeeps : Hook S → Type 0
  HookKeeps hook = (id : String) (ro : RuleOutcome) (s : S) → J s → J (call hook id ro s)

  module _ (bs : List (Enforcer S)) (keep : All BackendKeeps bs) (hook : Hook S)
      (hook_keeps : HookKeeps hook) (id : String) where
    report-keeps :
        (ros : List RuleOutcome) (acc : List RuleOutcome × S)
        → J acc.1
        → J (report hook id ros acc).1
    unfolding report
    report-keeps [] acc h = h
    report-keeps (ro ∷ ros) (rules, s) h = report-keeps ros _ (hook_keeps id ro s h)

    dispatch_one-keeps :
        (resolved : ResolvedPolicy) (slice : String × List String) (acc : List RuleOutcome × S)
        → J acc.1
        → J (dispatch_one bs hook id resolved slice acc).1
    unfolding dispatch_one
    dispatch_one-keeps resolved (name, caps) (rules, s) h = elim (Option-cases (by_name bs name)) [
      | inl e ↦ rw (e, dispatch_one) h
      | inr (b, e) ↦
          rw (e, dispatch_one)
            (report-keeps
              (map (outcome_of b.name) (b.apply id (record { policy = resolved; caps = caps }) s).0)
              (rules, (b.apply id (record { policy = resolved; caps = caps }) s).1)
              (by_name-All BackendKeeps bs name b keep e id
                (record { policy = resolved; caps = caps }) s h))
    ]

    dispatch-keeps :
        (resolved : ResolvedPolicy) (slices : Assignments) (acc : List RuleOutcome × S)
        → J acc.1
        → J (dispatch bs hook id resolved slices acc).1
    unfolding dispatch
    dispatch-keeps resolved [] acc h = h
    dispatch-keeps resolved (slice ∷ slices) acc h =
        dispatch-keeps resolved slices _ (dispatch_one-keeps resolved slice acc h)

    enforce_resolved-keeps :
        (dev : Device) (resolved : ResolvedPolicy) (s : S)
        → J s
        → J (enforce_resolved bs hook id dev resolved s).1
    unfolding enforce_resolved
    enforce_resolved-keeps dev resolved s h =
        let needed = sort_caps resolved.required_caps in
        let (given, unsatisfied) = split_caps bs dev needed ([], []) in
        let policy : ResolvedPolicy = record resolved { required_caps = needed } in
        report-keeps (map unenforceable unsatisfied) (dispatch bs hook id policy given ([], s))
          (dispatch-keeps policy given ([], s) h)

    pub enforce-keeps :
        (z : Zones) (r : Sources) (at : ℕ) (s : S) → J s → J (enforce z r bs hook id at s).1
    unfolding enforce
    enforce-keeps z r at s h = found (r.get id)
      where
        solved :
            (dev : Device) (o : Result ResolveError ResolvedPolicy)
            → J
                (elim o as (λ _. Result ResolveError CoordinatorResult × S) [
                  | err e ↦ (err e, s)
                  | ok resolved ↦ enforced id at (enforce_resolved bs hook id dev resolved s)
                ]).1
        solved dev (err e) = h
        solved dev (ok resolved) = enforce_resolved-keeps dev resolved s h

        found :
            (o : Result ResolveError Device)
            → J
                (elim o as (λ _. Result ResolveError CoordinatorResult × S) [
                  | err e ↦ (err e, s)
                  | ok dev ↦ elim (resolve z r id at) [
                    | err e ↦ (err e, s)
                    | ok resolved ↦ enforced id at (enforce_resolved bs hook id dev resolved s)
                  ]
                ]).1
        found (err e) = h
        found (ok dev) = solved dev (resolve z r id at)
