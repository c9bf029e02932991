-- ===== src/Enforce/Coordinator.antt =====
-- internal/enforce/coordinator.go: which backend applies which capability.
pub mod Splitting
pub mod Coverage
pub mod Keeps
use Prim.Native.String
use safe_play_guardian.Prelude.{
  ℕ, Ordering, String, Bool, true, false, not, ◌==◌, string_eq, Option, none, some, List, [], ◌∷◌,
  ◌++◌, map, if◌then◌else◌,
}
use safe_play_guardian.Device.Model.{Capability, Device}
use safe_play_guardian.Policy.Model.{ResolvedPolicy}
use safe_play_guardian.Policy.Resolver.{Zones, Sources, Result, ok, err, ResolveError, resolve}
use safe_play_guardian.Enforce.Enforcer.{
  Slice, PerRule, RuleOutcome, CoordinatorResult, Enforcer, rule_unenforceable,
}

abbrev pub cap_lt : Capability → Capability → Bool
cap_lt a b = elim (String.compare a b) [ Ordering.lt ↦ true | _ ↦ false ]

unfoldable pub insert_cap : Capability → List Capability → List Capability
insert_cap c [] = c ∷ []
insert_cap c (d ∷ ds) = if cap_lt d c then d ∷ insert_cap c ds else c ∷ d ∷ ds

-- sortCaps; texts that do not differ in the order are equal, so the result is the one of any sort.
unfoldable pub sort_caps : List Capability → List Capability
unfolding insert_cap
sort_caps [] = []
sort_caps (c ∷ cs) = insert_cap c (sort_caps cs)

-- The map from names to capabilities; its keys stand in the order of backendOrder.
abbrev pub Assignments : Type 0
Assignments = List (String × List Capability)

unfoldable pub assign : String → Capability → Assignments → Assignments
assign name cap [] = (name, cap ∷ []) ∷ []
assign name cap ((k, caps) ∷ rest) =
    if k == name then (k, caps ++ cap ∷ []) ∷ rest else (k, caps) ∷ assign name cap rest

abbrev pub no_backend : String
no_backend = "no registered backend can apply this capability to this device"

abbrev pub unenforceable : Capability → RuleOutcome
unenforceable cap = record {
  capability = cap;
  backend = "";
  outcome = rule_unenforceable;
  error = "";
  note = no_backend;
}

abbrev pub outcome_of : String → PerRule → RuleOutcome
outcome_of name r = record {
  capability = r.capability;
  backend = name;
  outcome = r.outcome;
  error = r.error;
  note = r.note;
}

-- OnRule, which may be nil.
abbrev pub Hook : Type 0 → Type 0
Hook S = Option (String → RuleOutcome → S → S)

module _ {S : Type 0} where
  -- pick: the first backend that offers the capability and can handle the device.
  unfoldable pub pick : List (Enforcer S) → Capability → Device → Option (Enforcer S)
  pick [] cap dev = none
  pick (b ∷ bs) cap dev =
      if not (b.capabilities cap)
      then pick bs cap dev
      else if not (b.can_handle dev)
      then pick bs cap dev
      else some b

  -- byName: a later backend of the same name replaces an earlier one.
  unfoldable pub by_name : List (Enforcer S) → String → Option (Enforcer S)
  by_name [] name = none
  by_name (b ∷ bs) name = elim (by_name bs name) [
    | some later ↦ some later
    | none ↦ if b.name == name then some b else none
  ]

  -- One capability goes to the slice of its backend, or to those that no backend can apply.
  unfoldable pub place :
      Option (Enforcer S)
      → Capability
      → Assignments × List Capability
      → Assignments × List Capability
  place none c (given, unsatisfied) = (given, unsatisfied ++ c ∷ [])
  place (some b) c (given, unsatisfied) = (assign b.name c given, unsatisfied)

  -- The loop over the needed capabilities.
  unfoldable pub split_caps :
      List (Enforcer S)
      → Device
      → List Capability
      → Assignments × List Capability
      → Assignments × List Capability
  unfolding place
  split_caps bs dev [] acc = acc
  split_caps bs dev (c ∷ cs) acc = split_caps bs dev cs (place (pick bs c dev) c acc)

  abbrev pub call : Hook S → String → RuleOutcome → S → S
  call none id ro s = s
  call (some h) id ro s = h id ro s

  -- Appending outcomes to the result, with a call of the hook for each.
  unfoldable pub report :
      Hook S → String → List RuleOutcome → List RuleOutcome × S → List RuleOutcome × S
  report hook id [] acc = acc
  report hook id (ro ∷ ros) (rules, s) = report hook id ros (rules ++ ro ∷ [], call hook id ro s)

  -- One backend's slice; a name that is not there would be a nil call, and is never assigned.
  unfoldable pub dispatch_one :
      List (Enforcer S)
      → Hook S
      → String
      → ResolvedPolicy
      → String × List Capability
      → List RuleOutcome × S
      → List RuleOutcome × S
  unfolding report
  dispatch_one bs hook id resolved (name, caps) (rules, s) = elim (by_name bs name) [
    | none ↦ (rules, s)
    | some b ↦
        let (per_rule, s') = b.apply id (record { policy = resolved; caps = caps }) s in
        report hook id (map (outcome_of b.name) per_rule) (rules, s')
  ]

  unfoldable pub dispatch :
      List (Enforcer S)
      → Hook S
      → String
      → ResolvedPolicy
      → Assignments
      → List RuleOutcome × S
      → List RuleOutcome × S
  unfolding dispatch_one
  dispatch bs hook id resolved [] acc = acc
  dispatch bs hook id resolved (slice ∷ slices) acc =
      dispatch bs hook id resolved slices (dispatch_one bs hook id resolved slice acc)

  -- The body of Enforce once the device and its policy are known; the sort is in place, so the
  -- policy that the backends see has its capabilities sorted too.
  unfoldable pub enforce_resolved :
      List (Enforcer S) → Hook S → String → Device → ResolvedPolicy → S → List RuleOutcome × S
  unfolding sort_caps split_caps dispatch report
  enforce_resolved bs hook id dev resolved s =
      let needed = sort_caps resolved.required_caps in
      let (given, unsatisfied) = split_caps bs dev needed ([], []) in
      report hook id (map unenforceable unsatisfied)
        (dispatch bs hook id (record resolved { required_caps = needed }) given ([], s))

  abbrev enforced : String → ℕ → List RuleOutcome × S → Result ResolveError CoordinatorResult × S
  enforced id at (rules, s) = (ok (record { device_id = id; at = at; rules = rules }), s)

  -- Enforce
  unfoldable pub enforce :
      (z : Zones) (r : Sources)
      → List (Enforcer S)
      → Hook S
      → String
      → ℕ
      → S
      → Result ResolveError CoordinatorResult × S
  unfolding enforce_resolved
  enforce z r bs hook id at s = elim (r.get id) [
    | err e ↦ (err e, s)
    | ok dev ↦ elim (resolve z r id at) [
      | err e ↦ (err e, s)
      | ok resolved ↦ enforced id at (enforce_resolved bs hook id dev resolved s)
    ]
  ]
