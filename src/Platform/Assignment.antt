-- ===== src/Platform/Assignment.antt =====
-- What a device with an agent is told at its next check-in: all that its policy requires.
use safe_play_guardian.Prelude.{
  ℕ, ℤ, ◌≡◌, refl, sym, ap, subst, ◌∙◌, String, Bool, true, false, string_eq, eq_refl, Bool-cases,
  inl, inr, Option, none, some, List, [], ◌∷◌, ◌++◌, map, length, ltb, All, All-append, arith,
  if◌then◌else◌,
}
use mathlib.Core.List.{append_assoc, append-nil}
use safe_play_guardian.Device.Model.{
  Capability, Device, cap_schedule_block, cap_time_budget, cap_domain_block, cap_app_block,
}
use safe_play_guardian.Policy.Model.{
  Policy, Schedule, TimeBudget, Content, ResolvedPolicy, required_caps, schedule_caps, budget_caps,
  content_caps, any_minutes, has_items,
}
use safe_play_guardian.Policy.Resolver.{Zones, Sources, ok, resolve}
use safe_play_guardian.Policy.Resolver.Required.{Requires, resolve-Requires}
use safe_play_guardian.Event.Logger.{PolicyLookup}
use safe_play_guardian.Store.Exec.{World, Db}
use safe_play_guardian.Enforce.Enforcer.{RuleOutcome, Enforcer}
use safe_play_guardian.Enforce.Noop.{backend}
use safe_play_guardian.Enforce.Agent.{
  Pending, capabilities, can_handle, apply, store, load, pull_pending, queued,
}
use safe_play_guardian.Enforce.Coordinator.{
  outcome_of, insert_cap, sort_caps, cap_lt, assign, Assignments, pick, by_name, place, split_caps,
  report, dispatch_one, dispatch, enforce_resolved, enforce,
}
use safe_play_guardian.Platform.Hooks.{on_rule, agent_backend, platform_backends}

-- The agent offers the capability.
abbrev pub IsOffered : Capability → Type 0
IsOffered c = capabilities c ≡ true

insert_cap-All :
    (c : Capability) (cs : List Capability)
    → IsOffered c
    → All IsOffered cs
    → All IsOffered (insert_cap c cs)
unfolding insert_cap
insert_cap-All c [] p h = (p, tt)
insert_cap-All c (d ∷ ds) p (q, h) = elim (Bool-cases (cap_lt d c)) [
  | inl e ↦ rw e (q, insert_cap-All c ds p h)
  | inr e ↦ rw e (p, (q, h))
]

sort_caps-All : (cs : List Capability) → All IsOffered cs → All IsOffered (sort_caps cs)
unfolding sort_caps
sort_caps-All [] h = tt
sort_caps-All (c ∷ cs) (p, h) = insert_cap-All c (sort_caps cs) p (sort_caps-All cs h)

one-All : (b : Bool) (c : Capability) → IsOffered c → All IsOffered (if b then c ∷ [] else [])
one-All true c h = (h, tt)
one-All false c h = tt

-- Every capability that a policy can require is one that the agent offers.
required_caps-All : (o : Option Policy) → All IsOffered (required_caps o)
unfolding required_caps capabilities
required_caps-All none = tt
required_caps-All (some p) =
    All-append IsOffered (schedule_caps p.schedule)
      (budget_caps p.time_budget ++ content_caps p.content) (scheduled p.schedule)
      (All-append IsOffered (budget_caps p.time_budget) (content_caps p.content)
        (budgeted p.time_budget) (listed p.content))
  where
    scheduled : (o : Option Schedule) → All IsOffered (schedule_caps o)
    scheduled none = tt
    scheduled (some s) = one-All (ltb 0 (length s.blocks)) cap_schedule_block refl

    budgeted : (o : Option TimeBudget) → All IsOffered (budget_caps o)
    budgeted none = tt
    budgeted (some b) = one-All (any_minutes b) cap_time_budget refl

    listed : (o : Option Content) → All IsOffered (content_caps o)
    listed none = tt
    listed (some c) =
        All-append IsOffered _ _ (one-All (has_items c.blocked_domains) cap_domain_block refl)
          (one-All (has_items c.blocked_apps) cap_app_block refl)

module _ (show : ℤ → String) (show_nat : ℕ → String) (dev : Device)
    (able : can_handle dev ≡ true) where
  abbrev bs : List (Enforcer (Pending × Db))
  bs = platform_backends show show_nat

  pick-agent : (c : Capability) → IsOffered c → pick bs c dev ≡ some agent_backend
  unfolding pick platform_backends agent_backend
  pick-agent c h = rw (h, able) refl

  split_agent :
      (cs pre : List Capability)
      → All IsOffered cs
      → split_caps bs dev cs (("agent", pre) ∷ [], []) ≡ (("agent", pre ++ cs) ∷ [], [])
  unfolding split_caps place assign agent_backend
  split_agent [] pre h = ap (λ l. (("agent", l) ∷ [], [])) (sym (append-nil pre))
  split_agent (c ∷ cs) pre (p, h) = rw (pick-agent c p) (
      split_agent cs (pre ++ c ∷ []) h
      ∙ ap (λ l. (("agent", l) ∷ [], [])) (append_assoc pre (c ∷ []) cs))

  -- The split of capabilities that the agent offers: all go to the agent.
  abbrev to_agent : List Capability → Assignments
  to_agent [] = []
  to_agent (c ∷ cs) = ("agent", c ∷ cs) ∷ []

  split_caps-agent :
      (cs : List Capability) → All IsOffered cs → split_caps bs dev cs ([], []) ≡ (to_agent cs, [])
  unfolding split_caps place assign agent_backend
  split_caps-agent [] h = refl
  split_caps-agent (c ∷ cs) (p, h) = rw (pick-agent c p) (split_agent cs (c ∷ []) h)

  module _ (w : World) (lookup : Option PolicyLookup) (json : String → String) (id : String) where
    report-queue :
        (ros : List RuleOutcome) (acc : List RuleOutcome × (Pending × Db))
        → (report (some (on_rule w lookup json)) id ros acc).1.0 ≡ acc.1.0
    unfolding report on_rule
    report-queue [] acc = refl
    report-queue (ro ∷ ros) (rules, (queue, s)) = report-queue ros _

    -- The queue after a slice with these capabilities, if there are any.
    abbrev queue_of : ResolvedPolicy → List Capability → Pending → Pending
    queue_of policy [] queue = queue
    queue_of policy (c ∷ cs) queue = store id (record { policy = policy; caps = c ∷ cs }) queue

    dispatch-queue :
        (policy : ResolvedPolicy) (cs : List Capability) (queue : Pending) (s : Db)
        → (dispatch bs (some (on_rule w lookup json)) id policy (to_agent cs) ([], (queue, s))).1.0
          ≡ queue_of policy cs queue
    unfolding dispatch dispatch_one by_name platform_backends agent_backend apply backend
    dispatch-queue policy [] queue s = refl
    dispatch-queue policy (c ∷ cs) queue s =
        report-queue (map (outcome_of "agent") (map queued (c ∷ cs)))
          ([], (queue_of policy (c ∷ cs) queue, s))

    -- What the device takes: the new capabilities, or where there are none, those it would have
    -- taken before.
    abbrev pub told : List Capability → List Capability → List Capability
    told [] old = old
    told (c ∷ cs) old = c ∷ cs

    abbrev pub taken : Pending → List Capability
    taken queue = elim (pull_pending id queue).0 [ none ↦ [] | some slice ↦ slice.caps ]

    taken-queue_of :
        (policy : ResolvedPolicy) (cs : List Capability) (queue : Pending)
        → taken (queue_of policy cs queue) ≡ told cs (taken queue)
    unfolding pull_pending store load
    taken-queue_of policy [] queue = refl
    taken-queue_of policy (c ∷ cs) queue = rw (eq_refl id, taken) refl

    enforce_resolved-taken :
        (resolved : ResolvedPolicy) (queue : Pending) (s : Db)
        → All IsOffered resolved.required_caps
        → taken (enforce_resolved bs (some (on_rule w lookup json)) id dev resolved (queue, s)).1.0
          ≡ told (sort_caps resolved.required_caps) (taken queue)
    unfolding enforce_resolved
    enforce_resolved-taken resolved queue s h =
        let needed = sort_caps resolved.required_caps in
        let policy : ResolvedPolicy = record resolved { required_caps = needed } in
        rw (split_caps-agent needed (sort_caps-All resolved.required_caps h)) (
          ap taken (
            report-queue [] (
              dispatch bs (some (on_rule w lookup json)) id policy (to_agent needed)
                ([], (queue, s)))
            ∙ dispatch-queue policy needed queue s)
          ∙ taken-queue_of policy needed queue)

    enforce-state :
        (z : Zones) (r : Sources) (at : ℕ) (resolved : ResolvedPolicy) (acc : Pending × Db)
        → r.get id ≡ ok dev
        → resolve z r id at ≡ ok resolved
        → (enforce z r bs (some (on_rule w lookup json)) id at acc).1
          ≡ (enforce_resolved bs (some (on_rule w lookup json)) id dev resolved acc).1
    unfolding enforce
    enforce-state z r at resolved acc found solved = ground (arith, found, solved)

    -- If the device is found, has an agent token, and its policy resolves, then what the next
    -- check-in takes after Enforce is exactly the required capabilities in their order, or, where
    -- none is required, what it would have taken before.
    pub enforce-taken :
        (z : Zones) (r : Sources) (at : ℕ) (resolved : ResolvedPolicy) (queue : Pending) (s : Db)
        → r.get id ≡ ok dev
        → resolve z r id at ≡ ok resolved
        → taken (enforce z r bs (some (on_rule w lookup json)) id at (queue, s)).1.0
          ≡ told (sort_caps resolved.required_caps) (taken queue)
    enforce-taken z r at resolved queue s found solved =
        let (o, caps) = subst Requires solved (resolve-Requires z r id at) in
        ap (λ (x : Pending × Db). taken x.0) (enforce-state z r at resolved (queue, s) found solved)
        ∙ enforce_resolved-taken resolved queue s
            (subst (All IsOffered) (sym caps) (required_caps-All o))
