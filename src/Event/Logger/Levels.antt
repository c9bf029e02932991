-- ===== src/Event/Logger/Levels.antt =====
-- The level at which the log redacts is the level that Resolve reports.
use safe_play_guardian.Prelude.{
  ℕ, ◌≡◌, refl, sym, ◌∙◌, String, Bool, true, false, Option, none, some, Option-cases, inl, inr,
  arith,
}
use safe_play_guardian.Policy.Model.{
  Policy, ResolvedPolicy, monitoring_enforcement_only, TimeBudget, Content, required_caps,
}
use safe_play_guardian.Policy.Resolver.{
  Zones, Sources, ok, resolve, apply_rules, apply_content, budget_rule, apply_schedule, location,
}
use safe_play_guardian.Policy.Resolver.Verdict.{Found, resolve_of_Found, start_result}
use safe_play_guardian.Policy.Schedule.{eval_schedule}
use safe_play_guardian.Event.Model.{Event}
use safe_play_guardian.Event.Logger.{PolicyLookup, effective_level, level_of}

-- The policy store, as the log reads it.
abbrev pub lookup_of : Sources → PolicyLookup
lookup_of r = record {
  get_person_policy = r.get_person_policy;
  get_device_override = r.get_device_override;
}

module _ (z : Zones) (r : Sources) where
  budget_rule-level :
      (o : Option TimeBudget) (id : String) (loc : z.Location) (at : ℕ) (result : ResolvedPolicy)
      → (budget_rule z r o id loc at result).log_level ≡ result.log_level
  unfolding budget_rule
  budget_rule-level none id loc at result = refl
  budget_rule-level (some b) id loc at result = ground arith

  schedule-level :
      (p : Bool × String) (result : ResolvedPolicy)
      → (apply_schedule p result).log_level ≡ result.log_level
  schedule-level (true, reason) result = refl
  schedule-level (false, reason) result = refl

  content-level :
      (o : Option Content) (result : ResolvedPolicy)
      → (apply_content o result).log_level ≡ result.log_level
  unfolding apply_content
  content-level none result = refl
  content-level (some c) result = refl

  rules-level :
      (merged : Policy) (id : String) (at : ℕ) (result : ResolvedPolicy)
      → result.log_level ≡ monitoring_enforcement_only
      → (apply_rules z r merged id at result).log_level ≡ level_of (some merged)
  unfolding apply_rules required_caps
  rules-level merged id at result h = elim (Option-cases merged.monitoring) [
    | inr (level, e) ↦ rw (e, level_of) refl
    | inl e ↦
        let loc = location z r merged.timezone in
        let capped = record result { required_caps = required_caps (some merged) } in
        let verdict = eval_schedule merged.schedule (z.local_time loc at) in
        let scheduled = apply_schedule verdict capped in
        rw (e, level_of)
          (content-level merged.content (budget_rule z r merged.time_budget id loc at scheduled)
            ∙ budget_rule-level merged.time_budget id loc at scheduled
            ∙ schedule-level verdict capped
            ∙ h)
  ]

  -- Where the device, its person's rules and its own override are read and merge into a policy:
  -- for an event of the device, by the person who owns it, the level at which the log redacts is
  -- the log level of the policy that Resolve answers for the device at any time.
  pub effective_level-resolve :
      (device_id : String) (at : ℕ) (merged : Policy) (f : Found r device_id merged) (ev : Event)
      → ev.device_id ≡ device_id
      → ev.person_id ≡ some f.person
      → (res : ResolvedPolicy) × (resolve z r device_id at ≡ ok res)
        × (effective_level (some (lookup_of r)) ev ≡ res.log_level)
  unfolding effective_level
  effective_level-resolve device_id at merged f ev d p =
      let start = start_result z r device_id at merged f.person in
      (
        apply_rules z r merged device_id at start,
        resolve_of_Found z r device_id at merged f,
        rw (p, d, f.get_policy, f.get_override, f.merges)
            (sym (rules-level merged device_id at start refl)),
      )
