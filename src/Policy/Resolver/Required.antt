-- ===== src/Policy/Resolver/Required.antt =====
-- The capabilities of a resolved policy are those that the merged policy requires.
use safe_play_guardian.Prelude.{
  ℕ, ◌≡◌, refl, sym, subst, ◌∙◌, String, Bool, true, false, Option-cases, inl, inr, Option, none,
  some, [], arith,
}
use safe_play_guardian.Device.Model.{Device}
use safe_play_guardian.Policy.Model.{
  MonitoringLevel, TimeBudget, Content, Policy, ResolvedPolicy, required_caps,
}
use safe_play_guardian.Policy.Schedule.{eval_schedule}
use safe_play_guardian.Policy.Resolver.{
  Zones, Sources, Result, ok, err, ResolveError, apply_rules, apply_schedule, budget_rule,
  apply_content, apply_monitoring, location, initial, merge, resolve, resolve_device,
  resolve_person, resolve_merged,
}

schedule-caps :
    (p : Bool × String) (result : ResolvedPolicy)
    → (apply_schedule p result).required_caps ≡ result.required_caps
schedule-caps (true, reason) result = refl
schedule-caps (false, reason) result = refl

content-caps :
    (o : Option Content) (result : ResolvedPolicy)
    → (apply_content o result).required_caps ≡ result.required_caps
unfolding apply_content
content-caps none result = refl
content-caps (some c) result = refl

monitoring-caps :
    (o : Option MonitoringLevel) (result : ResolvedPolicy)
    → (apply_monitoring o result).required_caps ≡ result.required_caps
unfolding apply_monitoring
monitoring-caps none result = refl
monitoring-caps (some level) result = refl

-- The capabilities are those that some policy requires, or that none does.
abbrev pub Requires : Result ResolveError ResolvedPolicy → Type 0
Requires (ok res) = (o : Option Policy) × (res.required_caps ≡ required_caps o)
Requires (err e) = Unit

module _ (z : Zones) (r : Sources) where
  budget-caps :
      (o : Option TimeBudget) (id : String) (loc : z.Location) (at : ℕ) (result : ResolvedPolicy)
      → (budget_rule z r o id loc at result).required_caps ≡ result.required_caps
  unfolding budget_rule
  budget-caps none id loc at result = refl
  budget-caps (some b) id loc at result = ground arith

  apply_rules-caps :
      (merged : Policy) (id : String) (at : ℕ) (result : ResolvedPolicy)
      → (apply_rules z r merged id at result).required_caps ≡ required_caps (some merged)
  unfolding apply_rules
  apply_rules-caps merged id at result =
      let loc = location z r merged.timezone in
      let capped = record result { required_caps = required_caps (some merged) } in
      let verdict = eval_schedule merged.schedule (z.local_time loc at) in
      let scheduled = apply_schedule verdict capped in
      let budgeted = budget_rule z r merged.time_budget id loc at scheduled in
      monitoring-caps merged.monitoring (apply_content merged.content budgeted)
      ∙ content-caps merged.content budgeted
      ∙ budget-caps merged.time_budget id loc at scheduled
      ∙ schedule-caps verdict capped

  resolve_merged-caps :
      (o : Option Policy) (id : String) (at : ℕ) (result : ResolvedPolicy)
      → result.required_caps ≡ []
      → (resolve_merged z r o id at result).required_caps ≡ required_caps o
  unfolding resolve_merged required_caps
  resolve_merged-caps none id at result e = e
  resolve_merged-caps (some merged) id at result e = apply_rules-caps merged id at result

  resolve_person-Requires :
      (person id : String) (at : ℕ) (result : ResolvedPolicy)
      → result.required_caps ≡ []
      → Requires (resolve_person z r person id at result)
  unfolding resolve_person
  resolve_person-Requires person id at result e = elim (Option-cases (r.get_person_policy person)) [
    | inl f ↦ rw (f, Requires) tt
    | inr (p, f) ↦ elim (Option-cases (r.get_device_override id)) [
      | inl g ↦ rw (f, g, Requires) tt
      | inr (o, g) ↦ rw (f, g, Requires) (merge p o, resolve_merged-caps (merge p o) id at result e)
    ]
  ]

  resolve_device-Requires :
      (dev : Device) (id : String) (at : ℕ) → Requires (resolve_device z r dev id at)
  unfolding resolve_device required_caps
  resolve_device-Requires dev id at = elim (Option-cases dev.person_id) [
    | inl f ↦ rw (f, Requires) (none, refl)
    | inr (person, f) ↦
        subst
          (λ (o : Option String). Requires (elim o [
            | none ↦ ok (initial id at)
            | some person ↦
                resolve_person z r person id at (record (initial id at) { person_id = some person })
          ]))
          (sym f) (resolve_person-Requires person id at _ refl)
  ]

  pub resolve-Requires : (id : String) (at : ℕ) → Requires (resolve z r id at)
  unfolding resolve
  resolve-Requires id at = go (r.get id) refl
    where
      go : (d : Result ResolveError Device) → r.get id ≡ d → Requires (resolve z r id at)
      go (err e) f = rw (f, Requires) tt
      go (ok dev) f =
          subst
            (λ (d : Result ResolveError Device).
              Requires (elim d [ err e ↦ err e | ok dev ↦ resolve_device z r dev id at ]))
            (sym f) (resolve_device-Requires dev id at)
