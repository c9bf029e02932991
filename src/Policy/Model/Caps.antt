-- ===== src/Policy/Model/Caps.antt =====
-- What RequiredCaps asks of a backend: one capability for each rule that the policy has.
use mathlib.Core.List.{Memᴰ}
use safe_play_guardian.Prelude.{
  ltb, ◌≡◌, refl, ap, ◌≢◌, ◌↔◌, inl, inr, some, none, Option, true, List, [], ◌∷◌, arith, String,
  is_positive, length, any_sound, any_complete, mem-append_left, mem-append_right, mem-append_cases,
  mem_single, mem_single_intro, if◌then◌else◌,
}
use safe_play_guardian.Device.Model.{
  Capability, cap_schedule_block, cap_time_budget, cap_domain_block, cap_app_block,
}
use safe_play_guardian.Policy.Model.{
  TimeBudget, Schedule, Content, Policy, Weekday, sunday, monday, tuesday, wednesday, thursday,
  friday, saturday, weekdays, any_minutes, schedule_caps, budget_caps, content_caps, has_items,
  required_caps,
}

-- A rule of the policy that the capability serves: a schedule with a block, a budget with a day of
-- positive minutes, a blocked domain, a blocked app.
pub data Needs (p : Policy) (c : Capability) : Type 0 where
  by_schedule :
      (s : Schedule) → c ≡ cap_schedule_block → p.schedule ≡ some s → s.blocks ≢ [] → Needs p c
  by_budget :
      (b : TimeBudget) (day : Weekday)
      → c ≡ cap_time_budget
      → p.time_budget ≡ some b
      → is_positive (b.minutes_by_weekday day) ≡ true
      → Needs p c
  by_domains :
      (k : Content) (d : String) (ds : List String)
      → c ≡ cap_domain_block
      → p.content ≡ some k
      → k.blocked_domains ≡ some (d ∷ ds)
      → Needs p c
  by_apps :
      (k : Content) (d : String) (ds : List String)
      → c ≡ cap_app_block
      → p.content ≡ some k
      → k.blocked_apps ≡ some (d ∷ ds)
      → Needs p c

mem_weekdays : (day : Weekday) → Memᴰ day weekdays
mem_weekdays sunday = Memᴰ.head refl
mem_weekdays monday = Memᴰ.tail (Memᴰ.head refl)
mem_weekdays tuesday = Memᴰ.tail (Memᴰ.tail (Memᴰ.head refl))
mem_weekdays wednesday = Memᴰ.tail (Memᴰ.tail (Memᴰ.tail (Memᴰ.head refl)))
mem_weekdays thursday = Memᴰ.tail (Memᴰ.tail (Memᴰ.tail (Memᴰ.tail (Memᴰ.head refl))))
mem_weekdays friday = Memᴰ.tail (Memᴰ.tail (Memᴰ.tail (Memᴰ.tail (Memᴰ.tail (Memᴰ.head refl)))))
mem_weekdays saturday =
    Memᴰ.tail (Memᴰ.tail (Memᴰ.tail (Memᴰ.tail (Memᴰ.tail (Memᴰ.tail (Memᴰ.head refl))))))

schedule_caps_sound :
    (p : Policy) (o : Option Schedule) {c : Capability}
    → p.schedule ≡ o
    → Memᴰ c (schedule_caps o)
    → Needs p c
schedule_caps_sound p none e m = elim m [ ]
schedule_caps_sound p (some s) e m =
    let (h, k) = mem_single (ltb 0 (length s.blocks)) m in
    by_schedule s k e (λ n. ground (arith, ap (λ (l : List _). length l) n))

budget_caps_sound :
    (p : Policy) (o : Option TimeBudget) {c : Capability}
    → p.time_budget ≡ o
    → Memᴰ c (budget_caps o)
    → Needs p c
budget_caps_sound p none e m = elim m [ ]
budget_caps_sound p (some b) e m =
    let (h, k) = mem_single (any_minutes b) m in
    let (day, _, q) = any_sound (λ day. is_positive (b.minutes_by_weekday day)) weekdays h in
    by_budget b day k e q

has_items_sound :
    (o : Option (List String))
    → has_items o ≡ true
    → (d : String) × (ds : List String) × (o ≡ some (d ∷ ds))
has_items_sound none h = cc
has_items_sound (some []) h = cc
has_items_sound (some (d ∷ ds)) h = (d, ds, refl)

content_caps_sound :
    (p : Policy) (o : Option Content) {c : Capability}
    → p.content ≡ o
    → Memᴰ c (content_caps o)
    → Needs p c
content_caps_sound p none e m = elim m [ ]
content_caps_sound p (some k) e m = elim (mem-append_cases _ _ m) [
  | inl n ↦
      let (h, q) = mem_single (has_items k.blocked_domains) n in
      let (d, ds, w) = has_items_sound k.blocked_domains h in by_domains k d ds q e w
  | inr n ↦
      let (h, q) = mem_single (has_items k.blocked_apps) n in
      let (d, ds, w) = has_items_sound k.blocked_apps h in by_apps k d ds q e w
]

required_caps_sound : (p : Policy) (c : Capability) → Memᴰ c (required_caps (some p)) → Needs p c
unfolding required_caps
required_caps_sound p c m = elim (mem-append_cases (schedule_caps p.schedule) _ m) [
  | inl n ↦ schedule_caps_sound p p.schedule refl n
  | inr n ↦ elim (mem-append_cases (budget_caps p.time_budget) _ n) [
    | inl k ↦ budget_caps_sound p p.time_budget refl k
    | inr k ↦ content_caps_sound p p.content refl k
  ]
]

has_blocks : (s : Schedule) → s.blocks ≢ [] → ltb 0 (length s.blocks) ≡ true
has_blocks s h = ground arith

module _ {c : Capability} where
  schedule_caps_complete :
      {o : Option Schedule} (s : Schedule)
      → o ≡ some s
      → s.blocks ≢ []
      → c ≡ cap_schedule_block
      → Memᴰ c (schedule_caps o)
  schedule_caps_complete s e h k = rw e (mem_single_intro (has_blocks s h) k)

  budget_caps_complete :
      {o : Option TimeBudget} (b : TimeBudget) (day : Weekday)
      → o ≡ some b
      → is_positive (b.minutes_by_weekday day) ≡ true
      → c ≡ cap_time_budget
      → Memᴰ c (budget_caps o)
  budget_caps_complete b day e h k = rw e (
      mem_single_intro
        (any_complete (λ d. is_positive (b.minutes_by_weekday d)) weekdays (mem_weekdays day) h) k)

  domain_caps_complete :
      {o : Option Content} (k : Content)
      → o ≡ some k
      → has_items k.blocked_domains ≡ true
      → c ≡ cap_domain_block
      → Memᴰ c (content_caps o)
  domain_caps_complete k e h q = rw e (mem-append_left _ (mem_single_intro h q))

  app_caps_complete :
      {o : Option Content} (k : Content)
      → o ≡ some k
      → has_items k.blocked_apps ≡ true
      → c ≡ cap_app_block
      → Memᴰ c (content_caps o)
  app_caps_complete k e h q = rw e (
      mem-append_right (if has_items k.blocked_domains then cap_domain_block ∷ [] else [])
        (mem_single_intro h q))

required_caps_complete : (p : Policy) (c : Capability) → Needs p c → Memᴰ c (required_caps (some p))
unfolding required_caps
required_caps_complete p c (by_schedule s k e h) =
    mem-append_left _ (schedule_caps_complete s e h k)
required_caps_complete p c (by_budget b day k e h) =
    mem-append_right (schedule_caps p.schedule)
      (mem-append_left _ (budget_caps_complete b day e h k))
required_caps_complete p c (by_domains k d ds q e w) =
    mem-append_right (schedule_caps p.schedule)
      (mem-append_right (budget_caps p.time_budget) (domain_caps_complete k e (ap has_items w) q))
required_caps_complete p c (by_apps k d ds q e w) =
    mem-append_right (schedule_caps p.schedule)
      (mem-append_right (budget_caps p.time_budget) (app_caps_complete k e (ap has_items w) q))

-- A capability is required of the backends exactly when the policy has a rule that it serves.
pub required_caps_iff : (p : Policy) (c : Capability) → Memᴰ c (required_caps (some p)) ↔ Needs p c
required_caps_iff p c = (required_caps_sound p c, required_caps_complete p c)
