-- ===== src/Enforce/Noop.antt =====
-- internal/enforce/noop/noop.go: the fallback backend, which applies nothing.
use Prim.Native.String
use safe_play_guardian.Prelude.{
  ℕ, ℤ, String, Bool, true, ◌||◌, ◌==◌, string_eq, List, map, length, if◌then◌else◌,
}
use safe_play_guardian.Device.Model.{
  Capability, cap_screen_lock, cap_time_budget, cap_app_block, cap_domain_block, cap_schedule_block,
}
use safe_play_guardian.Policy.Model.{ResolvedPolicy}
use safe_play_guardian.Enforce.Enforcer.{Slice, PerRule, rule_applied, Enforcer}

unfoldable pub capabilities : Capability → Bool
capabilities c =
    c == cap_screen_lock
    || c == cap_time_budget
    || c == cap_app_block
    || c == cap_domain_block
    || c == cap_schedule_block

-- The texts of fmt.Sprintf, by the verb %d of an int.
module _ (show : ℤ → String) (show_nat : ℕ → String) where
  -- describe
  unfoldable pub describe : Capability → ResolvedPolicy → String
  describe cap rp =
      if cap == cap_screen_lock
      then (if rp.screen_locked
          then String.◌++◌ "would lock screen (reason=" (String.◌++◌ rp.lock_reason ")")
          else "would keep screen unlocked")
      else if cap == cap_time_budget
      then String.◌++◌ "would enforce " (
          String.◌++◌ (show rp.time_budget_minutes) (
            String.◌++◌ " min/day budget (used "
              (String.◌++◌ (show_nat rp.time_budget_used_mins) ")")))
      else if cap == cap_schedule_block
      then "would honor schedule rule"
      else if cap == cap_domain_block
      then String.◌++◌ "would block "
          (String.◌++◌ (show_nat (length rp.blocked_domains)) " domain(s)")
      else if cap == cap_app_block
      then String.◌++◌ "would block " (String.◌++◌ (show_nat (length rp.blocked_apps)) " app(s)")
      else "noop"

  unfoldable pub described : ResolvedPolicy → Capability → PerRule
  unfolding describe
  described rp cap = record {
    capability = cap;
    outcome = rule_applied;
    error = "";
    note = describe cap rp;
  }

  -- Apply; the log lines are left out.
  unfoldable pub apply {ℓ} : {S : Type ℓ} → String → Slice → S → List PerRule × S
  unfolding described
  apply device_id slice s = (map (described slice.policy) slice.caps, s)

  -- The backend as an Enforcer over any state.
  unfoldable pub backend : (S : Type 0) → Enforcer S
  unfolding capabilities apply
  backend S = record {
    name = "noop";
    capabilities = capabilities;
    can_handle = λ d. true;
    apply = apply;
  }
