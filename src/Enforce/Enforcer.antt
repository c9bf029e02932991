-- ===== src/Enforce/Enforcer.antt =====
-- internal/enforce/enforcer.go: the interface of a backend, and what it promises.
use safe_play_guardian.Prelude.{ℕ, String, Bool, List, map, ◌≡◌}
use safe_play_guardian.Device.Model.{Capability, Device}
use safe_play_guardian.Policy.Model.{ResolvedPolicy}

abbrev pub RuleResult : Type 0
RuleResult = String

abbrev pub rule_applied : RuleResult
rule_applied = "applied"

abbrev pub rule_failed : RuleResult
rule_failed = "failed"

abbrev pub rule_unenforceable : RuleResult
rule_unenforceable = "unenforceable"

pub record Slice : Type 0 where
  pub policy : ResolvedPolicy
  pub caps : List Capability

pub record PerRule : Type 0 where
  pub capability : Capability
  pub outcome : RuleResult
  pub error : String
  pub note : String

pub record RuleOutcome : Type 0 where
  pub capability : Capability
  pub backend : String
  pub outcome : RuleResult
  pub error : String
  pub note : String

pub record CoordinatorResult : Type 0 where
  pub device_id : String
  pub at : ℕ
  pub rules : List RuleOutcome

-- One backend over a state S. Of a Result only its rules are read; Revoke is called by nobody.
pub record Enforcer (S : Type 0) : Type 0 where
  pub name : String
  pub capabilities : Capability → Bool
  pub can_handle : Device → Bool
  pub apply : String → Slice → S → List PerRule × S

-- "Every call returns a PerRule for every cap in slice.Caps."
abbrev pub Answers : {S : Type 0} → Enforcer S → Type 0
Answers {S} b =
    (id : String) (slice : Slice) (s : S)
    → map (λ (r : PerRule). r.capability) (b.apply id slice s).0 ≡ slice.caps
