-- ===== src/Platform/Hooks.antt =====
-- cmd/platform/main.go: the callbacks by which sightings and rule outcomes reach the event log, and
-- the two backends of the coordinator.
use safe_play_guardian.Prelude.{
  utc_stamp, String, ◌==◌, string_eq, Option, none, some, List, [], ◌∷◌, ◌++◌, ℤ, ℕ, if◌then◌else◌,
}
use safe_play_guardian.Device.Model.{Device, Observation}
use safe_play_guardian.Device.Registry.{get}
use safe_play_guardian.Event.Model.{
  Kind, Severity, Event, Attrs, kind_device_seen, kind_policy_applied, kind_policy_failed,
  kind_policy_unenforceable, severity_info, severity_error, severity_warn,
}
use safe_play_guardian.Event.Logger.{PolicyLookup, append}
use safe_play_guardian.Store.Exec.{World, Result, ok, err, Db, M, ◌>>=◌}
use safe_play_guardian.Enforce.Enforcer.{
  RuleOutcome, RuleResult, Enforcer, rule_applied, rule_failed, rule_unenforceable,
}
use safe_play_guardian.Enforce.Agent.{Pending, capabilities, can_handle, apply}
use safe_play_guardian.Enforce.Noop.{backend}

-- The kind and severity of the event for an outcome.
unfoldable pub outcome_kind : RuleResult → Kind × Severity
outcome_kind r =
    if r == rule_applied
    then (kind_policy_applied, severity_info)
    else if r == rule_failed
    then (kind_policy_failed, severity_error)
    else if r == rule_unenforceable
    then (kind_policy_unenforceable, severity_warn)
    else ("", severity_info)

abbrev pub person_found : Result Device × Db → Option String × Db
person_found (ok d, s) = (d.person_id, s)
person_found (err e, s) = (none, s)

-- What the callbacks share: the store, the log's policy look-up, and json.Marshal of a text.
module _ (w : World) (lookup : Option PolicyLookup) (json : String → String) where
  unfoldable pub seen_event : String → Observation → Device → Event
  seen_event id obs d = record {
    id = "";
    at = utc_stamp obs.seen_at;
    recorded_at = 0;
    kind = kind_device_seen;
    person_id = d.person_id;
    device_id = id;
    severity = "";
    attrs = some (("source", json obs.source) ∷ []);
  }

  -- The callback of SetObserveHook.
  unfoldable pub observe_hook : String → Observation → M (Unit {0})
  unfolding seen_event
  observe_hook id obs = get w id >>= λ d. append w lookup (seen_event id obs d)

  abbrev text_attr : String → String → Attrs
  text_attr key value = if value == "" then [] else (key, json value) ∷ []

  unfoldable pub rule_event : String → RuleOutcome → Option String → Event
  unfolding outcome_kind
  rule_event id ro person = record {
    id = "";
    at = utc_stamp 0;
    recorded_at = 0;
    kind = (outcome_kind ro.outcome).0;
    person_id = person;
    device_id = id;
    severity = (outcome_kind ro.outcome).1;
    attrs = some (
        ("capability", json ro.capability)
        ∷ ("backend", json ro.backend)
        ∷ (text_attr "note" ro.note ++ text_attr "error" ro.error));
  }

  -- OnRule, over the queue of the agent backend and the database.
  unfoldable pub on_rule : String → RuleOutcome → Pending × Db → Pending × Db
  unfolding rule_event
  on_rule id ro (queue, s) =
      let (person, s') = person_found (get w id s) in
      (queue, (append w lookup (rule_event id ro person) s').1)

-- The agent backend beside the database.
unfoldable pub agent_backend : Enforcer (Pending × Db)
agent_backend = record {
  name = "agent";
  capabilities = capabilities;
  can_handle = can_handle;
  apply = λ id slice (queue, s). let (rules, queue') = apply id slice queue in (rules, (queue', s));
}

-- The coordinator's backends, in the order of preference; fmt prints the numbers.
unfoldable pub platform_backends : (ℤ → String) → (ℕ → String) → List (Enforcer (Pending × Db))
unfolding agent_backend
platform_backends show show_nat = agent_backend ∷ backend show show_nat (Pending × Db) ∷ []
