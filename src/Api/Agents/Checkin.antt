-- ===== src/Api/Agents/Checkin.antt =====
-- internal/api/agent.go: Checkin.
use safe_play_guardian.Prelude.{
  ℕ, zero, suc, ◌-◌, ℤ, pos, negsuc, String, not, ◌==◌, string_eq, Option, none, some, List, [],
  ◌∷◌, if◌then◌else◌,
}
use safe_play_guardian.Device.Model.{Device}
use safe_play_guardian.Device.Registry.{get}
use safe_play_guardian.Device.Reconcile.{reconcile}
use safe_play_guardian.Enforce.Agent.{Pending, pull_pending}
use safe_play_guardian.Enforce.Enforcer.{Enforcer, CoordinatorResult}
use safe_play_guardian.Enforce.Coordinator.{Hook, enforce}
use safe_play_guardian.Event.Model.{Event, valid}
use safe_play_guardian.Policy.Model.{ResolvedPolicy}
use safe_play_guardian.Policy.Resolver
use safe_play_guardian.Policy.Resolver.{Zones, Sources, ResolveError, resolve}
use safe_play_guardian.Store.Exec.{World, Result, ok, err, Db, M, ◌>>=◌, clock, ticked}
use safe_play_guardian.Api.Reply.{Reply, write_json, write_error}
use safe_play_guardian.Api.Agents.{
  ObserveHook, AgentEvent, CheckinRequest, CheckinResponse, checkin_interval_seconds,
  checkin_observation, reported_event, holds_token, caps_of_slice,
}

-- The agent backend's queue, and the database.
abbrev pub State : Type 0
State = Pending × Db

abbrev pub Checked : Type 0
Checked = Reply CheckinResponse × State

abbrev pub continue :
    {A : Type 0} → Result A × Db → Pending → String → (A → State → Checked) → Checked
continue (ok a, s) queue text k = k a (queue, s)
continue (err e, s) queue text k = (write_error 500 text, (queue, s))

-- now.Sub(t)
abbrev pub sub : ℕ → ℕ → ℤ
sub now t = elim (t - now) [ zero ↦ pos (now - t) | suc n ↦ negsuc n ]

abbrev drift_of : ℕ → Option ℕ → Option ℤ
drift_of now none = none
drift_of now (some t) = some (sub now t)

module _ (w : World) (hook : ObserveHook) (logger : Option (Event → M (Unit {0}))) (z : Zones)
    (reads : Db → Sources) (bs : List (Enforcer State)) (on_rule : Hook State) where
  abbrev log_event : Option (Event → M (Unit {0})) → Event → Db → Db
  log_event none ev s = s
  log_event (some l) ev s = (l ev s).1

  -- The loop over the reported events: one of an unknown kind is skipped, and the errors of the log
  -- are dropped.
  unfoldable pub ingest : String → Option String → List AgentEvent → Db → Db
  unfolding reported_event
  ingest core_id person [] s = s
  ingest core_id person (e ∷ es) s =
      ingest core_id person es
        (if not (valid e.kind) then s else log_event logger (reported_event core_id person e) s)

  abbrev pub checked_in : String → CheckinRequest → ℕ → ResolvedPolicy → State → Checked
  checked_in core_id req now resolved (queue, s) =
      let (pending, queue') = pull_pending core_id queue in
      (
        write_json 200 (record {
          device_id = core_id;
          at = now;
          policy = resolved;
          caps_assigned = caps_of_slice pending;
          checkin_interval_seconds = checkin_interval_seconds;
          clock_drift = drift_of now req.agent_clock;
        }),
        (queue', s),
      )

  abbrev pub resolved_next :
      String → CheckinRequest → ℕ → Resolver.Result ResolveError ResolvedPolicy → State → Checked
  resolved_next core_id req now (Resolver.err e) s = (write_error 500 "resolve", s)
  resolved_next core_id req now (Resolver.ok resolved) s = checked_in core_id req now resolved s

  abbrev pub enforced_next :
      String → CheckinRequest → ℕ → Resolver.Result ResolveError CoordinatorResult × State → Checked
  enforced_next core_id req now (Resolver.err e, s) = (write_error 500 "enforce", s)
  enforced_next core_id req now (Resolver.ok r, s) =
      resolved_next core_id req now (resolve z (reads s.1) core_id now) s

  -- Checkin from the second reading of the clock on.
  unfoldable pub enforce_now : String → CheckinRequest → State → Checked
  enforce_now core_id req (queue, s) =
      let now = w.now s.tick in
      enforced_next core_id req now
        (enforce z (reads (ticked s)) bs on_rule core_id now (queue, ticked s))

  -- Checkin once the device is known.
  unfoldable pub checkin_device : String → CheckinRequest → String → Device → State → Checked
  unfolding ingest enforce_now
  checkin_device token req core_id dev (queue, s) =
      if not (holds_token token dev.agent_token)
      then (write_error 401 "invalid agent token", (queue, s))
      else enforce_now core_id req (queue, ingest core_id dev.person_id req.events s)

  unfoldable pub checkin_decoded : String → CheckinRequest → State → Checked
  unfolding checkin_device checkin_observation
  checkin_decoded token req (queue, s) =
      continue ((clock w >>= λ now. reconcile w hook (checkin_observation token req now)) s) queue
        "reconcile"
        (λ core_id (queue', s').
          continue (get w core_id s') queue' "lookup" (checkin_device token req core_id))

  -- Checkin, of the extracted token and the decoded body.
  unfoldable pub checkin : String → Option CheckinRequest → State → Checked
  unfolding checkin_decoded
  checkin token body s =
      if token == "" then (write_error 401 "missing agent token", s) else elim body [
        | none ↦ (write_error 400 "invalid JSON", s)
        | some req ↦ checkin_decoded token req s
      ]
