-- ===== src/Api/Policies.antt =====
-- internal/api/policy.go: the handlers of policies and overrides; internal/api/enforce.go: Trigger.
pub mod Overrides
use safe_play_guardian.Prelude.{ℕ, String, ◌==◌, string_eq, Option, none, some, List, if◌then◌else◌}
use safe_play_guardian.Policy.Model.{Policy, Override, ResolvedPolicy}
use safe_play_guardian.Policy.Store.{
  Codec, get_person_policy, set_person_policy, get_device_override, set_device_override,
}
use safe_play_guardian.Policy.Resolver
use safe_play_guardian.Policy.Resolver.{Zones, Sources, ResolveError, resolve}
use safe_play_guardian.Enforce.Enforcer.{Enforcer, CoordinatorResult}
use safe_play_guardian.Enforce.Coordinator.{Hook, enforce}
use safe_play_guardian.Store.Exec.{World, Db, ticked}
use safe_play_guardian.Api.Reply.{Reply, write_json, write_error, Handler, finish, attempt}
use safe_play_guardian.Api.Agents.Checkin.{State}

abbrev set_or_not : {A : Type 0} → String → Option A → Reply A
set_or_not text none = write_error 404 text
set_or_not text (some a) = write_json 200 a

-- A request body is `none` if it does not decode.
module _ (w : World) where
  -- GetPersonPolicy
  unfoldable pub read_person_policy : Codec Policy → String → Handler (Reply Policy)
  read_person_policy c id =
      attempt (get_person_policy w c id) (λ _. write_error 500 "read policy")
        (λ p. finish (set_or_not "no policy set" p))

  -- PutPersonPolicy
  unfoldable pub put_person_policy : Codec Policy → String → Option Policy → Handler (Reply Policy)
  put_person_policy c id none = finish (write_error 400 "invalid JSON body")
  put_person_policy c id (some p) =
      attempt (set_person_policy w c id (some p)) (λ _. write_error 500 "store policy")
        (λ _. finish (write_json 200 p))

  -- GetDeviceOverride
  unfoldable pub read_device_override : Codec Override → String → Handler (Reply Override)
  read_device_override c id =
      attempt (get_device_override w c id) (λ _. write_error 500 "read override")
        (λ o. finish (set_or_not "no override set" o))

  -- PutDeviceOverride
  unfoldable pub put_device_override :
      Codec Override → String → Option Override → Handler (Reply Override)
  put_device_override c id none = finish (write_error 400 "invalid JSON body")
  put_device_override c id (some o) =
      attempt (set_device_override w c id (some o)) (λ _. write_error 500 "store override")
        (λ _. finish (write_json 200 o))

  -- The time of the query ?at=, where time.Parse reads RFC 3339, or else of the clock; `none` is a
  -- text that does not parse.
  unfoldable pub moment : (String → Option ℕ) → String → ℕ → Option ℕ
  moment parse at now = if at == "" then some now else parse at

  abbrev pub bad_moment : {A : Type 0} → Reply A
  bad_moment = write_error 400 "at must be RFC3339"

  abbrev pub resolved_reply : Resolver.Result ResolveError ResolvedPolicy → Reply ResolvedPolicy
  resolved_reply (Resolver.err ResolveError.device_not_found) = write_error 404 "device not found"
  resolved_reply (Resolver.err e) = write_error 500 "resolve"
  resolved_reply (Resolver.ok r) = write_json 200 r

  -- Resolved
  unfoldable pub resolved :
      Zones
      → (Db → Sources)
      → (String → Option ℕ)
      → String
      → String
      → Handler (Reply ResolvedPolicy)
  unfolding moment
  resolved z reads parse id at s = elim (moment parse at (w.now s.tick)) [
    | none ↦ (bad_moment, ticked s)
    | some t ↦ (resolved_reply (resolve z (reads (ticked s)) id t), ticked s)
  ]

  abbrev pub enforced_reply :
      Resolver.Result ResolveError CoordinatorResult × State → Reply CoordinatorResult × State
  enforced_reply (Resolver.err ResolveError.device_not_found, s) =
      (write_error 404 "device not found", s)
  enforced_reply (Resolver.err e, s) = (write_error 500 "enforce", s)
  enforced_reply (Resolver.ok r, s) = (write_json 200 r, s)

  -- Trigger
  unfoldable pub trigger :
      Zones
      → (Db → Sources)
      → List (Enforcer State)
      → Hook State
      → (String → Option ℕ)
      → String
      → String
      → State
      → Reply CoordinatorResult × State
  unfolding moment
  trigger z reads bs on_rule parse id at (queue, s) = elim (moment parse at (w.now s.tick)) [
    | none ↦ (bad_moment, (queue, ticked s))
    | some t ↦ enforced_reply (enforce z (reads (ticked s)) bs on_rule id t (queue, ticked s))
  ]
