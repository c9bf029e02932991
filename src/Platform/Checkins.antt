-- ===== src/Platform/Checkins.antt =====
-- The agents' check-in as the platform runs it: over its registry, its log, its two backends and
-- its callback.
use safe_play_guardian.Prelude.{ℕ, ℤ, ◌≡◌, String, Option, some}
use safe_play_guardian.Device.Model.{Device}
use safe_play_guardian.Device.Registry.{get}
use safe_play_guardian.Device.Registry.Tokens.{token_at, get-token_at}
use safe_play_guardian.Enforce.Enforcer.{RuleOutcome}
use safe_play_guardian.Enforce.Noop.{backend}
use safe_play_guardian.Event.Logger.{PolicyLookup, append}
use safe_play_guardian.Event.Log.Keeps.{append-keeps}
use safe_play_guardian.Policy.Resolver.{Zones, Sources}
use safe_play_guardian.Store.Tables.{Tables}
use safe_play_guardian.Store.Exec.{World, Result, ok, err, Db}
use safe_play_guardian.Store.Keeps.{Post}
use safe_play_guardian.Api.Agents.{CheckinRequest}
use safe_play_guardian.Api.Agents.Checkin.{State, checkin}
use safe_play_guardian.Api.Agents.Trust.{Holds, KeepToken, Trusted, checkin-Trusted}
use safe_play_guardian.Platform.Hooks.{
  observe_hook, on_rule, agent_backend, platform_backends, person_found,
}

module _ (w : World) (lookup : Option PolicyLookup) (json : String → String) (z : Zones)
    (reads : Db → Sources) (show : ℤ → String) (show_nat : ℕ → String) (token : String) where
  -- The state in which the callback logs the outcome.
  found-Holds :
      (id : String) (p : Result Device × Db)
      → Post (Holds token id) (λ d t. Unit) p
      → Holds token id (person_found p).1.tables
  found-Holds id (ok d, s) h = h.0
  found-Holds id (err e, s) h = h

  kept_row :
      {A : Type 0} (id : String) (Q : A → Tables → Type 0) (p : Result A × Db)
      → Post (Holds token id) Q p
      → Post (Holds token id) (λ (_ : A) _. Unit) p
  kept_row id Q (ok a, s) h = (h.0, tt)
  kept_row id Q (err e, s) h = h

  left_row :
      {A : Type 0} (id : String) (p : Result A × Db)
      → Post (Holds token id) (λ (_ : A) _. Unit) p
      → Holds token id p.1.tables
  left_row id (ok a, s) h = h.0
  left_row id (err e, s) h = h

  on_rule-keeps :
      (id : String) (at : String) (ro : RuleOutcome) (s : State)
      → Holds token id s.1.tables
      → Holds token id (on_rule w lookup json at ro s).1.tables
  unfolding on_rule
  on_rule-keeps id at ro (queue, s) h = left_row id (append w lookup _ _) (
      append-keeps w (Holds token id) (λ t es k. k) lookup _ _
        (found-Holds id (get w at s) (
          kept_row id (λ d t. token_at at t ≡ some d.agent_token) (get w at s)
            (get-token_at w (Holds token id) at s h))))

  platform-KeepToken :
      KeepToken w
        (some (observe_hook w lookup json))
        lookup
        z
        reads
        (platform_backends show show_nat)
        (some (on_rule w lookup json))
        token
  unfolding platform_backends agent_backend backend
  platform-KeepToken id = (
    (λ at slice (queue, s) h. h, (λ at slice (queue, s) h. h, tt)),
    λ at ro (queue, s) h. on_rule-keeps id at ro (queue, s) h,
  )

  -- The check-in of the platform answers with a policy only if the presented token is not empty
  -- and is, in the tables that it leaves, the agent token of the device that the answer names,
  -- whichever statements fail and whatever the policies are.
  pub platform_checkin-Trusted :
      (body : Option CheckinRequest) (s : State)
      → Trusted token (
          checkin w
            (some (observe_hook w lookup json))
            (some (append w lookup))
            z
            reads
            (platform_backends show show_nat)
            (some (on_rule w lookup json))
            token
            body
            s)
  platform_checkin-Trusted =
      checkin-Trusted w (some (observe_hook w lookup json)) lookup z reads
        (platform_backends show show_nat) (some (on_rule w lookup json)) token platform-KeepToken
