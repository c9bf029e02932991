-- ===== src/Platform/Wiring.antt =====
-- The components as they are wired: the coordinator over the two backends, and the registry with
-- the callback that logs each sighting.
use safe_play_guardian.Prelude.{
  ℕ, ℤ, ◌≡◌, refl, ap, nat_eq, String, string_eq, Option, some, List, [], ◌∷◌, map, All, count,
}
use safe_play_guardian.Device.Model.{Capability, Device, Observation}
use safe_play_guardian.Device.Consistent.{IsConsistent}
use safe_play_guardian.Device.Consistent.Statements.{Has}
use safe_play_guardian.Device.Registry.{get}
use safe_play_guardian.Device.Registry.Integrity.{IsThere, get_of-keeps}
use safe_play_guardian.Device.Reconcile.{reconcile}
use safe_play_guardian.Device.Reconcile.Integrity.{reconcile-Ensures}
use safe_play_guardian.Event.Model.{Event}
use safe_play_guardian.Event.Log.Keeps.{append-keeps}
use safe_play_guardian.Event.Logger.{PolicyLookup}
use safe_play_guardian.Store.Tables.{Tables}
use safe_play_guardian.Store.Exec.{World, Db}
use safe_play_guardian.Store.Keeps.{Post, Ensures, Nothing, >>=-keeps}
use safe_play_guardian.Policy.Model.{ResolvedPolicy}
use safe_play_guardian.Enforce.Enforcer.{PerRule, Answers}
use safe_play_guardian.Enforce.Agent.{Pending, backend as queue_backend}
use safe_play_guardian.Enforce.Agent.Queue.{agent-Answers}
use safe_play_guardian.Enforce.Noop.{backend, apply, described}
use safe_play_guardian.Enforce.Coordinator.{enforce_resolved}
use safe_play_guardian.Enforce.Coordinator.Coverage.{enforce_resolved-count, reported}
use safe_play_guardian.Platform.Hooks.{observe_hook, on_rule, agent_backend, platform_backends}

module _ (w : World) (id : String) where
  events-Has : (t : Tables) (es : List Event) → Has id t → Has id (record t { events = es })
  events-Has t es h = (
    record {
      device_keys = h.0.device_keys;
      device_owners = h.0.device_owners;
      identity_keys = h.0.identity_keys;
      identity_owners = h.0.identity_owners;
      capability_keys = h.0.capability_keys;
      capability_owners = h.0.capability_owners;
      pending_sources = h.0.pending_sources;
    },
    h.1,
  )

  observe_hook-keeps :
      (lookup : Option PolicyLookup) (json : String → String) (at : String) (obs : Observation)
      → Ensures (Has id) (observe_hook w lookup json at obs) Nothing
  unfolding observe_hook
  observe_hook-keeps lookup json at obs =
      >>=-keeps (Has id) Nothing (get w at) _ (get_of-keeps w id at)
        (λ d. append-keeps w (Has id) events-Has lookup _)

-- The registry as the platform runs it keeps consistent tables consistent: Reconcile with the
-- callback that logs each sighting, whichever statements fail and wherever it stops; and where it
-- succeeds, the device that it answers with is in the tables.
pub platform_reconcile-IsConsistent :
    (w : World) (lookup : Option PolicyLookup) (json : String → String) (obs : Observation) (s : Db)
    → IsConsistent s.tables
    → Post IsConsistent IsThere (reconcile w (some (observe_hook w lookup json)) obs s)
platform_reconcile-IsConsistent w lookup json obs s =
    reconcile-Ensures w (some (observe_hook w lookup json))
      (λ id o j. observe_hook-keeps w j lookup json id o) obs s

module _ (show : ℤ → String) (show_nat : ℕ → String) where
  noop-Answers : Answers (backend show show_nat (Pending × Db))
  unfolding backend apply described
  noop-Answers id slice s = answered slice.caps
    where
      answered :
          (cs : List Capability)
          → map (λ (r : PerRule). r.capability) (map (described show show_nat slice.policy) cs) ≡ cs
      answered [] = refl
      answered (c ∷ cs) = ap (λ l. c ∷ l) (answered cs)

  platform-Answers : All Answers (platform_backends show show_nat)
  unfolding platform_backends agent_backend queue_backend
  platform-Answers = (λ id slice s. agent-Answers id slice s.0, (noop-Answers, tt))

  -- With the backends of the platform and its callback, for every device and policy the
  -- coordinator reports on each capability exactly as often as the policy requires it.
  pub platform_enforce-count :
      (w : World) (lookup : Option PolicyLookup) (json : String → String) (id : String)
      (dev : Device) (resolved : ResolvedPolicy) (s : Pending × Db) (c : Capability)
      → count c (
          reported
            (enforce_resolved
              (platform_backends show show_nat)
              (some (on_rule w lookup json))
              id
              dev
              resolved
              s).0)
        ≡ count c resolved.required_caps
  platform_enforce-count w lookup json =
      enforce_resolved-count (platform_backends show show_nat) platform-Answers
        (some (on_rule w lookup json))
