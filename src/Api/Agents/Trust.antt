-- ===== src/Api/Agents/Trust.antt =====
-- Whom Checkin serves: only the holder of the device's token.
use safe_play_guardian.Prelude.{
  ℕ, ◌≡◌, ◌≢◌, ap, ◌∙◌, String, Bool, true, false, not, ◌==◌, string_eq, eq_iff, Bool-cases, inl,
  inr, Option, none, some, List, [], ◌∷◌, arith, if◌then◌else◌, All,
}
use safe_play_guardian.Device.Model.{Device}
use safe_play_guardian.Device.Registry.{get}
use safe_play_guardian.Device.Registry.Tokens.{token_at, get-token_at}
use safe_play_guardian.Device.Reconcile.{reconcile}
use safe_play_guardian.Enforce.Agent.{Pending}
use safe_play_guardian.Enforce.Enforcer.{Enforcer, CoordinatorResult}
use safe_play_guardian.Enforce.Coordinator.{Hook}
use safe_play_guardian.Enforce.Coordinator.Keeps.{BackendKeeps, HookKeeps, enforce-keeps}
use safe_play_guardian.Event.Model.{Event, valid}
use safe_play_guardian.Event.Logger.{PolicyLookup, append}
use safe_play_guardian.Event.Log.Keeps.{append-keeps}
use safe_play_guardian.Policy.Model.{ResolvedPolicy}
use safe_play_guardian.Policy.Resolver
use safe_play_guardian.Policy.Resolver.{Zones, Sources, ResolveError, resolve}
use safe_play_guardian.Store.Tables.{Tables}
use safe_play_guardian.Store.Exec.{World, Result, ok, err, Db, ◌>>=◌, clock, ticked}
use safe_play_guardian.Store.Keeps.{Post, Nothing}
use safe_play_guardian.Api.Reply.{write_json, write_error}
use safe_play_guardian.Api.Agents.{
  ObserveHook, AgentEvent, CheckinRequest, checkin_observation, reported_event, holds_token,
}
use safe_play_guardian.Api.Agents.Checkin.{
  State, Checked, continue, enforced_next, ingest, enforce_now, checkin_device, checkin_decoded,
  checkin, resolved_next,
}

-- The device of this identity holds this token.
abbrev pub Holds : String → String → Tables → Type 0
Holds token id t = token_at id t ≡ some (some token)

-- An answer with a policy goes to the holder of the token of the device that the answer names.
abbrev pub Trusted : String → Checked → Type 0
Trusted token (write_json n r, (queue, s)) = (token ≢ "") × Holds token r.device_id s.tables
Trusted token (write_error n m, s) = Unit

holds_token-some :
    (token : String) (o : Option String) → not (holds_token token o) ≡ false → o ≡ some token
holds_token-some token none h = cc
holds_token-some token (some t) h = ap some (ground (arith, eq_iff t token))

continue-Trusted :
    {A : Type 0} (token : String) (Q : A → Tables → Type 0) (p : Result A × Db) (queue : Pending)
    (text : String) (k : A → State → Checked)
    → Post (λ _. Unit) Q p
    → ((a : A) (s : Db) → Q a s.tables → Trusted token (k a (queue, s)))
    → Trusted token (continue p queue text k)
continue-Trusted token Q (ok a, s) queue text k h f = f a s h.1
continue-Trusted token Q (err e, s) queue text k h f = tt

module _ (w : World) (hook : ObserveHook) (lookup : Option PolicyLookup) (z : Zones)
    (reads : Db → Sources) (bs : List (Enforcer State)) (on_rule : Hook State) where
  module _ (I : Tables → Type 0)
      (ignores : (t : Tables) (es : List Event) → I t → I (record t { events = es })) where
    logged : (p : Result (Unit {0}) × Db) → Post I Nothing p → I p.1.tables
    logged (ok a, s) h = h.0
    logged (err e, s) h = h

    reported-keeps :
        (b : Bool) (ev : Event) (s : Db)
        → I s.tables
        → I (if not b then s else (append w lookup ev s).1).tables
    reported-keeps false ev s h = h
    reported-keeps true ev s h =
        logged (append w lookup ev s) (append-keeps w I ignores lookup ev s h)

    ingest-keeps :
        (id : String) (person : Option String) (es : List AgentEvent) (s : Db)
        → I s.tables
        → I (ingest w hook (some (append w lookup)) z reads bs on_rule id person es s).tables
    unfolding ingest
    ingest-keeps id person [] s h = h
    ingest-keeps id person (e ∷ es) s h =
        ingest-keeps id person es _ (reported-keeps (valid e.kind) (reported_event id person e) s h)

  module _ (token : String) where
    abbrev pub Kept : String → State → Type 0
    Kept id (queue, s) = Holds token id s.tables

    -- The backends and the callback of the coordinator leave the tokens alone.
    abbrev pub KeepToken : Type 0
    KeepToken = (id : String) → All (BackendKeeps (Kept id)) bs × HookKeeps (Kept id) on_rule

    module _ (keep : KeepToken) (given : token ≢ "") (id : String) (req : CheckinRequest) where
      resolved_next-Trusted :
          (now : ℕ) (r : Resolver.Result ResolveError ResolvedPolicy) (s : State)
          → Kept id s
          → Trusted token
              (resolved_next w hook (some (append w lookup)) z reads bs on_rule id req now r s)
      resolved_next-Trusted now (Resolver.err e) s h = tt
      resolved_next-Trusted now (Resolver.ok r) (queue, s) h = (given, h)

      enforced_next-Trusted :
          (now : ℕ) (p : Resolver.Result ResolveError CoordinatorResult × State)
          → Kept id p.1
          → Trusted token
              (enforced_next w hook (some (append w lookup)) z reads bs on_rule id req now p)
      enforced_next-Trusted now (Resolver.err e, s) h = tt
      enforced_next-Trusted now (Resolver.ok r, s) h = resolved_next-Trusted now _ s h

      checkin_device-Trusted :
          (dev : Device) (queue : Pending) (s : Db)
          → token_at id s.tables ≡ some dev.agent_token
          → Trusted token (
              checkin_device w hook
                (some (append w lookup))
                z
                reads
                bs
                on_rule
                token
                req
                id
                dev
                (queue, s))
      unfolding checkin_device enforce_now
      checkin_device-Trusted dev queue s row =
          elim (Bool-cases (not (holds_token token dev.agent_token))) [
            | inl e ↦ rw (e, checkin_device) tt
            | inr e ↦
                let held : Holds token id s.tables =
                  row ∙ ap some (holds_token-some token dev.agent_token e) in
                let u =
                  ingest w hook (some (append w lookup)) z reads bs on_rule id dev.person_id
                    req.events s in
                rw (e, checkin_device)
                  (enforced_next-Trusted (w.now u.tick) _ (
                    enforce-keeps (Kept id) bs (keep id).0 on_rule (keep id).1 id z
                      (reads (ticked u)) (w.now u.tick) (queue, ticked u)
                      (ingest-keeps (Holds token id) (λ t es k. k) id dev.person_id req.events s
                        held)))
          ]

    -- Checkin, whichever statements fail: it answers with a policy only if the presented token is
    -- not empty and is the agent token of the device that the answer names, provided that the
    -- backends and the callback of the coordinator leave that token alone.
    pub checkin-Trusted :
        KeepToken
        → (body : Option CheckinRequest) (s : State)
        → Trusted token (checkin w hook (some (append w lookup)) z reads bs on_rule token body s)
    unfolding checkin checkin_decoded
    checkin-Trusted keep body (queue, s) = elim (Bool-cases (token == "")) [
      | inl e ↦ rw (e, checkin) tt
      | inr e ↦ rw (e, checkin) (presented (ground (arith, eq_iff token "")) body)
    ]
      where
        presented :
            token ≢ ""
            → (b : Option CheckinRequest)
            → Trusted token (elim b as (λ _. Checked) [
              | none ↦ (write_error 400 "invalid JSON", (queue, s))
              | some req ↦
                  checkin_decoded w hook
                    (some (append w lookup))
                    z
                    reads
                    bs
                    on_rule
                    token
                    req
                    (queue, s)
            ])
        presented given none = tt
        presented given (some req) =
            continue-Trusted token (λ _ t. Unit)
              ((clock w >>= λ now. reconcile w hook (checkin_observation token req now)) s) queue
              "reconcile" _ (anything _)
              (λ id u _.
                continue-Trusted token (λ d t. token_at id t ≡ some d.agent_token) (get w id u)
                  queue "lookup" _ (get-token_at w (λ _. Unit) id u tt)
                  (λ dev v row. checkin_device-Trusted keep given id req dev queue v row))
          where
            anything : (p : Result String × Db) → Post (λ _. Unit) (λ (_ : String) _. Unit) p
            anything (ok a, v) = (tt, tt)
            anything (err a, v) = tt
