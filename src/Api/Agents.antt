-- ===== src/Api/Agents.antt =====
-- internal/api/agent.go: registration and check-in of the agents on the devices.
pub mod Checkin
pub mod Trust
pub mod Issued
use Prim.Native.String.{[], ◌∷◌}
use safe_play_guardian.Prelude.{
  ℕ, Stamp, ◌-◌, ℤ, pos, String, Bool, true, false, not, ◌==◌, string_eq, Option, none, some, List,
  [], ◌∷◌, if◌then◌else◌, trim_space, has_prefix,
}
use safe_play_guardian.Device.Model.{Device, Capability, Observation}
use safe_play_guardian.Device.Registry.{get, upsert}
use safe_play_guardian.Device.Reconcile.{reconcile}
use safe_play_guardian.Enforce.Agent.{Pending, pull_pending}
use safe_play_guardian.Enforce.Enforcer.{Slice, Enforcer, CoordinatorResult}
use safe_play_guardian.Enforce.Coordinator.{Hook, enforce}
use safe_play_guardian.Event.Model.{Event, Attrs, Kind, valid}
use safe_play_guardian.Event.Redact.{attr}
use safe_play_guardian.Event.Logger.{PolicyLookup, append}
use safe_play_guardian.Policy.Model.{ResolvedPolicy}
use safe_play_guardian.Policy.Resolver
use safe_play_guardian.Policy.Resolver.{Zones, Sources, ResolveError, resolve}
use safe_play_guardian.Store.Exec.{World, Result, ok, err, Error, Db, M, ◌>>=◌, return, clock, draw}
use safe_play_guardian.Api.Reply.{
  Reply, write_json, write_error, Handler, finish, attempt, attempted,
}

-- The fields that Register reads; the operating system's name and version are not among them.
pub record RegisterRequest : Type 0 where
  pub device_id : String
  pub label : String
  pub kind : String
  pub caps : List Capability
  pub mac : String
  pub hostname : String
  pub agent_token : String

pub record RegisterResponse : Type 0 where
  pub device_id : String
  pub agent_token : String
  pub checkin_interval_seconds : ℕ

abbrev pub checkin_interval_seconds : ℕ
checkin_interval_seconds = 60

-- The observation of a registration at a time.
unfoldable pub register_observation : RegisterRequest → ℕ → Observation
register_observation req now = record {
  source = "agent";
  seen_at = now;
  agent_token = trim_space req.agent_token;
  agent_id = req.device_id;
  mac = req.mac;
  ip = "";
  hostname = req.hostname;
  caps = req.caps;
  label = req.label;
  kind = req.kind;
}

-- The token of a device, if it has one that is not empty.
abbrev pub own_token : Option String → Option String
own_token none = none
own_token (some t) = if t == "" then none else some t

abbrev pub registered : String → String → Reply RegisterResponse
registered core_id token = write_json 200 (record {
  device_id = core_id;
  agent_token = token;
  checkin_interval_seconds = checkin_interval_seconds;
})

-- The callback of the registry, which may be nil.
abbrev pub ObserveHook : Type 0
ObserveHook = Option (String → Observation → M (Unit {0}))

module _ (w : World) (hook : ObserveHook) where
  -- A token is issued only to a device that has none.
  unfoldable pub issue_token : String → Device → Option String → Handler (Reply RegisterResponse)
  issue_token core_id dev (some token) = finish (registered core_id token)
  issue_token core_id dev none =
      attempt
        (draw w >>= λ tok. upsert w (record dev { agent_token = some tok }) >>= λ _. return tok)
        (λ e. write_error 500 "issue token") (λ tok. finish (registered core_id tok))

  unfoldable pub register_valid : RegisterRequest → Handler (Reply RegisterResponse)
  unfolding issue_token register_observation
  register_valid req =
      attempt (clock w >>= λ now. reconcile w hook (register_observation req now))
        (λ e. write_error 500 "reconcile")
        (λ core_id.
          attempt (get w core_id) (λ e. write_error 500 "lookup")
            (λ dev. issue_token core_id dev (own_token dev.agent_token)))

  -- Register
  unfoldable pub register : Option RegisterRequest → Handler (Reply RegisterResponse)
  unfolding register_valid
  register none = finish (write_error 400 "invalid JSON")
  register (some req) =
      if trim_space req.device_id == ""
      then finish (write_error 400 "device_id is required")
      else register_valid req

pub record AgentEvent : Type 0 where
  pub kind : Kind
  pub at : Stamp
  pub attrs : Option Attrs

-- `identities` is a map; `agent_clock` may be nil.
pub record CheckinRequest : Type 0 where
  pub device_id : String
  pub identities : List (String × String)
  pub caps : List Capability
  pub agent_clock : Option ℕ
  pub events : List AgentEvent

-- The drift is in nanoseconds, before its conversion to seconds.
pub record CheckinResponse : Type 0 where
  pub device_id : String
  pub at : ℕ
  pub policy : ResolvedPolicy
  pub caps_assigned : List Capability
  pub checkin_interval_seconds : ℕ
  pub clock_drift : Option ℤ

-- strings.TrimPrefix(v, "Bearer ") of a text with that prefix
abbrev after_bearer : String → String
after_bearer (_ ∷ (_ ∷ (_ ∷ (_ ∷ (_ ∷ (_ ∷ (_ ∷ v))))))) = v
after_bearer _ = []

-- extractAgentToken, of the two headers.
unfoldable pub extract_agent_token : String → String → String
unfolding trim_space has_prefix
extract_agent_token authorization agent_header =
    if has_prefix authorization "Bearer "
    then trim_space (after_bearer authorization)
    else trim_space agent_header

abbrev identity_or_empty : String → List (String × String) → String
identity_or_empty key m = elim (attr key m) [ none ↦ "" | some v ↦ v ]

-- The observation of a check-in at a time.
unfoldable pub checkin_observation : String → CheckinRequest → ℕ → Observation
unfolding attr
checkin_observation token req now = record {
  source = "agent";
  seen_at = now;
  agent_token = token;
  agent_id = req.device_id;
  mac = identity_or_empty "mac" req.identities;
  ip = identity_or_empty "ip" req.identities;
  hostname = identity_or_empty "hostname" req.identities;
  caps = req.caps;
  label = "";
  kind = "";
}

-- The token is present and the presented one.
abbrev pub holds_token : String → Option String → Bool
holds_token token none = false
holds_token token (some t) = t == token

unfoldable pub reported_event : String → Option String → AgentEvent → Event
reported_event core_id person e = record {
  id = "";
  at = e.at;
  recorded_at = 0;
  kind = e.kind;
  person_id = person;
  device_id = core_id;
  severity = "";
  attrs = e.attrs;
}

-- The slice's capabilities, if there is a slice.
abbrev pub caps_of_slice : Option Slice → List Capability
caps_of_slice none = []
caps_of_slice (some slice) = slice.caps
