-- ===== src/Discovery/Mdns.antt =====
-- internal/discovery/mdns.go: observations of a host name and an address, without a MAC.
use safe_play_guardian.Prelude.{
  String, ◌||◌, ◌==◌, string_eq, Option, none, some, List, [], ◌∷◌, if◌then◌else◌,
}
use safe_play_guardian.Device.Model.{Observation}

pub record MdnsResult : Type 0 where
  pub host : String
  pub ip : String

-- The observation with every field at its zero value.
abbrev pub zero_observation : Observation
zero_observation = record {
  source = "";
  seen_at = 0;
  agent_token = "";
  agent_id = "";
  mac = "";
  ip = "";
  hostname = "";
  caps = [];
  label = "";
  kind = "";
}

-- The loop of Snapshot over the results of the browse.
unfoldable pub observations : List MdnsResult → List Observation
observations [] = []
observations (r ∷ rs) =
    if r.host == "" || r.ip == ""
    then observations rs
    else record zero_observation { hostname = r.host; ip = r.ip } ∷ observations rs

-- The answer of Lookup: a nil Lookup, an error, or its results.
pub data Lookup : Type 0 where
  unset : Lookup
  failed : Lookup
  found : List MdnsResult → Lookup

-- Snapshot; `none` is the error.
unfoldable pub snapshot : Lookup → Option (List Observation)
unfolding observations
snapshot unset = some []
snapshot failed = none
snapshot (found rs) = some (observations rs)
