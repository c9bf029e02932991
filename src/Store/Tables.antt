-- ===== src/Store/Tables.antt =====
-- The tables of migrations/*.sql. Columns that no code reads (created_at of devices, updated_at,
-- the numbers of identities and of pending merges) are left out; rows stand in the order of
-- insertion, which is the order of the row numbers.
use safe_play_guardian.Prelude.{ℕ, String, Option, List}
use safe_play_guardian.Device.Model.{DeviceState, IdentityKind, Capability}
use safe_play_guardian.Event.Model.{Event}

pub record PersonRow : Type 0 where
  pub id : String
  pub name : String
  pub created_at : ℕ

pub record DeviceRow : Type 0 where
  pub id : String
  pub person_id : Option String
  pub label : String
  pub kind : String
  pub agent_token : Option String
  pub state : DeviceState
  pub last_seen : Option ℕ

pub record IdentityRow : Type 0 where
  pub device_id : String
  pub kind : IdentityKind
  pub value : String
  pub last_seen : Option ℕ

pub record CapabilityRow : Type 0 where
  pub device_id : String
  pub capability : Capability

pub record PendingMergeRow : Type 0 where
  pub source_device_id : String
  pub candidate_ids : List String

-- A row of policies or of device_overrides: its key, and the JSON text in `data`.
pub record DataRow : Type 0 where
  pub key : String
  pub json : String

pub record UserRow : Type 0 where
  pub id : String
  pub username : String
  pub pw_hash : String

pub record SessionRow : Type 0 where
  pub token : String
  pub user_id : String
  pub expires_at : ℕ

pub record Tables : Type 0 where
  pub people : List PersonRow
  pub devices : List DeviceRow
  pub network_identities : List IdentityRow
  pub device_capabilities : List CapabilityRow
  pub pending_merges : List PendingMergeRow
  pub policies : List DataRow
  pub device_overrides : List DataRow
  pub events : List Event
  pub auth_users : List UserRow
  pub auth_sessions : List SessionRow
