-- ===== src/Domain/Rows.antt =====
-- The rows of the database tables (broker/app/domain/*.py). The columns that the database fills
-- by itself and no code reads (public_id, created_at, updated_at) are left out.
use smart_classroom.Prelude.{Text, ℕ, Bool, true, false, Option, String}
use smart_classroom.Domain.Range.{TimeRange}

pub data Role : Type 0 where
  user admin : Role

pub data HostStatus : Type 0 where
  offline idle in_use degraded : HostStatus

pub data ReservationStatus : Type 0 where
  confirmed canceled completed : ReservationStatus

pub data Purpose : Type 0 where
  session connect agent : Purpose

pub record User : Type 0 where
  pub id : ℕ
  pub external_id : String
  pub provider : String
  pub display_name : String
  pub email : Option String
  pub role : Role
  pub is_active : Bool

-- What the last heartbeat left in `host_metadata`: the keys agent_version, boot_time, metrics.
pub record Metadata : Type 0 where
  pub agent_version : Text
  pub boot_time : ℕ
  pub cpu_pct : ℕ
  pub mem_pct : ℕ
  pub sunshine_running : Bool

pub record Host : Type 0 where
  pub id : ℕ
  pub hostname : String
  pub display_name : String
  pub location : Option String
  pub ip_address : Option String
  pub sunshine_port : ℕ
  pub sunshine_broker_token : Option String
  pub gpu_model : Option String
  pub status : HostStatus
  pub last_heartbeat_at : Option ℕ
  pub host_metadata : Option Metadata

pub record Reservation : Type 0 where
  pub id : ℕ
  pub user_id : ℕ
  pub host_id : ℕ
  pub time_range : TimeRange
  pub status : ReservationStatus
  pub canceled_at : Option ℕ

pub record Token : Type 0 where
  pub id : ℕ
  pub jti : String
  pub user_id : ℕ
  pub host_id : Option ℕ
  pub reservation_id : Option ℕ
  pub purpose : Purpose
  pub issued_at : ℕ
  pub expires_at : ℕ
  pub consumed_at : Option ℕ
  pub revoked_at : Option ℕ

abbrev pub is_admin : Role → Bool
is_admin admin = true
is_admin user = false

abbrev pub is_idle : HostStatus → Bool
is_idle idle = true
is_idle offline = false
is_idle in_use = false
is_idle degraded = false

abbrev pub is_in_use : HostStatus → Bool
is_in_use in_use = true
is_in_use offline = false
is_in_use idle = false
is_in_use degraded = false

abbrev pub is_offline : HostStatus → Bool
is_offline offline = true
is_offline in_use = false
is_offline idle = false
is_offline degraded = false

abbrev pub same_status : HostStatus → HostStatus → Bool
same_status offline s = is_offline s
same_status idle s = is_idle s
same_status in_use s = is_in_use s
same_status degraded degraded = true
same_status degraded offline = false
same_status degraded idle = false
same_status degraded in_use = false

abbrev pub is_confirmed : ReservationStatus → Bool
is_confirmed confirmed = true
is_confirmed canceled = false
is_confirmed completed = false

abbrev pub is_canceled : ReservationStatus → Bool
is_canceled canceled = true
is_canceled confirmed = false
is_canceled completed = false

-- `status IN ACTIVE_RESERVATION_STATUSES`
abbrev pub is_active_status : ReservationStatus → Bool
is_active_status confirmed = true
is_active_status completed = true
is_active_status canceled = false

abbrev pub same_purpose : Purpose → Purpose → Bool
same_purpose session session = true
same_purpose session connect = false
same_purpose session agent = false
same_purpose connect connect = true
same_purpose connect session = false
same_purpose connect agent = false
same_purpose agent agent = true
same_purpose agent session = false
same_purpose agent connect = false
