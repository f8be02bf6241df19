-- ===== src/Api/Schemas.antt =====
-- broker/app/api/schemas: the bounds of the bodies for hosts, tokens, pairing and heartbeats. A check
-- gives the faults of a body, field by field; a body without faults is accepted. A number that JSON
-- allows to be negative is an integer; percentages are in tenths, as in the settings.
use smart_classroom.Prelude.{
  ℕ, Bool, true, false, ◌&&◌, ◌||◌, not, List, [], ◌∷◌, ◌++◌, Option, none, some, String, ltb, leb,
  ◌==◌, if◌then◌else◌, length, Text, codes, text_eq,
}
use smart_classroom.Api.Hosts.{HostCreate}
pub mod Columns

pub data ℤ : Type 0 where
  pos negsuc : ℕ → ℤ

pub data Bound : Type 0 where
  string_too_short string_too_long less_than greater_than pattern_mismatch literal_error : Bound

abbrev pub Faults : Type 0
Faults = List (String × Bound)

-- `len(s)`
abbrev pub len : String → ℕ
len s = length (codes s)

-- `Field(min_length=..., max_length=...)`, on the length of the value.
unfoldable pub length_within : String → ℕ → ℕ → ℕ → Faults
length_within field min_length max_length n =
    if ltb n min_length
    then (field, string_too_short) ∷ []
    else if ltb max_length n
    then (field, string_too_long) ∷ []
    else []

-- `Field(default=None, max_length=...)`
unfoldable pub optional_within : String → ℕ → Option String → Faults
optional_within field max_length none = []
optional_within field max_length (some s) = length_within field 0 max_length (len s)

-- `Field(ge=..., le=...)`; a negative number is refused as one below the bound, if that is not 0.
unfoldable pub number_within : String → ℕ → ℕ → ℕ → Faults
number_within field ge le n =
    if ltb n ge
    then (field, greater_than) ∷ []
    else if ltb le n
    then (field, less_than) ∷ []
    else []

-- `Field(ge=0)`
unfoldable pub not_negative : String → ℤ → Faults
not_negative field (pos n) = []
not_negative field (negsuc n) = (field, greater_than) ∷ []

-- `HostCreate(...)`
unfoldable pub validate_host_create : HostCreate → Faults
validate_host_create p =
    length_within "hostname" 1 64 (len p.hostname)
    ++ (length_within "display_name" 1 128 (len p.display_name)
        ++ (optional_within "location" 128 p.location
            ++ (number_within "sunshine_port" 1 65535 p.sunshine_port
                ++ (optional_within "gpu_model" 128 p.gpu_model
                    ++ optional_within "sunshine_broker_token" 128 p.sunshine_broker_token))))

-- `HostSunshineTokenUpdate(...)`
unfoldable pub validate_sunshine_token_update : String → Faults
validate_sunshine_token_update token = length_within "sunshine_broker_token" 1 128 (len token)

-- `ConnectTokenRequest(...)`
unfoldable pub validate_connect_token_request : Option String → Faults
validate_connect_token_request client = optional_within "client" 32 client

-- `Field(..., min_length=16)`
unfoldable pub long_enough : String → Faults
long_enough token = if ltb (len token) 16 then ("token", string_too_short) ∷ [] else []

-- `TokenVerifyRequest(...)`, the default of `consume` among them.
pub record TokenVerifyRequest : Type 0 where
  pub token : String
  pub consume : Bool

unfoldable pub token_verify_request : String → Option Bool → TokenVerifyRequest
token_verify_request token none = record { token = token; consume = true }
token_verify_request token (some consume) = record { token = token; consume = consume }

unfoldable pub validate_token_verify_request : TokenVerifyRequest → Faults
validate_token_verify_request request = long_enough request.token

-- `^\d{4}$`, where `is_digit` is what the regular expressions of pydantic take for a digit.
unfoldable pub is_pin : (ℕ → Bool) → Text → Bool
is_pin is_digit [] = false
is_pin is_digit (a ∷ []) = false
is_pin is_digit (a ∷ b ∷ []) = false
is_pin is_digit (a ∷ b ∷ c ∷ []) = false
is_pin is_digit (a ∷ b ∷ c ∷ d ∷ []) = is_digit a && is_digit b && is_digit c && is_digit d
is_pin is_digit (a ∷ b ∷ c ∷ d ∷ e ∷ rest) = false

-- `PairingRequest(...)`
unfoldable pub validate_pairing_request : (ℕ → Bool) → String → Text → Faults
validate_pairing_request is_digit token pin =
    long_enough token ++ (if is_pin is_digit pin then [] else ("pin", pattern_mismatch) ∷ [])

pub record SystemMetrics : Type 0 where
  pub cpu_pct : ℕ
  pub mem_pct : ℕ
  pub uptime_sec : ℤ

pub record SessionInfo : Type 0 where
  pub sunshine_running : Bool
  pub active_user : Option Text
  pub active_clients : ℤ
  pub connection_state : Option Text

pub record GpuMetric : Type 0 where
  pub name : Text
  pub util_pct : ℕ
  pub mem_pct : ℕ

pub record HeartbeatRequest : Type 0 where
  pub agent_version : Text
  pub boot_time : ℕ
  pub system : SystemMetrics
  pub session : SessionInfo
  pub gpu : List GpuMetric
  pub agent_self_rtt_ms : Option ℤ

-- `Field(default=None, ge=0)`
unfoldable pub optional_not_negative : String → Option ℤ → Faults
optional_not_negative field none = []
optional_not_negative field (some n) = not_negative field n

unfoldable pub validate_system : SystemMetrics → Faults
validate_system m =
    number_within "cpu_pct" 0 1000 m.cpu_pct
    ++ (number_within "mem_pct" 0 1000 m.mem_pct ++ not_negative "uptime_sec" m.uptime_sec)

-- `Literal["active", "disconnected", "unknown"] | None`
unfoldable pub is_connection_state : Option Text → Bool
is_connection_state none = true
is_connection_state (some s) =
    text_eq s (codes "active") || (text_eq s (codes "disconnected") || text_eq s (codes "unknown"))

-- `Field(default=None, max_length=64)`
unfoldable pub user_within : Option Text → Faults
user_within none = []
user_within (some s) = length_within "active_user" 0 64 (length s)

unfoldable pub validate_session : SessionInfo → Faults
validate_session s =
    user_within s.active_user
    ++ (not_negative "active_clients" s.active_clients
        ++ (if is_connection_state s.connection_state
            then []
            else ("connection_state", literal_error) ∷ []))

unfoldable pub validate_gpus : List GpuMetric → Faults
validate_gpus [] = []
validate_gpus (g ∷ rest) =
    length_within "name" 1 128 (length g.name)
    ++ (number_within "util_pct" 0 1000 g.util_pct
        ++ (number_within "mem_pct" 0 1000 g.mem_pct ++ validate_gpus rest))

-- `HeartbeatRequest(...)`
unfoldable pub validate_heartbeat : HeartbeatRequest → Faults
validate_heartbeat r =
    length_within "agent_version" 1 32 (length r.agent_version)
    ++ (validate_system r.system
        ++ (validate_session r.session
            ++ (validate_gpus r.gpu
                ++ optional_not_negative "agent_self_rtt_ms" r.agent_self_rtt_ms)))
