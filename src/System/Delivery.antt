-- ===== src/System/Delivery.antt =====
-- A heartbeat on its way: what the agent collected as the body of its request, and the endpoint of
-- broker/app/api/v1/agents.py with the dependency and the schema in front of it. Percentages are in
-- tenths on both sides.
use smart_classroom.Prelude.{ℕ, List, [], ◌∷◌, map, Option, none, some, String, Text, codes}
use smart_classroom.Domain.Settings.{Settings}
use smart_classroom.Domain.Rows.{Host, Metadata, Token}
use smart_classroom.Domain.Db.{Db}
use smart_classroom.Hosts.Status.{World}
use smart_classroom.Api.Auth.{Access, granted, denied, header_token, get_agent_host}
use smart_classroom.Api.Schemas.{
  ℤ, pos, Faults, SystemMetrics, SessionInfo, GpuMetric, HeartbeatRequest, validate_heartbeat,
}
use smart_classroom.Api.Agents.{heartbeat_endpoint}
use smart_classroom.Agent.Session.{ConnectionState, active, disconnected, unknown}
use smart_classroom.Agent.Gpu.{GpuSnapshot}
use smart_classroom.Agent.System.{SystemSnapshot}
use smart_classroom.Agent.Heartbeat.{Payload, HttpReply, reply}
pub mod Fitting
pub mod Exchange

abbrev pub AgentPayload : Type 0
AgentPayload = Payload (SystemSnapshot ℕ ℤ) (GpuSnapshot ℕ) ℤ

abbrev pub state_text : ConnectionState → Text
state_text active = codes "active"
state_text disconnected = codes "disconnected"
state_text unknown = codes "unknown"

abbrev pub gpu_metric : GpuSnapshot ℕ → GpuMetric
gpu_metric g = record { name = g.name; util_pct = g.util_pct; mem_pct = g.mem_pct }

-- The JSON of the payload, as the schema of the broker reads it.
unfoldable pub request_of : AgentPayload → HeartbeatRequest
request_of p = record {
  agent_version = p.agent_version;
  boot_time = p.boot_time;
  system = record {
    cpu_pct = p.system.cpu_pct;
    mem_pct = p.system.mem_pct;
    uptime_sec = p.system.uptime_sec;
  };
  session = record {
    sunshine_running = p.session.sunshine_running;
    active_user = p.session.active_user;
    active_clients = pos p.session.active_clients;
    connection_state = some (state_text p.session.connection_state);
  };
  gpu = map gpu_metric p.gpu;
  agent_self_rtt_ms = p.agent_self_rtt_ms;
}

-- What the endpoint stores of the request.
abbrev pub report_of : HeartbeatRequest → Metadata
report_of request = record {
  agent_version = request.agent_version;
  boot_time = request.boot_time;
  cpu_pct = request.system.cpu_pct;
  mem_pct = request.system.mem_pct;
  sunshine_running = request.session.sunshine_running;
}

-- `HeartbeatResponse`, or the body of an error.
pub data Body : Type 0 where
  heartbeat_response : (next_interval_sec server_time : ℕ) → Body
  error_body : Body

-- The endpoint for the host that was found, once the body is checked.
unfoldable pub accept_heartbeat :
    Settings → ℕ → HeartbeatRequest → Faults → Host → World → HttpReply Body × World
accept_heartbeat settings now request [] host w = (
  reply 200 (some (heartbeat_response 30 now)),
  (heartbeat_endpoint settings now (report_of request) host w).1,
)
accept_heartbeat settings now request (fault ∷ faults) host w = (reply 422 (some error_body), w)

-- `get_agent_host`, then the schema, then the endpoint.
unfoldable pub answer_heartbeat :
    Settings → ℕ → HeartbeatRequest → Access (Host × Token) → World → HttpReply Body × World
answer_heartbeat settings now request (denied reason) w = (reply 401 (some error_body), w)
answer_heartbeat settings now request (granted agent) w =
    accept_heartbeat settings now request (validate_heartbeat request) agent.0 w

-- POST /agents/heartbeat; the clock is read by the dependency and by the endpoint.
unfoldable pub receive_heartbeat :
    (String → String)
    → Settings
    → ℕ
    → ℕ
    → String
    → HeartbeatRequest
    → World
    → HttpReply Body × World
receive_heartbeat digest settings now_verify now auth_header request w =
    answer_heartbeat settings now request
      (get_agent_host digest now_verify (header_token auth_header) w.db) w
