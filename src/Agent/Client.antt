-- ===== src/Agent/Client.antt =====
-- agent/smartclassroom_agent/client.py: what the agent's client sends with every request, and where.
use smart_classroom.Prelude.{ℕ, ◌++◌, append_string, String, Text, codes}
use smart_classroom.Agent.Config.{rstrip_slash}

pub record BrokerClient : Type 0 where
  pub base_url : Text
  pub timeout : ℕ
  pub authorization : String

-- `BrokerClient(broker_url, agent_token)`, with its default timeout of ten seconds.
unfoldable pub broker_client : Text → String → BrokerClient
broker_client broker_url agent_token = record {
  base_url = rstrip_slash broker_url;
  timeout = 10;
  authorization = append_string "Bearer " agent_token;
}

-- The URL of `post_heartbeat`.
unfoldable pub heartbeat_url : BrokerClient → Text
heartbeat_url client = client.base_url ++ codes "/api/v1/agents/heartbeat"
