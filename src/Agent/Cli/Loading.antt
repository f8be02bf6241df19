-- ===== src/Agent/Cli/Loading.antt =====
-- What a configuration that is loaded satisfies, and what the command `doctor` does with it.
use smart_classroom.Prelude.{
  String, ◌⊎◌, true, Bool, ◌≤◌, ◌≡◌, Bool, true, [], ◌∷◌, Option, some, Text, codes, length,
}
use smart_classroom.Agent.Config.{within, default_serverinfo_url, AgentConfig, is_log_level}
use smart_classroom.Agent.Client.{BrokerClient}
use smart_classroom.Agent.Heartbeat.{Around, send_heartbeat}
use smart_classroom.Agent.Cli.{Loaded, loaded, failed, CommandEnd, not_configured, ended, client_of}

-- A URL that pydantic gives for some text.
abbrev pub IsUrl : (Text → Option Text) → Text → Type 0
IsUrl http_url url = (t : Text) × (http_url t ≡ some url)

-- The bounds of the schema, on the settings that it gives; seconds are in milliseconds.
pub record IsValid (http_url : Text → Option Text) (cfg : AgentConfig) : Type 0 where
  pub broker : IsUrl http_url cfg.broker_url
  pub host : 1 ≤ cfg.host_id
  pub token : (16 ≤ length (codes cfg.agent_token)) × (length (codes cfg.agent_token) ≤ 128)
  pub interval : (1000 ≤ cfg.interval_seconds) × (cfg.interval_seconds ≤ 600_000)
  pub level : is_log_level cfg.log_level ≡ true
  pub serverinfo :
      (cfg.sunshine_serverinfo_url ≡ default_serverinfo_url)
      ⊎ IsUrl http_url cfg.sunshine_serverinfo_url
  pub timeout :
      (500 ≤ cfg.sunshine_query_timeout_seconds) × (cfg.sunshine_query_timeout_seconds ≤ 30_000)

abbrev is_token_length : String → Bool
is_token_length t = within 16 128 (length (codes t))

-- How `doctor` ends on a configuration: with its error, or on valid settings, with one heartbeat.
abbrev pub DoctorEnds :
    {System Gpu Rtt A : Type 0}
    → (Text → Option Text)
    → Text
    → (BrokerClient → Around System Gpu Rtt A)
    → Loaded
    → CommandEnd A
    → Type 0
DoctorEnds http_url version around (failed e) result = result ≡ not_configured e
DoctorEnds http_url version around (loaded cfg) result =
    IsValid http_url cfg
    × (result
        ≡ ended
            (some (1, send_heartbeat version true (around (client_of version around cfg)) 0 ∷ [])))
