-- ===== src/Agent/Cli.antt =====
-- agent/smartclassroom_agent/cli.py and `load_config` of config.py: the commands from the file of the
-- configuration on.
use smart_classroom.Prelude.{ℕ, Bool, true, List, Option, none, some, Text}
use smart_classroom.Agent.Config.{absent, RawConfig, AgentConfig, validate_config, broker_url_str}
use smart_classroom.Agent.Logging.{Logging, configure_logging}
use smart_classroom.Agent.Client.{BrokerClient, broker_client}
use smart_classroom.Agent.Heartbeat.{Around, Entry, run_cmd, doctor_cmd}
pub mod Loading

-- What opening the file and `yaml.safe_load` give: an error, a value that Python takes for false, one
-- that is no mapping, or a mapping.
pub data ConfigFile : Type 0 where
  not_opened not_parsed falsy no_mapping : ConfigFile
  mapping : RawConfig → ConfigFile

pub data LoadError : Type 0 where
  os_error yaml_error value_error validation_error : LoadError

pub data Loaded : Type 0 where
  loaded : AgentConfig → Loaded
  failed : LoadError → Loaded

abbrev pub empty_config : RawConfig
empty_config = record {
  broker_url = absent;
  host_id = absent;
  agent_token = absent;
  interval_seconds = absent;
  log_level = absent;
  sunshine_serverinfo_url = absent;
  sunshine_query_timeout_seconds = absent;
}

abbrev pub or_invalid : Option AgentConfig → Loaded
or_invalid none = failed validation_error
or_invalid (some cfg) = loaded cfg

module _ (http_url : Text → Option Text) where
  unfoldable pub load_config : ConfigFile → Loaded
  load_config not_opened = failed os_error
  load_config not_parsed = failed yaml_error
  load_config falsy = or_invalid (validate_config http_url empty_config)
  load_config no_mapping = failed value_error
  load_config (mapping raw) = or_invalid (validate_config http_url raw)

-- `_load_and_configure`, once the file is read.
unfoldable pub configured : (Text → Option ℕ) → Loaded → Logging → Logging
configured attribute (failed e) logging = logging
configured attribute (loaded cfg) logging = configure_logging attribute cfg.log_level logging

-- How a command ends: with the error of its configuration, or, after its client is closed, with the
-- number of cycles and the log of the loop; none if the fuel is spent.
pub data CommandEnd (A : Type 0) : Type 0 where
  not_configured : LoadError → CommandEnd A
  ended : Option (ℕ × List (Entry A)) → CommandEnd A

-- What is around the loop depends on the client, whose requests the broker answers.
module _ {System Gpu Rtt A : Type 0} (version : Text)
    (around : BrokerClient → Around System Gpu Rtt A) where
  abbrev pub client_of : AgentConfig → BrokerClient
  client_of cfg = broker_client (broker_url_str cfg) cfg.agent_token

  unfoldable pub doctor_main : ℕ → Loaded → CommandEnd A
  doctor_main fuel (failed e) = not_configured e
  doctor_main fuel (loaded cfg) = ended (doctor_cmd version true (around (client_of cfg)) fuel)

  unfoldable pub run_main : ℕ → Loaded → CommandEnd A
  run_main fuel (failed e) = not_configured e
  run_main fuel (loaded cfg) = ended (run_cmd version true (around (client_of cfg)) fuel)
