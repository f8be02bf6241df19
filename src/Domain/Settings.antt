-- ===== src/Domain/Settings.antt =====
-- The policy fields of `Settings` in broker/app/core/config.py that the modelled code reads.
-- Percentages are whole multiples of a fixed small step: they are only compared.
use smart_classroom.Prelude.{ℕ, Bool, true, false, Option, none, String}

pub data AppEnv : Type 0 where
  development staging production test : AppEnv

pub data AuthProviderName : Type 0 where
  mock cnu_sso cnu_mail_oauth : AuthProviderName

pub record Settings : Type 0 where
  pub app_env : AppEnv
  pub auth_provider : AuthProviderName
  pub session_secret : String
  pub session_ttl_seconds : ℕ
  pub session_cookie_secure : Bool
  pub reservation_slot_minutes : ℕ
  pub max_concurrent_reservations : ℕ
  pub max_reservation_hours_per_day : ℕ
  pub max_reservation_duration_minutes : ℕ
  pub reservation_lookahead_days : ℕ
  pub connect_token_grace_seconds : ℕ
  pub agent_token_ttl_days : ℕ
  pub host_offline_after_seconds : ℕ
  pub host_degraded_cpu_pct : ℕ
  pub host_degraded_mem_pct : ℕ
  pub host_status_monitor_interval_seconds : ℕ
  pub internal_api_token : Option String
  pub sunshine_config_port : ℕ
  pub sunshine_tls_verify : Bool
  pub sunshine_request_timeout_seconds : ℕ
  pub sunshine_pair_max_attempts : ℕ
  pub sunshine_pair_backoff_base_seconds : ℕ

-- The defaults; percentages in tenths, and the seconds of Sunshine's client in milliseconds.
abbrev pub default_settings : Settings
default_settings = record {
  app_env = development;
  auth_provider = mock;
  session_secret = "change-me";
  session_ttl_seconds = 28800;
  session_cookie_secure = true;
  reservation_slot_minutes = 30;
  max_concurrent_reservations = 5;
  max_reservation_hours_per_day = 8;
  max_reservation_duration_minutes = 240;
  reservation_lookahead_days = 14;
  connect_token_grace_seconds = 60;
  agent_token_ttl_days = 3650;
  host_offline_after_seconds = 90;
  host_degraded_cpu_pct = 900;
  host_degraded_mem_pct = 950;
  host_status_monitor_interval_seconds = 60;
  internal_api_token = none;
  sunshine_config_port = 47990;
  sunshine_tls_verify = false;
  sunshine_request_timeout_seconds = 5_000;
  sunshine_pair_max_attempts = 5;
  sunshine_pair_backoff_base_seconds = 500;
}
