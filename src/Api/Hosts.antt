-- ===== src/Api/Hosts.antt =====
-- The admin's endpoints of broker/app/api/v1/hosts.py: enrolment of a host, rotation of its agent
-- token, and its Sunshine token.
use smart_classroom.Prelude.{
  ℕ, suc, ◌∷◌, Option, none, some, String, str_eq, ◌==◌, exists_where, update_where,
}
use smart_classroom.Domain.Settings.{Settings}
use smart_classroom.Domain.Rows.{User, Host, Token, offline}
use smart_classroom.Domain.Db.{
  M, pure, ◌>>=◌, ◌>>◌, raise_if, gets, modify, or_raise, get_host, http_error,
}
use smart_classroom.Tokens.Agent.{issue_agent_token}

-- `HostCreate`
pub record HostCreate : Type 0 where
  pub hostname : String
  pub display_name : String
  pub location : Option String
  pub ip_address : Option String
  pub sunshine_port : ℕ
  pub sunshine_broker_token : Option String
  pub gpu_model : Option String

abbrev pub host_from : ℕ → HostCreate → Host
host_from new_id payload = record {
  id = new_id;
  hostname = payload.hostname;
  display_name = payload.display_name;
  location = payload.location;
  ip_address = payload.ip_address;
  sunshine_port = payload.sunshine_port;
  sunshine_broker_token = payload.sunshine_broker_token;
  gpu_model = payload.gpu_model;
  status = offline;
  last_heartbeat_at = none;
  host_metadata = none;
}

-- The INSERT; a hostname that is taken violates `hosts_hostname_key`, which is answered by 409.
unfoldable pub insert_host : HostCreate → M Host
insert_host payload = do
  new_id ← gets (λ db. db.next_host_id)
  raise_if (← gets (λ db. exists_where (λ h. str_eq h.hostname payload.hostname) db.hosts))
      (http_error 409)
  modify
      (λ db. record db { hosts = host_from new_id payload ∷ db.hosts; next_host_id = suc new_id })
  pure (host_from new_id payload)

-- The answers are the host, the new token's row and how many tokens were revoked.
unfoldable pub create_host_endpoint :
    (String → String) → Settings → ℕ → ℕ → String → HostCreate → User → M (Host × Token × ℕ)
create_host_endpoint digest settings now_revoke now raw_token payload admin = do
  host ← insert_host payload
  issue ← issue_agent_token digest settings now_revoke now raw_token host admin
  pure (host, issue.0, issue.1)

unfoldable pub rotate_agent_token_endpoint :
    (String → String) → Settings → ℕ → ℕ → String → ℕ → User → M (Host × Token × ℕ)
rotate_agent_token_endpoint digest settings now_revoke now raw_token host_id admin = do
  host ← or_raise (← gets (get_host host_id)) (http_error 404)
  issue ← issue_agent_token digest settings now_revoke now raw_token host admin
  pure (host, issue.0, issue.1)

abbrev pub set_sunshine_token : String → Host → Host
set_sunshine_token token h = record h { sunshine_broker_token = some token }

unfoldable pub set_sunshine_token_endpoint : ℕ → String → M Host
set_sunshine_token_endpoint host_id sunshine_broker_token = do
  host ← or_raise (← gets (get_host host_id)) (http_error 404)
  modify (λ db. record db {
    hosts = update_where (λ h. h.id == host.id) (set_sunshine_token sunshine_broker_token) db.hosts;
  })
  pure (set_sunshine_token sunshine_broker_token host)
