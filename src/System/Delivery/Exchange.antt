-- ===== src/System/Delivery/Exchange.antt =====
-- One cycle of the agent's loop against the broker's endpoint.
use smart_classroom.Prelude.{
  ℕ, ◌≡◌, ◌≢◌, ◌⊎◌, Option, none, some, String, Text, lstrip_string, rstrip_string,
}
use smart_classroom.Domain.Settings.{Settings}
use smart_classroom.Domain.Rows.{Host, Token, offline}
use smart_classroom.Domain.Db.{Db, get_host}
use smart_classroom.Hosts.Status.{World}
use smart_classroom.Api.Auth.{granted, denied, Denied, get_agent_host}
use smart_classroom.Agent.Client.{broker_client}
use smart_classroom.Agent.Heartbeat.{HttpReply}
use smart_classroom.System.Delivery.{
  AgentPayload, Body, heartbeat_response, request_of, receive_heartbeat,
}
use smart_classroom.System.Delivery.Fitting.{Fits}

-- The host has just been heard of, and is not offline.
abbrev pub IsAlive : ℕ → ℕ → Db → Type 0
IsAlive i now db =
    (h : Host) × (get_host i db ≡ some h) × (h.last_heartbeat_at ≡ some now) × (h.status ≢ offline)

module _ (digest : String → String) (settings : Settings) (now_verify now : ℕ) (url : Text)
    (token : String) (bare : rstrip_string (lstrip_string token) ≡ token) where
  -- The answer of a broker in the state `w`, and the state that it goes on in.
  abbrev pub ask : World → AgentPayload → HttpReply Body × World
  ask w p =
      receive_heartbeat digest settings now_verify now (broker_client url token).authorization
        (request_of p) w

  -- How the exchange of the payload `p` with a broker in the state `w` ends.
  abbrev pub Ends : AgentPayload → World → Option Body → World → Type 0
  Ends p w body w' =
      ((agent : Host × Token) × (get_agent_host digest now_verify (some token) w.db ≡ granted agent)
        × Fits p
        × (body ≡ some (heartbeat_response 30 now))
        × IsAlive agent.0.id now w'.db)
      ⊎ (((¬ Fits p)
            ⊎ ((reason : Denied) × (get_agent_host digest now_verify (some token) w.db
                  ≡ denied reason)))
          × (body ≡ none)
          × (w' ≡ w))
